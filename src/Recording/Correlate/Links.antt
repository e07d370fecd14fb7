-- ===== src/Recording/Correlate/Links.antt =====
-- The parent links that `correlate` gives.
use mathlib.Core.List.{Mem, Forall₂}
use mathlib.Core.List.Perm
use infra_replay.Common.{
  ℕ, suc, String, ◌≡◌, refl, sym, ◌∙◌, ◌⊎◌, inl, inr, Bool, true, false, Option, none, some, List,
  [], ◌∷◌, ◌++◌, map, Perm, concat, find_first, All, All-imp, All-zip, ◌==◌, string_eq,
  if◌then◌else◌, Bool-cases,
}
use infra_replay.Schema.Event.{Event, http_request, type_eq}
use infra_replay.Recording.Correlate.{
  or_else, event_id_of, parent_for, next_query, link_from, link, number_from, groups, correlate,
}
use infra_replay.Recording.Correlate.Requests.{
  OneRequest, groups-perm, groups-OneRequest, All-mem-concat,
}

-- A link that Python takes as true: neither `None` nor empty.
abbrev pub IsRecorded : Option String → Type 0
IsRecorded none = ⊥
IsRecorded (some s) = (s == "") ≡ false

-- `o` is `e` with a new sequence number, and with a parent link if `e` had none.
pub record Relinked (pool : List Event) (e o : Event) : Type 0 where
  pub same : record o { sequence = e.sequence; parent_event_id = e.parent_event_id } ≡ e
  pub kept : IsRecorded e.parent_event_id → o.parent_event_id ≡ e.parent_event_id
  pub filled :
      ¬ IsRecorded e.parent_event_id
      → (o.parent_event_id ≡ none)
        ⊎ ((p : Event) × Mem p pool
            × (p.correlation_id ≡ e.correlation_id)
            × (o.parent_event_id ≡ some p.event_id))

-- A possible parent is an event of the pool and of the request.
abbrev IsParent : List Event → String → Option Event → Type 0
IsParent pool c none = Unit
IsParent pool c (some p) = Mem p pool × (p.correlation_id ≡ c)

abbrev IsMember : List Event → String → Event → Type 0
IsMember pool c e = Mem e pool × (e.correlation_id ≡ c)

module _ (pool : List Event) (c : String) where
  -- The link of `e` that is filled in from `o`.
  abbrev LinksTo : Event → Option String → Type 0
  LinksTo e parent =
      (parent ≡ none)
      ⊎ ((p : Event) × Mem p pool
          × (p.correlation_id ≡ e.correlation_id)
          × (parent ≡ some p.event_id))

  event_id_of-LinksTo :
      (e : Event) (o : Option Event)
      → e.correlation_id ≡ c
      → IsParent pool c o
      → LinksTo e (event_id_of o)
  event_id_of-LinksTo e none h m = inl refl
  event_id_of-LinksTo e (some p) h m = inr (p, m.0, m.1 ∙ sym h, refl)

  if-LinksTo :
      (e : Event) (b : Bool) (s t : Option String)
      → LinksTo e s
      → LinksTo e t
      → LinksTo e (if b then s else t)
  if-LinksTo e true s t hs ht = hs
  if-LinksTo e false s t hs ht = ht

  parent_for-LinksTo :
      (e : Event) (root last_query : Option Event)
      → e.correlation_id ≡ c
      → IsParent pool c root
      → IsParent pool c last_query
      → LinksTo e (parent_for e root last_query)
  unfolding parent_for
  parent_for-LinksTo e root last_query h hr hq =
      if-LinksTo e _ _ _ (inl refl) (
        if-LinksTo e _ _ _ (event_id_of-LinksTo e last_query h hq)
          (event_id_of-LinksTo e root h hr))

  or_else_kept : (a b : Option String) → IsRecorded a → or_else a b ≡ a
  unfolding or_else
  or_else_kept none b h = absurd h
  or_else_kept (some s) b h = rw h

  or_else_filled : (a b : Option String) → ¬ IsRecorded a → or_else a b ≡ b
  unfolding or_else
  or_else_filled none b h = refl
  or_else_filled (some s) b h = elim (Bool-cases (s == "")) [
    | inl empty ↦ rw empty
    | inr given ↦ absurd (h given)
  ]

  if-IsParent :
      (b : Bool) (o p : Option Event)
      → IsParent pool c o
      → IsParent pool c p
      → IsParent pool c (if b then o else p)
  if-IsParent true o p ho hp = ho
  if-IsParent false o p ho hp = hp

  link_from-Relinked :
      (root last_query : Option Event) (events : List Event)
      → IsParent pool c root
      → IsParent pool c last_query
      → All (IsMember pool c) events
      → Forall₂ (Relinked pool) events (link_from root last_query events)
  unfolding link_from
  link_from-Relinked root last_query [] hr hq h = Forall₂.nil
  link_from-Relinked root last_query (e ∷ events) hr hq h =
      Forall₂.cons
        (record {
          same = refl;
          kept = or_else_kept e.parent_event_id (parent_for e root last_query);
          filled = λ empty.
              rw (or_else_filled e.parent_event_id (parent_for e root last_query) empty)
                (parent_for-LinksTo e root last_query (h.0.1) hr hq);
        })
        (link_from-Relinked root (next_query last_query e) events hr
          (if-IsParent _ (some e) last_query (h.0) hq) h.1)

  find_first-IsParent :
      (test : Event → Bool) (events : List Event)
      → All (IsMember pool c) events
      → IsParent pool c (find_first test events)
  find_first-IsParent test [] h = tt
  find_first-IsParent test (e ∷ events) h =
      if-IsParent (test e) (some e) (find_first test events) h.0
        (find_first-IsParent test events h.1)

  link-Relinked :
      (group : List Event)
      → All (IsMember pool c) group
      → Forall₂ (Relinked pool) group (link group)
  unfolding link
  link-Relinked group h =
      link_from-Relinked (find_first (λ e. e.event_type == http_request) group) none group
        (find_first-IsParent (λ e. e.event_type == http_request) group h) tt h

Forall₂-append {ℓ κ} :
    {A : Type ℓ} {R : A → A → Type κ} {xs ys us vs : List A}
    → Forall₂ R xs ys
    → Forall₂ R us vs
    → Forall₂ R (xs ++ us) (ys ++ vs)
Forall₂-append Forall₂.nil k = k
Forall₂-append (Forall₂.cons r h) k = Forall₂.cons r (Forall₂-append h k)

module _ (pool : List Event) where
  concat-Relinked :
      (gs : List (List Event))
      → All OneRequest gs
      → All (λ g. All (λ e. Mem e pool) g) gs
      → Forall₂ (Relinked pool) (concat gs) (concat (map link gs))
  concat-Relinked [] one mem = Forall₂.nil
  concat-Relinked (g ∷ gs) one mem =
      Forall₂-append
        (link-Relinked pool one.0.0 g
          (All-zip (λ e. Mem e pool) (λ e. e.correlation_id ≡ one.0.0) g mem.0 one.0.1))
        (concat-Relinked gs one.1 mem.1)

  number_from-Relinked :
      (n : ℕ) {es os : List Event}
      → Forall₂ (Relinked pool) es os
      → Forall₂ (Relinked pool) es (number_from n os)
  unfolding number_from
  number_from-Relinked n Forall₂.nil = Forall₂.nil
  number_from-Relinked n (Forall₂.cons r h) =
      Forall₂.cons (record { same = r.same; kept = r.kept; filled = r.filled })
        (number_from-Relinked (suc n) h)

-- `correlate` returns a rearrangement of its input, in which only sequence numbers and parent
-- links change. A link that an event has recorded is kept; an event with none (or an empty one)
-- gets none, or the id of an event of the input with the same correlation id.
pub correlate-Relinked :
    (events : List Event)
    → (arranged : List Event) × Perm arranged events
      × Forall₂ (Relinked events) arranged (correlate events)
unfolding correlate
correlate-Relinked events = (
  concat (groups events),
  groups-perm events,
  number_from-Relinked events 0 (
      concat-Relinked events (groups events) (groups-OneRequest events) (
        All-imp (λ g. All (λ e. Mem e (concat (groups events))) g) (λ g. All (λ e. Mem e events) g)
          (groups events)
          (λ g.
            All-imp (λ e. Mem e (concat (groups events))) (λ e. Mem e events) g
              (Perm.subset (groups-perm events)))
          (All-mem-concat (groups events)))),
)
