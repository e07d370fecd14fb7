-- ===== src/Replay/Linking/Reproduced.antt =====
-- A replay that reproduces a stream event by event is linked event by event.
use mathlib.Core.List.{Forall₂}
use mathlib.Core.Option
use infra_replay.Common.{
  ℕ, suc, ◌+◌, String, ◌≡◌, refl, sym, ap, ap₂, ◌∙◌, subst, some, List, [], ◌∷◌, map, arith, length,
  leb, Eq, ◌==◌, nat_eq, string_eq, pair_eq, Bool-cases, Option-cases, inl, inr, All, All-imp,
  All-map, All-of-map,
}
use infra_replay.Common.Dict.{
  Dict, get, set, get-set, get-set_self, HasUniqueKeys, set-HasUniqueKeys, AllFound_self,
}
use infra_replay.Common.Sort.{insert, sorted, All-of-sorted}
use infra_replay.Schema.Event.{Event, EventType, type_eq}
use infra_replay.Replay.Linking.Signatures.{values-signatures}
use infra_replay.Replay.Linking.{
  Slot, Signature, sequence_le, get_or, set_default, sign, signatures, link_from, link_streams,
}

module _ {K V W : Type 0} ⦃e : Eq K⦄ (f : V → W) where
  abbrev pub map_values : Dict K V → Dict K W
  map_values = map (λ x. (x.0, f x.1))

  pub get-map_values : (d : Dict K V) (k : K) → get (map_values d) k ≡ Option.map f (get d k)
  unfolding get
  get-map_values [] k = refl
  get-map_values ((j, v) ∷ d) k = elim (Bool-cases (j == k)) [
    | inl hit ↦ rw hit
    | inr miss ↦ rw miss (get-map_values d k)
  ]

  pub set-map_values :
      (d : Dict K V) (k : K) (v : V) → set (map_values d) k (f v) ≡ map_values (set d k v)
  unfolding set
  set-map_values [] k v = refl
  set-map_values ((j, w) ∷ d) k v = elim (Bool-cases (j == k)) [
    | inl hit ↦ rw hit
    | inr miss ↦ rw miss (ap (◌∷◌ (j, f w)) (set-map_values d k v))
  ]

beq-inj :
    {K : Type 0} ⦃e : Eq K⦄ (g : K → K)
    → ((a b : K) → g a ≡ g b → a ≡ b)
    → (a b : K) → (g a == g b) ≡ (a == b)
beq-inj ⦃e⦄ g inj a b = elim (Bool-cases (a == b)) [
  | inl same ↦ rw same ((e.beq_iff (g a) (g b)).1 (ap g ((e.beq_iff a b).0 same)))
  | inr other ↦ elim (Bool-cases (g a == g b)) [
    | inl same ↦ same ∙ sym ((e.beq_iff a b).1 (inj a b ((e.beq_iff (g a) (g b)).0 same)))
    | inr p ↦ rw (p, other)
  ]
]

abbrev pub map_keys : {K V : Type 0} → (K → K) → Dict K V → Dict K V
map_keys g = map (λ x. (g x.0, x.1))

module _ {K V : Type 0} ⦃e : Eq K⦄ (g : K → K) (inj : (a b : K) → g a ≡ g b → a ≡ b) where
  pub get-map_keys : (d : Dict K V) (k : K) → get (map_keys g d) (g k) ≡ get d k
  unfolding get
  get-map_keys [] k = refl
  get-map_keys ((j, v) ∷ d) k = rw (beq-inj g inj j k, get-map_keys d k)

  pub set-map_keys :
      (d : Dict K V) (k : K) (v : V) → set (map_keys g d) (g k) v ≡ map_keys g (set d k v)
  unfolding set
  set-map_keys [] k v = refl
  set-map_keys ((j, w) ∷ d) k v = elim (Bool-cases (j == k)) [
    | inl hit ↦ rw (beq-inj g inj j k, hit)
    | inr miss ↦ rw (beq-inj g inj j k, miss) (ap (◌∷◌ (g j, w)) (set-map_keys d k v))
  ]

-- `o` stands in the replay where `e` stands in the original: it has the type and the place of `e`,
-- and its ids are those of `e`, renamed. The times and the payload are free.
pub record Reproduces (f g : String → String) (e o : Event) : Type 0 where
  pub event_id : o.event_id ≡ f e.event_id
  pub request : o.correlation_id ≡ g e.correlation_id
  pub type : o.event_type ≡ e.event_type
  pub place : o.sequence ≡ e.sequence

module _ (f g : String → String) (inj : (a b : String) → g a ≡ g b → a ≡ b) where
  insert-Reproduces :
      {e o : Event} {es os : List Event}
      → Reproduces f g e o
      → Forall₂ (Reproduces f g) es os
      → Forall₂ (Reproduces f g) (insert sequence_le e es) (insert sequence_le o os)
  unfolding insert
  insert-Reproduces r Forall₂.nil = Forall₂.cons r Forall₂.nil
  insert-Reproduces {e} {o} r (Forall₂.cons {a = a} {b = b} s h) =
      let rest = insert-Reproduces r h in
      elim (Bool-cases (sequence_le e a)) [
        | inl le ↦ rw (ap₂ leb r.place s.place, le) (Forall₂.cons r (Forall₂.cons s h))
        | inr gt ↦ rw (ap₂ leb r.place s.place, gt) (Forall₂.cons s rest)
      ]

  sorted-Reproduces :
      {es os : List Event}
      → Forall₂ (Reproduces f g) es os
      → Forall₂ (Reproduces f g) (sorted sequence_le es) (sorted sequence_le os)
  unfolding sorted
  sorted-Reproduces Forall₂.nil = Forall₂.nil
  sorted-Reproduces (Forall₂.cons r h) = insert-Reproduces r (sorted-Reproduces h)

  length-map_keys : (d : Dict String ℕ) → length (map_keys g d) ≡ length d
  length-map_keys [] = refl
  length-map_keys (x ∷ d) = ap suc (length-map_keys d)

  set_default-map_keys :
      (d : Dict String ℕ) (c : String)
      → set_default (map_keys g d) (g c) (length (map_keys g d))
        ≡ map_keys g (set_default d c (length d))
  set_default-map_keys d c = elim (Option-cases (get d c)) [
    | inl absent ↦
        rw (get-map_keys g inj d c, absent, set_default, length-map_keys d)
          (set-map_keys g inj d c (length d))
    | inr (n, present) ↦ rw (get-map_keys g inj d c, present, set_default)
  ]

  sign-Reproduces :
      (group_index : Dict String ℕ) (seen : Dict Slot ℕ) (sigs : Dict Signature String)
      {es os : List Event}
      → Forall₂ (Reproduces f g) es os
      → sign (map_keys g group_index) seen (map_values f sigs) os
        ≡ map_values f (sign group_index seen sigs es)
  unfolding sign
  sign-Reproduces group_index seen sigs Forall₂.nil = refl
  sign-Reproduces group_index seen sigs (Forall₂.cons {a = e} {b = o} {l₂ = os} r h) =
      let group = get_or (get group_index e.correlation_id) (length group_index) in
      let slot : Slot = (group, e.event_type) in
      let occurrence = get_or (get seen slot) 0 in
      ap₂
        (λ c i.
          step (set_default named c (length named)) (get_or (get named c) (length named)) i
            o.event_type)
        r.request r.event_id
      ∙ (ap₂ (λ d m. step d m (f e.event_id) o.event_type)
            (set_default-map_keys group_index e.correlation_id)
            (ap₂ get_or (get-map_keys g inj group_index e.correlation_id)
              (length-map_keys group_index))
          ∙ (ap
                (step (map_keys g (set_default group_index e.correlation_id (length group_index)))
                  group (f e.event_id))
                r.type
              ∙ (ap
                    (λ t.
                      sign
                        (map_keys g (set_default group_index e.correlation_id (length group_index)))
                        (set seen slot (occurrence + 1)) t os)
                    (set-map_values f sigs (slot, occurrence) e.event_id)
                  ∙ sign-Reproduces (set_default group_index e.correlation_id (length group_index))
                      (set seen slot (occurrence + 1)) (set sigs (slot, occurrence) e.event_id) h)))
    where
      named : Dict String ℕ
      named = map_keys g group_index

      step : Dict String ℕ → ℕ → String → EventType → Dict Signature String
      step d m i t =
          sign d (set seen (m, t) (get_or (get seen (m, t)) 0 + 1))
            (set (map_values f sigs) ((m, t), get_or (get seen (m, t)) 0) i) os

  -- Each entry of the original's table finds its partner.
  abbrev FindsPartners : Dict Signature String → Dict Signature String → Type 0
  FindsPartners replay_by_sig items = All (λ x. get replay_by_sig x.0 ≡ some (f x.1)) items

  link_from_found :
      (replay_by_sig : Dict Signature String) (links : Dict String String) (s : Signature)
      (j : String) (items : Dict Signature String)
      → get replay_by_sig s ≡ some (f j)
      → link_from replay_by_sig links ((s, j) ∷ items)
        ≡ link_from replay_by_sig (set links j (f j)) items
  unfolding link_from
  link_from_found replay_by_sig links s j items h = rw h

  link_from_keeps :
      (replay_by_sig : Dict Signature String) (links : Dict String String)
      (items : Dict Signature String) (i : String)
      → FindsPartners replay_by_sig items
      → get links i ≡ some (f i)
      → get (link_from replay_by_sig links items) i ≡ some (f i)
  unfolding link_from
  link_from_keeps replay_by_sig links [] i h k = k
  link_from_keeps replay_by_sig links ((s, j) ∷ items) i h k = rw (h.0) (
      link_from_keeps replay_by_sig (set links j (f j)) items i h.1
        (ground (arith, get-set links j i (f j), string_eq.beq_iff j i)))

  link_from-All :
      (replay_by_sig : Dict Signature String) (links : Dict String String)
      (items : Dict Signature String)
      → FindsPartners replay_by_sig items
      → All (λ x. get (link_from replay_by_sig links items) x.1 ≡ some (f x.1)) items
  unfolding link_from
  link_from-All replay_by_sig links [] h = tt
  link_from-All replay_by_sig links ((s, j) ∷ items) h =
      subst (λ (l : Dict String String). All (λ x. get l x.1 ≡ some (f x.1)) ((s, j) ∷ items))
        (sym (link_from_found replay_by_sig links s j items h.0))
        (
          link_from_keeps replay_by_sig (set links j (f j)) items j h.1
              (get-set_self links j (f j)),
          link_from-All replay_by_sig (set links j (f j)) items h.1,
        )

  sign-HasUniqueKeys :
      (group_index : Dict String ℕ) (seen : Dict Slot ℕ) (sigs : Dict Signature String)
      (events : List Event)
      → HasUniqueKeys sigs
      → HasUniqueKeys (sign group_index seen sigs events)
  unfolding sign
  sign-HasUniqueKeys group_index seen sigs [] h = h
  sign-HasUniqueKeys group_index seen sigs (e ∷ events) h =
      let slot : Slot =
        (get_or (get group_index e.correlation_id) (length group_index), e.event_type) in
      let occurrence = get_or (get seen slot) 0 in
      sign-HasUniqueKeys (set_default group_index e.correlation_id (length group_index))
        (set seen slot (occurrence + 1)) (set sigs (slot, occurrence) e.event_id) events
        (set-HasUniqueKeys sigs (slot, occurrence) e.event_id h)

  -- If the replay reproduces the stream event by event, whatever the times and the payloads, every
  -- original event is linked to the event that stands in its place. The ids and the correlation
  -- ids may be renamed, but two requests are not to share a new correlation id.
  pub link_streams-Reproduces :
      {original replayed : List Event}
      → Forall₂ (Reproduces f g) original replayed
      → All (λ e. get (link_streams original replayed) e.event_id ≡ some (f e.event_id)) original
  unfolding link_streams signatures
  link_streams-Reproduces {original} {replayed} h =
      All-of-sorted sequence_le (λ e. IsLinked e.event_id) original
        (All-of-map IsLinked (λ e. e.event_id) (sorted sequence_le original)
          (subst (All IsLinked) (values-signatures original) (
            All-map IsLinked (λ x. x.1) (signatures original)
              (link_from-All (signatures replayed) [] (signatures original) found))))
    where
      IsLinked : String → Type 0
      IsLinked i = get (link_streams original replayed) i ≡ some (f i)

      table : signatures replayed ≡ map_values f (signatures original)
      table = sign-Reproduces [] [] [] (sorted-Reproduces h)

      found : FindsPartners (signatures replayed) (signatures original)
      found =
          All-imp (λ x. get (signatures original) x.0 ≡ some x.1)
            (λ x. get (signatures replayed) x.0 ≡ some (f x.1)) (signatures original)
            (λ x k.
              ap (λ t. get t x.0) table
              ∙ (get-map_values f (signatures original) x.0 ∙ ap (Option.map f) k))
            (AllFound_self (signatures original)
              (sign-HasUniqueKeys [] [] [] (sorted sequence_le original) tt))
