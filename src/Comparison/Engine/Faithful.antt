-- ===== src/Comparison/Engine/Faithful.antt =====
-- The comparison of a replay that reproduces its recording event by event.
use mathlib.Core.List.{Forall₂}
use infra_replay.Common.{
  String, ◌≡◌, refl, sym, ap, ap₂, ◌∙◌, subst, true, false, Option, none, some, List, [], ◌∷◌, ◌++◌,
  arith, contains, string_eq, beq_refl, ◌==◌, Option-cases, inl, inr, All, All-imp, append-nil,
}
use infra_replay.Common.Dict.{Dict, get, set, get-set, get-set_self}
use infra_replay.Schema.Event.{Event, EventType}
use infra_replay.Schema.Result.{ComparisonResult}
use infra_replay.Comparison.Engine.Contract.{
  is_compared, walk_skip, walk_pair, leftovers_old, leftovers_skip,
}
use infra_replay.Comparison.Engine.{
  Comparator, by_id, first_recording_id, partner, walk, leftovers, compare_run,
}
use infra_replay.Replay.Linking.{link_streams}
use infra_replay.Replay.Linking.Reproduced.{Reproduces, link_streams-Reproduces}

abbrev pub HasDistinctIds : List Event → Type 0
HasDistinctIds [] = Unit
HasDistinctIds (o ∷ os) = All (λ p. (o.event_id == p.event_id) ≡ false) os × HasDistinctIds os

by_id_keeps :
    (d : Dict String Event) (os : List Event) (o : Event)
    → All (λ p. (o.event_id == p.event_id) ≡ false) os
    → get d o.event_id ≡ some o
    → get (by_id d os) o.event_id ≡ some o
unfolding by_id
by_id_keeps d [] o h k = k
by_id_keeps d (p ∷ os) o h k = by_id_keeps (set d p.event_id p) os o h.1 (
    ground (
      arith,
      get-set d p.event_id o.event_id p,
      string_eq.beq_iff o.event_id p.event_id,
      string_eq.beq_iff p.event_id o.event_id,
    ))

by_id-All :
    (d : Dict String Event) (os : List Event)
    → HasDistinctIds os
    → All (λ o. get (by_id d os) o.event_id ≡ some o) os
unfolding by_id
by_id-All d [] h = tt
by_id-All d (o ∷ os) h = (
  by_id_keeps (set d o.event_id o) os o h.0 (get-set_self d o.event_id o),
  by_id-All (set d o.event_id o) os h.1,
)

module _ (f : String → String) (links : Dict String String) (table : Dict String Event) where
  partner-eq :
      (e o : Event)
      → get links e.event_id ≡ some (f e.event_id)
      → (f e.event_id == "") ≡ false
      → o.event_id ≡ f e.event_id
      → get table o.event_id ≡ some o
      → partner table links e ≡ some o
  unfolding partner
  partner-eq e o linked full named found =
      rw (linked, partner, full) (sym (ap (get table) named) ∙ found)

  partners :
      (g : String → String) {es os : List Event}
      → Forall₂ (Reproduces f g) es os
      → All (λ e. get links e.event_id ≡ some (f e.event_id)) es
      → All (λ e. (f e.event_id == "") ≡ false) es
      → All (λ o. get table o.event_id ≡ some o) os
      → Forall₂ (λ e o. (partner table links e ≡ some o) × (o.event_type ≡ e.event_type)) es os
  partners g Forall₂.nil a b c = Forall₂.nil
  partners g (Forall₂.cons {a = e} {b = o} r h) a b c =
      Forall₂.cons (partner-eq e o a.0 b.0 r.event_id c.0, r.type) (partners g h a.1 b.1 c.1)

module _ (comparator_for : EventType → Option Comparator) where
  -- The events compared one to one.
  pub pairs : List Event → List Event → List ComparisonResult
  pairs (e ∷ es) (o ∷ os) = elim (comparator_for e.event_type) [
    | none ↦ pairs es os
    | some compare ↦ compare e o ∷ pairs es os
  ]
  pairs _ _ = []

  pair_ids : List Event → List Event → List String
  pair_ids (e ∷ es) (o ∷ os) = elim (comparator_for e.event_type) [
    | none ↦ pair_ids es os
    | some compare ↦ o.event_id ∷ pair_ids es os
  ]
  pair_ids _ _ = []

  module _ (find_partner : Event → Option Event) where
    abbrev Partners : Event → Event → Type 0
    Partners e o = (find_partner e ≡ some o) × (o.event_type ≡ e.event_type)

    walk-pairs :
        (replay_id : String) {es os : List Event}
        → Forall₂ Partners es os
        → walk comparator_for replay_id find_partner es ≡ (pairs es os, pair_ids es os)
    unfolding walk pairs pair_ids
    walk-pairs replay_id Forall₂.nil = refl
    walk-pairs replay_id (Forall₂.cons {a = e} {b = o} {l₁ = es} r h) =
        let ih = walk-pairs replay_id h in
        elim (Option-cases (comparator_for e.event_type)) [
          | inl p ↦
              rw (walk_skip comparator_for replay_id find_partner e es p, p, pairs, pair_ids) ih
          | inr (c, p) ↦ rw (
            walk_pair comparator_for replay_id find_partner e es c o p r.0,
            p,
            pairs,
            pair_ids,
            ih,
          )
        ]

    -- The ids of a pair that is compared go to the front.
    pair_ids_skip :
        (e o : Event) (es os : List Event)
        → comparator_for e.event_type ≡ none
        → pair_ids (e ∷ es) (o ∷ os) ≡ pair_ids es os
    unfolding pair_ids
    pair_ids_skip e o es os p = rw (p, pair_ids)

    pair_ids_cons :
        (e o : Event) (es os : List Event) (c : Comparator)
        → comparator_for e.event_type ≡ some c
        → pair_ids (e ∷ es) (o ∷ os) ≡ o.event_id ∷ pair_ids es os
    unfolding pair_ids
    pair_ids_cons e o es os c p = rw (p, pair_ids)

    abbrev IsConsumed : List String → Event → Type 0
    IsConsumed ids o = is_compared comparator_for o ≡ true → contains ids o.event_id ≡ true

    IsConsumed-cons :
        (ids : List String) (i : String) (o : Event) → IsConsumed ids o → IsConsumed (i ∷ ids) o
    IsConsumed-cons ids i o h c = ground (arith, h c)

    pair_ids-All :
        {es os : List Event} → Forall₂ Partners es os → All (IsConsumed (pair_ids es os)) os
    pair_ids-All Forall₂.nil = tt
    pair_ids-All (Forall₂.cons {a = e} {b = o} {l₁ = es} {l₂ = os} r h) =
        let ih = pair_ids-All h in
        let goal = λ (ids : List String). All (IsConsumed ids) (o ∷ os) in
        elim (Option-cases (comparator_for e.event_type)) [
          | inl p ↦
              subst goal (sym (pair_ids_skip e o es os p))
                (λ q. absurd (not_compared o e r.1 p q), ih)
          | inr (c, p) ↦ subst goal (sym (pair_ids_cons e o es os c p)) (
            λ _. rw (beq_refl o.event_id),
            All-imp (IsConsumed (pair_ids es os)) (IsConsumed (o.event_id ∷ pair_ids es os)) os
                (IsConsumed-cons (pair_ids es os) o.event_id) ih,
          )
        ]
      where
        not_compared :
            (a b : Event)
            → a.event_type ≡ b.event_type
            → comparator_for b.event_type ≡ none
            → is_compared comparator_for a ≡ true
            → ⊥
        not_compared a b same p q = ground (arith, ap comparator_for same)

    leftovers-nil :
        (replay_id : String) (consumed : List String) (os : List Event)
        → All (IsConsumed consumed) os
        → leftovers comparator_for replay_id consumed os ≡ []
    unfolding leftovers
    leftovers-nil replay_id consumed [] h = refl
    leftovers-nil replay_id consumed (o ∷ os) h =
        let ih = leftovers-nil replay_id consumed os h.1 in
        elim (Option-cases (comparator_for o.event_type)) [
          | inl p ↦ leftovers_skip comparator_for replay_id consumed o os p ∙ ih
          | inr (c, p) ↦ leftovers_old comparator_for replay_id consumed o os (h.0 (rw p)) ∙ ih
        ]

  -- If a replay reproduces its recording event by event, the links of `link_streams` make the
  -- comparison compare each original event that has a comparator with the event in its place, in
  -- order, and report nothing else: no row is MISSING and none is NEW. The new ids are to be
  -- distinct and not empty, and two requests are not to share a new correlation id.
  pub compare_run-Reproduces :
      (f g : String → String) {original replayed : List Event}
      → ((a b : String) → g a ≡ g b → a ≡ b)
      → Forall₂ (Reproduces f g) original replayed
      → All (λ e. (f e.event_id == "") ≡ false) original
      → HasDistinctIds replayed
      → compare_run comparator_for original replayed (link_streams original replayed)
        ≡ pairs original replayed
  unfolding compare_run
  compare_run-Reproduces f g {original} {replayed} inj h full distinct =
      let replay_id = first_recording_id replayed in
      let links = link_streams original replayed in
      let find_partner = partner (by_id [] replayed) links in
      let found =
        partners f links (by_id [] replayed) g h (link_streams-Reproduces f g inj h) full
          (by_id-All [] replayed distinct) in
      let walked = walk-pairs find_partner replay_id found in
      ap₂ ◌++◌ (ap (λ r. r.0) walked) (
        ap (λ r. leftovers comparator_for replay_id r.1 replayed) walked
        ∙ leftovers-nil find_partner replay_id (pair_ids original replayed) replayed
            (pair_ids-All find_partner found))
      ∙ append-nil (pairs original replayed)
