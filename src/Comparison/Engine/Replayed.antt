-- ===== src/Comparison/Engine/Replayed.antt =====
-- No replayed event is lost by a comparison.
use infra_replay.Common.{
  String, ◌≡◌, refl, sym, ap, ◌∙◌, subst, true, Option, none, some, List, [], ◌∷◌, ◌++◌, arith,
  contains, string_eq, beq_refl, Bool-cases, Option-cases, inl, inr, All, All-imp,
}
use infra_replay.Common.Dict.{Dict}
use infra_replay.Schema.Event.{Event, EventType}
use infra_replay.Schema.Result.{ComparisonResult}
use infra_replay.Comparison.Engine.Contract.{
  IsLawful, is_compared, walk_skip, walk_missing, walk_pair, leftovers_old, leftovers_skip,
  leftovers_new,
}
use infra_replay.Comparison.Engine.{
  Comparator, by_id, first_recording_id, partner, new_row, walk, leftovers, compare_run,
}

abbrev pub replayed_ids : List ComparisonResult → List String
replayed_ids [] = []
replayed_ids (r ∷ rows) = elim r.replayed_event_id [
  | none ↦ replayed_ids rows
  | some i ↦ i ∷ replayed_ids rows
]

replayed_ids-append :
    (xs ys : List ComparisonResult) → replayed_ids (xs ++ ys) ≡ replayed_ids xs ++ replayed_ids ys
replayed_ids-append [] ys = refl
replayed_ids-append (r ∷ xs) ys = elim (Option-cases r.replayed_event_id) [
  | inl p ↦ rw p (replayed_ids-append xs ys)
  | inr (i, p) ↦ rw p (ap (◌∷◌ i) (replayed_ids-append xs ys))
]

contains-append_left :
    (xs ys : List String) (a : String) → contains xs a ≡ true → contains (xs ++ ys) a ≡ true
contains-append_left [] ys a h = cc
contains-append_left (x ∷ xs) ys a h = ground (arith, contains-append_left xs ys a)

contains-append_right :
    (xs ys : List String) (a : String) → contains ys a ≡ true → contains (xs ++ ys) a ≡ true
contains-append_right [] ys a h = h
contains-append_right (x ∷ xs) ys a h = ground (arith, contains-append_right xs ys a)

contains-middle :
    (xs ys : List String) (y a : String)
    → contains (xs ++ ys) a ≡ true
    → contains (xs ++ y ∷ ys) a ≡ true
contains-middle [] ys y a h = ground arith
contains-middle (x ∷ xs) ys y a h = ground (arith, contains-middle xs ys y a)

module _ (comparator_for : EventType → Option Comparator) (lawful : IsLawful comparator_for) where
  -- What the first loop consumes is what its rows name.
  replayed_ids-walk :
      (replay_id : String) (find_partner : Event → Option Event) (events : List Event)
      → replayed_ids (walk comparator_for replay_id find_partner events).0
        ≡ (walk comparator_for replay_id find_partner events).1
  unfolding walk
  replayed_ids-walk replay_id find_partner [] = refl
  replayed_ids-walk replay_id find_partner (src ∷ rest) =
      let ih = replayed_ids-walk replay_id find_partner rest in
      elim (Option-cases (comparator_for src.event_type)) [
        | inl p ↦ rw (walk_skip comparator_for replay_id find_partner src rest p) ih
        | inr (c, p) ↦ elim (Option-cases (find_partner src)) [
          | inl q ↦ rw (walk_missing comparator_for replay_id find_partner src rest c p q) ih
          | inr (o, q) ↦
              rw
                (
                  walk_pair comparator_for replay_id find_partner src rest c o p q,
                  (lawful src.event_type c p).replayed src o,
                )
                (ap (◌∷◌ o.event_id) ih)
        ]
      ]

  -- A compared event is consumed, or it is in one of the rows.
  abbrev IsNamed : List String → List ComparisonResult → Event → Type 0
  IsNamed consumed rows e =
      is_compared comparator_for e ≡ true
      → contains (consumed ++ replayed_ids rows) e.event_id ≡ true

  IsNamed-new :
      (replay_id : String) (consumed : List String) (rows : List ComparisonResult) (n e : Event)
      → IsNamed consumed rows e
      → IsNamed consumed (new_row replay_id n ∷ rows) e
  unfolding new_row
  IsNamed-new replay_id consumed rows n e h c =
      contains-middle consumed (replayed_ids rows) n.event_id e.event_id (h c)

  leftovers-All :
      (replay_id : String) (consumed : List String) (events : List Event)
      → All (IsNamed consumed (leftovers comparator_for replay_id consumed events)) events
  unfolding leftovers
  leftovers-All replay_id consumed [] = tt
  leftovers-All replay_id consumed (e ∷ rest) =
      let ih = leftovers-All replay_id consumed rest in
      let after = leftovers comparator_for replay_id consumed rest in
      let goal = λ (rows : List ComparisonResult). All (IsNamed consumed rows) (e ∷ rest) in
      elim (Bool-cases (contains consumed e.event_id)) [
        | inl p ↦
            subst goal (sym (leftovers_old comparator_for replay_id consumed e rest p))
              (λ _. contains-append_left consumed (replayed_ids after) e.event_id p, ih)
        | inr p ↦ elim (Option-cases (comparator_for e.event_type)) [
          | inl q ↦
              subst goal (sym (leftovers_skip comparator_for replay_id consumed e rest q))
                (λ h. absurd (skipped q h), ih)
          | inr (c, q) ↦
              subst goal (sym (leftovers_new comparator_for replay_id consumed e rest c p q)) (
                λ _. new_named e after,
                All-imp (IsNamed consumed after) (IsNamed consumed (new_row replay_id e ∷ after))
                    rest (IsNamed-new replay_id consumed after e) ih,
              )
        ]
      ]
    where
      skipped : comparator_for e.event_type ≡ none → is_compared comparator_for e ≡ true → ⊥
      skipped q h = ground arith

      new_named :
          (n : Event) (rows : List ComparisonResult)
          → contains (consumed ++ replayed_ids (new_row replay_id n ∷ rows)) n.event_id ≡ true
      new_named n rows =
          contains-append_right consumed (n.event_id ∷ replayed_ids rows) n.event_id
            (rw (beq_refl n.event_id))

  -- Each replayed event that has a comparator is named by a row of the comparison: by that of the
  -- original event that it is linked to, or by a row of its own.
  pub compare_run-All_replayed :
      (original replayed : List Event) (links : Dict String String)
      → All
          (λ e.
            is_compared comparator_for e ≡ true
            → contains
                (replayed_ids (compare_run comparator_for original replayed links))
                e.event_id
              ≡ true)
          replayed
  unfolding compare_run
  compare_run-All_replayed original replayed links =
      let replay_id = first_recording_id replayed in
      let find_partner = partner (by_id [] replayed) links in
      let (results, consumed) = walk comparator_for replay_id find_partner original in
      let new = leftovers comparator_for replay_id consumed replayed in
      subst
        (λ (ids : List String).
          All (λ e. is_compared comparator_for e ≡ true → contains ids e.event_id ≡ true) replayed)
        (sym (
          replayed_ids-append results new
          ∙ ap (λ ids. ids ++ replayed_ids new)
              (replayed_ids-walk replay_id find_partner original)))
        (leftovers-All replay_id consumed replayed)
