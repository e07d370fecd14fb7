-- ===== src/Comparison/Engine/Rows.antt =====
-- The rows of a comparison, for any comparators that keep to their contract.
use infra_replay.Common.{
  String, ◌≡◌, ◌↔◌, refl, ap, ap₂, ◌∙◌, Option, none, some, List, [], ◌∷◌, ◌++◌, map, arith, select,
  contains, string_eq, Bool-cases, Option-cases, inl, inr, All, All-append, append-nil,
}
use infra_replay.Common.Dict.{Dict}
use infra_replay.Schema.Event.{Event, EventType}
use infra_replay.Schema.Result.{ComparisonResult, ComparisonCategory}
use infra_replay.Comparison.Engine.Contract.{
  IsVerdict, IsLawful, is_compared, walk_skip, walk_missing, walk_pair,
}
use infra_replay.Comparison.Engine.{
  Comparator, by_id, first_recording_id, partner, missing_row, new_row, walk, leftovers,
  compare_run,
}

abbrev pub original_ids : List ComparisonResult → List String
original_ids [] = []
original_ids (r ∷ rows) = elim r.original_event_id [
  | none ↦ original_ids rows
  | some i ↦ i ∷ original_ids rows
]

module _ (comparator_for : EventType → Option Comparator) where
  module _ (lawful : IsLawful comparator_for) where
    original_ids-append :
        (xs ys : List ComparisonResult)
        → original_ids (xs ++ ys) ≡ original_ids xs ++ original_ids ys
    original_ids-append [] ys = refl
    original_ids-append (r ∷ xs) ys = elim (Option-cases r.original_event_id) [
      | inl p ↦ rw p (original_ids-append xs ys)
      | inr (i, p) ↦ rw p (ap (◌∷◌ i) (original_ids-append xs ys))
    ]

    original_ids-walk :
        (replay_id : String) (find_partner : Event → Option Event) (events : List Event)
        → original_ids (walk comparator_for replay_id find_partner events).0
          ≡ map (λ e. e.event_id) (select (is_compared comparator_for) events)
    unfolding walk
    original_ids-walk replay_id find_partner [] = refl
    original_ids-walk replay_id find_partner (src ∷ rest) =
        let ih = original_ids-walk replay_id find_partner rest in
        elim (Option-cases (comparator_for src.event_type)) [
          | inl p ↦ rw (walk_skip comparator_for replay_id find_partner src rest p, p) ih
          | inr (c, p) ↦ elim (Option-cases (find_partner src)) [
            | inl q ↦
                rw (walk_missing comparator_for replay_id find_partner src rest c p q, p)
                  (ap (◌∷◌ src.event_id) ih)
            | inr (o, q) ↦
                rw
                  (
                    walk_pair comparator_for replay_id find_partner src rest c o p q,
                    p,
                    (lawful src.event_type c p).original src o,
                  )
                  (ap (◌∷◌ src.event_id) ih)
          ]
        ]

    original_ids-leftovers :
        (replay_id : String) (consumed : List String) (events : List Event)
        → original_ids (leftovers comparator_for replay_id consumed events) ≡ []
    unfolding leftovers
    original_ids-leftovers replay_id consumed [] = refl
    original_ids-leftovers replay_id consumed (e ∷ rest) =
        let ih = original_ids-leftovers replay_id consumed rest in
        elim (Bool-cases (contains consumed e.event_id)) [
          | inl p ↦ rw p ih
          | inr p ↦ elim (Option-cases (comparator_for e.event_type)) [
            | inl q ↦ rw (p, q) ih
            | inr (c, q) ↦ rw (p, q) ih
          ]
        ]

-- What the ids of a row say of its category.
pub record IsRow (r : ComparisonResult) : Type 0 where
  pub missing_iff : (r.category ≡ ComparisonCategory.missing) ↔ (r.replayed_event_id ≡ none)
  pub new_iff : (r.category ≡ ComparisonCategory.new) ↔ (r.original_event_id ≡ none)

missing_row-IsRow : (replay_id : String) (src : Event) → IsRow (missing_row replay_id src)
unfolding missing_row
missing_row-IsRow replay_id src = ground arith

new_row-IsRow : (replay_id : String) (e : Event) → IsRow (new_row replay_id e)
unfolding new_row
new_row-IsRow replay_id e = ground arith

IsVerdict-IsRow : (c : Comparator) → IsVerdict c → (a b : Event) → IsRow (c a b)
IsVerdict-IsRow c v a b = record {
  missing_iff = (λ p. absurd (v.not_missing a b p), λ p. absurd (cc (v.replayed a b)));
  new_iff = (λ p. absurd (v.not_new a b p), λ p. absurd (cc (v.original a b)));
}

module _ (comparator_for : EventType → Option Comparator) (lawful : IsLawful comparator_for) where
  walk-IsRow :
      (replay_id : String) (find_partner : Event → Option Event) (events : List Event)
      → All IsRow (walk comparator_for replay_id find_partner events).0
  unfolding walk
  walk-IsRow replay_id find_partner [] = tt
  walk-IsRow replay_id find_partner (src ∷ rest) =
      let ih = walk-IsRow replay_id find_partner rest in
      elim (Option-cases (comparator_for src.event_type)) [
        | inl p ↦ rw (walk_skip comparator_for replay_id find_partner src rest p) ih
        | inr (c, p) ↦ elim (Option-cases (find_partner src)) [
          | inl q ↦
              rw (walk_missing comparator_for replay_id find_partner src rest c p q)
                (missing_row-IsRow replay_id src, ih)
          | inr (o, q) ↦
              rw (walk_pair comparator_for replay_id find_partner src rest c o p q)
                (IsVerdict-IsRow c (lawful src.event_type c p) src o, ih)
        ]
      ]

  leftovers-IsRow :
      (replay_id : String) (consumed : List String) (events : List Event)
      → All IsRow (leftovers comparator_for replay_id consumed events)
  unfolding leftovers
  leftovers-IsRow replay_id consumed [] = tt
  leftovers-IsRow replay_id consumed (e ∷ rest) =
      let ih = leftovers-IsRow replay_id consumed rest in
      elim (Bool-cases (contains consumed e.event_id)) [
        | inl p ↦ rw p ih
        | inr p ↦ elim (Option-cases (comparator_for e.event_type)) [
          | inl q ↦ rw (p, q) ih
          | inr (c, q) ↦ rw (p, q) (new_row-IsRow replay_id e, ih)
        ]
      ]

  -- A comparison has one row for each original event that has a comparator, in the order of the
  -- recording, and no other row names an original event. A row is MISSING exactly when it names no
  -- replayed event, and NEW exactly when it names no original one.
  pub compare_run-rows :
      (original replayed : List Event) (links : Dict String String)
      → (original_ids (compare_run comparator_for original replayed links)
          ≡ map (λ e. e.event_id) (select (is_compared comparator_for) original))
        × All IsRow (compare_run comparator_for original replayed links)
  unfolding compare_run
  compare_run-rows original replayed links =
      let replay_id = first_recording_id replayed in
      let find_partner = partner (by_id [] replayed) links in
      let (results, consumed) = walk comparator_for replay_id find_partner original in
      let new = leftovers comparator_for replay_id consumed replayed in
      (
        original_ids-append comparator_for lawful results new
            ∙ (ap₂ ◌++◌ (original_ids-walk comparator_for lawful replay_id find_partner original)
                  (original_ids-leftovers comparator_for lawful replay_id consumed replayed)
                ∙ append-nil
                    (map (λ e. e.event_id) (select (is_compared comparator_for) original))),
        All-append IsRow results new (walk-IsRow replay_id find_partner original)
            (leftovers-IsRow replay_id consumed replayed),
      )
