-- ===== src/Comparison/Engine/Accounted.antt =====
-- What a comparison accounts for, on both sides.
use infra_replay.Common.{
  String, ◌≡◌, Bool, true, List, [], ◌∷◌, map, select, contains, string_eq, Option, Bool-cases, inl,
  inr, All,
}
use infra_replay.Common.Dict.{Dict}
use infra_replay.Schema.Event.{Event, EventType}
use infra_replay.Comparison.Engine.Contract.{IsLawful, is_compared}
use infra_replay.Comparison.Engine.Rows.{original_ids, IsRow, compare_run-rows}
use infra_replay.Comparison.Engine.Replayed.{replayed_ids, compare_run-All_replayed}
use infra_replay.Comparison.Engine.{Comparator, compare_run}

All-select {ℓ} :
    {A : Type ℓ} (P : A → Type 0) (test : A → Bool) (xs : List A)
    → All (λ x. test x ≡ true → P x) xs
    → All P (select test xs)
All-select P test [] h = tt
All-select P test (x ∷ xs) h = elim (Bool-cases (test x)) [
  | inl passes ↦ rw passes (h.0 passes, All-select P test xs h.1)
  | inr fails ↦ rw fails (All-select P test xs h.1)
]

-- With comparators that name both events and never answer MISSING or NEW, a comparison has one row for
-- each original event that has a comparator, in the recording's order, and no other row names an
-- original event; each replayed event that has a comparator is named by a row. A row is MISSING
-- exactly when it names no replayed event and NEW exactly when it names no original one.
pub compare_run-accounts :
    (comparator_for : EventType → Option Comparator) (original replayed : List Event)
    (links : Dict String String)
    → IsLawful comparator_for
    → (original_ids (compare_run comparator_for original replayed links)
        ≡ map (λ e. e.event_id) (select (is_compared comparator_for) original))
      × All IsRow (compare_run comparator_for original replayed links)
      × All
          (λ e.
            contains (replayed_ids (compare_run comparator_for original replayed links)) e.event_id
            ≡ true)
          (select (is_compared comparator_for) replayed)
compare_run-accounts comparator_for original replayed links lawful =
    let rows = compare_run-rows comparator_for lawful original replayed links in
    (
      rows.0,
      rows.1,
      All-select _ (is_compared comparator_for) replayed
          (compare_run-All_replayed comparator_for lawful original replayed links),
    )
