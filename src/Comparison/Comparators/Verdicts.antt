-- ===== src/Comparison/Comparators/Verdicts.antt =====
-- The verdicts of the comparators, on every branch.
use infra_replay.Common.{
  ℕ, String, ◌≡◌, refl, ap, ◌∙◌, Bool, true, false, ◌&&◌, List, arith, if◌then◌else◌, Bool-cases,
  inl, inr,
}
use infra_replay.Schema.Value.{Value, Fields, end, field, get_value, has_key, set_field, value_beq}
use infra_replay.Schema.Event.{Event, http_response, pg_result}
use infra_replay.Schema.Result.{ComparisonResult, ComparisonCategory}
use infra_replay.Comparison.Normalize.{normalize}
use infra_replay.Comparison.Comparators.{
  result_for, failed, note, conclude, http_compare, postgres_compare,
}

-- The category that a comparison comes to.
abbrev pub verdict : Bool → Bool → ComparisonCategory
verdict true same = ComparisonCategory.error
verdict false true = ComparisonCategory.match
verdict false false = ComparisonCategory.different

conclude-set_field :
    (r : ComparisonResult) (diff : Fields) (k : String) (v : Value)
    → (conclude r (set_field diff k v)).category ≡ ComparisonCategory.different
unfolding conclude set_field
conclude-set_field r end k v = refl
conclude-set_field r (field j w fs) k v = ground arith

conclude-note :
    (r : ComparisonResult) (k : String) (old new : Value) (diff : Fields)
    → (conclude r (note k old new diff)).category
      ≡ (if value_beq old new then (conclude r diff).category else ComparisonCategory.different)
unfolding note
conclude-note r k old new diff = elim (Bool-cases (value_beq old new)) [
  | inl same ↦ rw same
  | inr changed ↦ rw changed (conclude-set_field r diff k _)
]

if-different :
    (a b : Bool)
    → (if b
        then (if a then ComparisonCategory.match else ComparisonCategory.different)
        else ComparisonCategory.different)
      ≡ verdict false (a && b)
if-different true true = refl
if-different true false = refl
if-different false true = refl
if-different false false = refl

-- Two notes, and what they come to.
conclude_two :
    (r : ComparisonResult) (j k : String) (a b c d : Value)
    → r.category ≡ ComparisonCategory.match
    → (conclude r (note k c d (note j a b end))).category
      ≡ verdict false (value_beq a b && value_beq c d)
unfolding conclude
conclude_two r j k a b c d h =
    conclude-note r k c d (note j a b end)
    ∙ (ap (λ x. if value_beq c d then x else ComparisonCategory.different)
          (conclude-note r j a b end
            ∙ ap (λ x. if value_beq a b then x else ComparisonCategory.different) h)
        ∙ if-different (value_beq a b) (value_beq c d))

module _ (ignore_fields : List String) (other_digit : ℕ → Bool) (original replayed : Event) where
  -- What a payload holds under a key, once normalised.
  abbrev pub stable : Event → String → Value
  stable event key = normalize ignore_fields other_digit (get_value event.payload key)

  -- Whether the two payloads agree under a key, once normalised.
  abbrev pub agrees : String → Bool
  agrees key = value_beq (stable original key) (stable replayed key)

  -- A replayed response that holds an error is an ERROR, whatever else it holds. Any other is a
  -- MATCH exactly when the statuses are equal and the bodies are equal once normalised, and is
  -- DIFFERENT otherwise.
  pub http_compare-category :
      (http_compare ignore_fields other_digit original replayed).category
      ≡ verdict (has_key replayed.payload "error") (
          value_beq (get_value original.payload "status") (get_value replayed.payload "status")
          && agrees "body")
  unfolding http_compare
  http_compare-category = elim (Bool-cases (has_key replayed.payload "error")) [
    | inl broken ↦ rw (broken, failed)
    | inr answered ↦ rw answered (
        conclude_two (result_for http_response original replayed) "status" "body"
          (get_value original.payload "status") (get_value replayed.payload "status")
          (stable original "body") (stable replayed "body") refl)
  ]

  -- A replayed result that holds an error is an ERROR, whatever else it holds. Any other is a
  -- MATCH exactly when the row counts and the rows are equal once normalised, and is DIFFERENT
  -- otherwise.
  pub postgres_compare-category :
      (postgres_compare ignore_fields other_digit original replayed).category
      ≡ verdict (has_key replayed.payload "error") (agrees "rows_affected" && agrees "rows")
  unfolding postgres_compare
  postgres_compare-category = elim (Bool-cases (has_key replayed.payload "error")) [
    | inl broken ↦ rw (broken, failed)
    | inr answered ↦ rw answered (
        conclude_two (result_for pg_result original replayed) "rows_affected" "rows"
          (stable original "rows_affected") (stable replayed "rows_affected")
          (stable original "rows") (stable replayed "rows") refl)
  ]
