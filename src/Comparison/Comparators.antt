-- ===== src/Comparison/Comparators.antt =====
-- infrareplay/plugins/comparators: compare a replayed response, or query result, to the original.
pub mod Verdicts
pub mod Lawful
use infra_replay.Common.{
  ℕ, String, Bool, true, false, Option, none, some, List, [], ◌∷◌, if◌then◌else◌,
}
use infra_replay.Schema.Value.{
  Value, null, obj, Fields, end, field, find, get_value, has_key, set_field, value_beq,
}
use infra_replay.Schema.Event.{Event, EventType, http_response, pg_result}
use infra_replay.Schema.Result.{ComparisonResult, ComparisonCategory}
use infra_replay.Comparison.Normalize.{normalize}

-- The row that both comparators begin with.
unfoldable pub result_for : EventType → Event → Event → ComparisonResult
result_for event_type original replayed = record {
  replay_recording_id = replayed.recording_id;
  original_event_id = some original.event_id;
  replayed_event_id = some replayed.event_id;
  event_type = event_type;
  category = ComparisonCategory.match;
  diff = end;
}

-- `result.category = ERROR; result.diff = {"error": …}`
unfoldable pub failed : Event → ComparisonResult → ComparisonResult
unfolding get_value
failed replayed result = record result {
  category = ComparisonCategory.error;
  diff = field "error" (get_value replayed.payload "error") end;
}

-- `if old != new: diff[key] = {"original": old, "replayed": new}`
unfoldable pub note : String → Value → Value → Fields → Fields
unfolding value_beq set_field
note key old new diff =
    if value_beq old new
    then diff
    else set_field diff key (obj (field "original" old (field "replayed" new end)))

-- `if diff: result.category = DIFFERENT; result.diff = diff`
unfoldable pub conclude : ComparisonResult → Fields → ComparisonResult
conclude result end = result
conclude result (field k v fs) = record result {
  category = ComparisonCategory.different;
  diff = field k v fs;
}

module _ (ignore_fields : List String) (other_digit : ℕ → Bool) where
  -- `HttpComparator.compare`
  unfoldable pub http_compare : Event → Event → ComparisonResult
  unfolding result_for failed note conclude normalize has_key get_value
  http_compare original replayed =
      let result = result_for http_response original replayed in
      if has_key replayed.payload "error"
      then failed replayed result
      else conclude result (
          note "body" (normalize ignore_fields other_digit (get_value original.payload "body"))
            (normalize ignore_fields other_digit (get_value replayed.payload "body"))
            (note "status" (get_value original.payload "status")
              (get_value replayed.payload "status") end))

  -- One round of the loop of `PostgresComparator.compare`.
  unfoldable pub note_normalized : Event → Event → String → Fields → Fields
  unfolding note normalize get_value
  note_normalized original replayed key diff =
      note key (normalize ignore_fields other_digit (get_value original.payload key))
        (normalize ignore_fields other_digit (get_value replayed.payload key)) diff

  -- `PostgresComparator.compare`
  unfoldable pub postgres_compare : Event → Event → ComparisonResult
  unfolding result_for failed note_normalized conclude has_key
  postgres_compare original replayed =
      let result = result_for pg_result original replayed in
      if has_key replayed.payload "error"
      then failed replayed result
      else conclude result (
          note_normalized original replayed "rows"
            (note_normalized original replayed "rows_affected" end))

  -- The built-in comparators, as the registry hands them out.
  unfoldable pub builtin_comparator : EventType → Option (Event → Event → ComparisonResult)
  unfolding http_compare postgres_compare
  builtin_comparator http_response = some http_compare
  builtin_comparator pg_result = some postgres_compare
  builtin_comparator _ = none
