-- ===== src/Examples.antt =====
-- Runs of the model at concrete inputs: a recorded checkout request and its replay.

pub mod Comparing
pub mod Storing
pub mod Sending
pub mod Shopping
pub mod Proxying
pub mod Moving
pub mod Loading
pub mod Ingesting
pub mod Serving
pub mod Overlapping
pub mod Replaying
pub mod Requesting
pub mod Filing
pub mod Commanding
pub mod Waiting
use mathlib.Core.List.{Forall₂}
use infra_replay.Common.{
  ℕ, String, ◌≡◌, refl, Bool, true, false, Option, none, some, List, [], ◌∷◌, map, All, ◌↔◌, Perm,
  ◌==◌, string_eq, contains, select, if◌then◌else◌, Bool-cases, inl, inr, sym, ap, ◌∙◌,
}
use infra_replay.Common.Dict.{get, values}
use infra_replay.Common.Sort.{sorted}
use infra_replay.Schema.Value.{ℤ, Value, Fields, has_key, value_beq, get_value}
use infra_replay.Schema.Event.{Event, EventType}
use infra_replay.Schema.Result.{ComparisonResult, ComparisonCategory}
use infra_replay.Recording.Correlate.{correlate}
use infra_replay.Recording.Correlate.Sequence.{sequence-correlate}
use infra_replay.Recording.Correlate.Links.{Relinked, correlate-Relinked}
use infra_replay.Plugins.Redaction.{redact}
use infra_replay.Plugins.Redaction.Scrubbed.{FieldsScrubbed}
use infra_replay.Comparison.Normalize.{normalize}
use infra_replay.Comparison.Normalize.Stable.{normalize_idem}
use infra_replay.Comparison.Comparators.{http_compare, postgres_compare, builtin_comparator}
use infra_replay.Comparison.Comparators.Verdicts.{http_compare-category, postgres_compare-category}
use infra_replay.Comparison.Comparators.Lawful.{builtin_comparator-IsLawful, compare_same}
use infra_replay.Comparison.Engine.{compare_run}
use infra_replay.Comparison.Engine.Contract.{IsLawful, is_compared}
use infra_replay.Comparison.Engine.Rows.{original_ids, IsRow, compare_run-rows}
use infra_replay.Comparison.Engine.Replayed.{replayed_ids, compare_run-All_replayed}
use infra_replay.Comparison.Engine.Faithful.{pairs, compare_run-Reproduces}
use infra_replay.Replay.Linking.{link_streams, signatures, sequence_le}
use infra_replay.Replay.Linking.Signatures.{values-signatures}
use infra_replay.Replay.Linking.Reproduced.{Reproduces, link_streams-Reproduces}

abbrev pub event : String → String → String → ℕ → ℕ → EventType → Fields → Event
event recording_id event_id correlation_id sequence timestamp_ns event_type payload = record {
  schema_version = 1;
  recording_id = recording_id;
  event_id = event_id;
  parent_event_id = none;
  sequence = sequence;
  timestamp_ns = timestamp_ns;
  duration_ns = 0;
  event_type = event_type;
  service = "checkout";
  correlation_id = correlation_id;
  trace_id = none;
  span_id = none;
  payload = payload;
}

abbrev pub request_payload : Fields
request_payload =
    Fields.field "method" (Value.str "POST")
      (Fields.field "Authorization" (Value.str "Bearer abc") Fields.end)

abbrev pub response_payload : Fields
response_payload =
    Fields.field "status" (Value.int (ℤ.pos 200))
      (Fields.field "body" (Value.str "cus_0123456789ab") Fields.end)

abbrev pub result_payload : Fields
result_payload = Fields.field "rows_affected" (Value.int (ℤ.pos 1)) Fields.end

-- The agents deliver a request's events in any order.
abbrev pub arrived : List Event
arrived =
    event "r1" "e4" "c1" 3 40 EventType.http_response response_payload
    ∷ event "r1" "e2" "c1" 1 20 EventType.pg_query Fields.end
    ∷ event "r1" "e1" "c1" 0 10 EventType.http_request request_payload
    ∷ event "r1" "e3" "c1" 2 30 EventType.pg_result result_payload
    ∷ []

abbrev pub original : List Event
original =
    event "r1" "e1" "c1" 0 10 EventType.http_request request_payload
    ∷ event "r1" "e3" "c1" 1 30 EventType.pg_result result_payload
    ∷ event "r1" "e4" "c1" 2 40 EventType.http_response response_payload
    ∷ []

abbrev pub replayed : List Event
replayed =
    event "r2" "f1" "c2" 0 510 EventType.http_request request_payload
    ∷ event "r2" "f3" "c2" 1 530 EventType.pg_result result_payload
    ∷ event "r2" "f4" "c2" 2 540 EventType.http_response response_payload
    ∷ []

-- The replay names each event anew, and the recording's one request.
abbrev pub new_id : String → String
new_id s = if s == "e1" then "f1" else if s == "e3" then "f3" else "f4"

abbrev pub new_request : String → String
new_request s = if s == "c1" then "c2" else if s == "c2" then "c1" else s

new_request_twice : (s : String) → new_request (new_request s) ≡ s
new_request_twice s = elim (Bool-cases (s == "c1")) [
  | inl p ↦ rw p (sym ((string_eq.beq_iff s "c1").0 p))
  | inr p ↦ elim (Bool-cases (s == "c2")) [
    | inl q ↦ rw (p, q) (sym ((string_eq.beq_iff s "c2").0 q))
    | inr q ↦ rw (p, q, p, q) refl
  ]
]

pub new_request_injective : (a b : String) → new_request a ≡ new_request b → a ≡ b
new_request_injective a b p = sym (new_request_twice a) ∙ ap new_request p ∙ new_request_twice b

abbrev pub letters : ℕ → Bool
letters c = false

abbrev pub comparators : EventType → Option (Event → Event → ComparisonResult)
comparators = builtin_comparator [] letters

pub comparators-IsLawful : IsLawful comparators
comparators-IsLawful = builtin_comparator-IsLawful [] letters

-- Runs.

correlate_ids : map (λ e. e.event_id) (correlate arrived) ≡ "e1" ∷ "e2" ∷ "e3" ∷ "e4" ∷ []
unfolding correlate
correlate_ids = refl

correlate_parents :
    map (λ e. e.parent_event_id) (correlate arrived) ≡ none ∷ some "e1" ∷ some "e2" ∷ some "e1" ∷ []
unfolding correlate
correlate_parents = refl

redact_request :
    (redact (event "r1" "e1" "c1" 0 10 EventType.http_request request_payload)).payload
    ≡ Fields.field "method"
        (Value.str "POST")
        (Fields.field "Authorization" (Value.str "***REDACTED***") Fields.end)
unfolding redact
redact_request = refl

normalize_id : normalize [] letters (Value.str "cus_0123456789ab") ≡ Value.str "<id>"
unfolding normalize
normalize_id = refl

normalize_uuid :
    normalize [] letters (Value.str "123E4567-e89b-12d3-a456-426614174000") ≡ Value.str "<uuid>"
unfolding normalize
normalize_uuid = refl

normalize_time :
    normalize [] letters (Value.str "2024-05-01 10:20:30.125+0200") ≡ Value.str "<timestamp>"
unfolding normalize
normalize_time = refl

normalize_word : normalize [] letters (Value.str "order_12") ≡ Value.str "order_12"
unfolding normalize
normalize_word = refl

-- The second request of the table has a slot of its own, and a retry its own occurrence.
signature_slots : map (λ x. x.1) (signatures arrived) ≡ "e1" ∷ "e2" ∷ "e3" ∷ "e4" ∷ []
unfolding signatures
signature_slots = refl

links_of_replay : link_streams original replayed ≡ ("e1", "f1") ∷ ("e3", "f3") ∷ ("e4", "f4") ∷ []
unfolding link_streams
links_of_replay = refl

abbrev pub categories : List ComparisonResult → List ComparisonCategory
categories = map (λ r. r.category)

categories_of_replay :
    categories (compare_run comparators original replayed (link_streams original replayed))
    ≡ ComparisonCategory.match ∷ ComparisonCategory.match ∷ []
unfolding compare_run link_streams builtin_comparator
categories_of_replay = refl

categories_unlinked :
    categories (compare_run comparators original replayed [])
    ≡ ComparisonCategory.missing ∷ ComparisonCategory.missing ∷ ComparisonCategory.new
      ∷ ComparisonCategory.new ∷ []
unfolding compare_run builtin_comparator
categories_unlinked = refl
