-- ===== src/Replay/HttpTarget.antt =====
-- A live target of a replay: infrareplay/replay/http_target.py, and the batches of
-- infrareplay/replay/engine.py, whose requests are in flight together.
-- `hex` and `time_ns` answer the n-th call of `uuid4().hex` and of the clock, which does not go
-- back. What the HTTP client answers is an argument.
use infra_replay.Common.{
  ℕ, suc, ◌-◌, String, Bool, true, false, not, Option, none, some, List, [], ◌∷◌, map, contains,
  ◌==◌, nat_eq, string_eq, list_eq, if◌then◌else◌,
}
use infra_replay.Common.Text.{codes, lower, starts_with, joined, first_chars}
use infra_replay.Schema.Value.{
  ℤ, Value, null, bool, int, str, arr, obj, nil, cons, Fields, end, field, find, get_value,
  set_field,
}
use infra_replay.Schema.Event.{Event, EventType, http_request, http_response}

abbrev pub recording_header : String
recording_header = "x-infrareplay-recording-id"

abbrev pub correlation_header : String
correlation_header = "x-infrareplay-correlation-id"

abbrev pub drop_headers : List String
drop_headers = "host" ∷ "content-length" ∷ "connection" ∷ "transfer-encoding" ∷ "keep-alive" ∷ []

-- `not value`
abbrev is_falsy : Value → Bool
is_falsy null = true
is_falsy (bool b) = not b
is_falsy (int (ℤ.pos n)) = n == 0
is_falsy (int (ℤ.negsuc n)) = false
is_falsy (str s) = s == ""
is_falsy (arr nil) = true
is_falsy (arr (cons v xs)) = false
is_falsy (obj end) = true
is_falsy (obj (field k v fs)) = false

-- `value or None`
abbrev or_none : Value → Value
or_none v = if is_falsy v then null else v

-- `payload.get(key, default)`
abbrev get_or : Fields → String → Value → Value
get_or payload key default = elim (find payload key) [ none ↦ default | some v ↦ v ]

-- The fixed part of an HttpTarget, and the part that changes: `_sequence`, with the number of calls
-- made to `uuid4` and the clock.
pub record HttpTarget : Type 0 where
  pub base_url : String
  pub recording_id : String
  pub service : String

pub record Progress : Type 0 where
  pub sequence : ℕ
  pub calls : ℕ

-- What is handed to the HTTP client. The path follows the base URL.
pub record Call : Type 0 where
  pub method : Value
  pub path : Value
  pub params : Value
  pub json : Value
  pub headers : Fields

-- What the client answers: `json` is none where the body is no JSON.
pub record Response : Type 0 where
  pub status_code : ℕ
  pub headers : Fields
  pub content_type : String
  pub json : Option Value
  pub text : String

pub data Answer : Type 0 where
  responded : Response → Answer
  request_error : String → Answer

-- `_decode`
unfoldable pub decode : Response → Value
unfolding starts_with
decode response =
    if starts_with (codes response.content_type) (codes "application/json")
    then elim response.json [ none ↦ str response.text | some v ↦ v ]
    else str response.text

-- `_response_payload`, or the payload of an error.
unfoldable pub answer_payload : Answer → Fields
unfolding decode
answer_payload (Answer.responded response) =
    field "status" (int (ℤ.pos response.status_code))
      (field "headers" (obj response.headers) (field "body" (decode response) end))
answer_payload (Answer.request_error text) = field "error" (str text) end

unfoldable pub kept_headers : Fields → Fields
unfolding lower
kept_headers end = end
kept_headers (field k v fs) =
    if contains (map codes drop_headers) (lower (codes k))
    then kept_headers fs
    else field k v (kept_headers fs)

-- `(payload.get("headers") or {}).items()`; none where it raises, as the headers are no dict.
abbrev header_items : Value → Option Fields
header_items (obj fs) = some fs
header_items v = if is_falsy v then some end else none

-- `_headers`
unfoldable pub headers_for : HttpTarget → Fields → String → Option Fields
unfolding kept_headers set_field get_value
headers_for target payload correlation_id = elim (header_items (get_value payload "headers")) [
  | none ↦ none
  | some headers ↦ some (
      set_field (set_field (kept_headers headers) recording_header (str target.recording_id))
        correlation_header (str correlation_id))
]

-- A request that has been sent, and the time at which it was.
pub record Waiting : Type 0 where
  pub request : Event
  pub call : Call
  pub started : ℕ

module _ (hex : ℕ → String) (time_ns : ℕ → ℕ) (target : HttpTarget) where
  -- `_event`
  unfoldable pub new_event :
      EventType → Fields → String → ℕ → Option String → Progress → Event × Progress
  new_event event_type payload correlation_id duration_ns parent p = (
    record {
      schema_version = 1;
      recording_id = target.recording_id;
      event_id = joined "evt_" (first_chars 12 (hex p.calls));
      parent_event_id = parent;
      sequence = p.sequence;
      timestamp_ns = time_ns (suc p.calls);
      duration_ns = duration_ns;
      event_type = event_type;
      service = target.service;
      correlation_id = correlation_id;
      trace_id = none;
      span_id = none;
      payload = payload;
    },
    record { sequence = suc p.sequence; calls = suc (suc p.calls) },
  )

  -- `send` up to the call of the client; none where `_headers` raises.
  unfoldable pub send_request : Fields → Progress → Option (Waiting × Progress)
  unfolding headers_for new_event set_field
  send_request payload p =
      let correlation_id = joined "corr_" (first_chars 12 (hex p.calls)) in
      elim (headers_for target payload correlation_id) [
        | none ↦ none
        | some headers ↦
            let now : Progress = record p { calls = suc p.calls } in
            let (request, after) =
              new_event http_request (set_field payload "headers" (obj headers)) correlation_id 0
                none now in
            let call : Call = record {
              method = get_or payload "method" (str "GET");
              path = get_or payload "path" (str "/");
              params = or_none (get_value payload "query");
              json = or_none (get_value payload "body");
              headers = headers;
            } in
            some (
              record { request = request; call = call; started = time_ns after.calls },
              record after { calls = suc after.calls },
            )
      ]

  -- `send` from the client's answer on: the pair of events.
  unfoldable pub receive : Waiting → Answer → Progress → (Event × Event) × Progress
  unfolding new_event answer_payload
  receive w answer p =
      let elapsed = time_ns p.calls - w.started in
      let now : Progress = record p { calls = suc p.calls } in
      let (reply, after) =
        new_event http_response (answer_payload answer) w.request.correlation_id elapsed
          (some w.request.event_id) now in
      ((record w.request { duration_ns = elapsed }, reply), after)
