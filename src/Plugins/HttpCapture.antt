-- ===== src/Plugins/HttpCapture.antt =====
-- The recording reverse proxy: infrareplay/plugins/http_capture/proxy.py.
-- `hex` and `time_ns` answer the n-th call of `uuid4().hex` and of the clock, which does not go
-- back. Starlette gives header names in lower case. What the upstream answers is an argument.
pub mod Lifecycle
pub mod Following
pub mod Copied
pub mod Storing
pub mod Holding
pub mod Captured
pub mod Bounded
use infra_replay.Common.{
  ℕ, zero, suc, ◌+◌, ◌-◌, String, Bool, true, false, Option, none, some, List, [], ◌∷◌, ◌++◌, map,
  length, contains, ltb, ◌==◌, nat_eq, string_eq, list_eq, if◌then◌else◌,
}
use infra_replay.Common.Text.{rstrip, codes, lower, starts_with, joined, first_chars}
use infra_replay.Schema.Value.{ℤ, Value, null, bool, int, str, obj, Fields, end, field, set_field}
use infra_replay.Schema.Event.{Event, EventType, http_request, http_response}
use infra_replay.Replay.HttpTarget.{recording_header, correlation_header, drop_headers}

-- The fixed part of a ReverseProxy.
pub record Proxy : Type 0 where
  pub recording_id : String
  pub upstream : String
  pub service : String
  pub max_body : ℕ

-- A body: its size in bytes, what `json.loads` makes of it, or none where that raises a ValueError,
-- and its text.
pub record Body : Type 0 where
  pub size : ℕ
  pub json : Option Value
  pub text : String

-- Headers can repeat a name.
abbrev pub Headers : Type 0
Headers = List (String × String)

pub record Request : Type 0 where
  pub method : String
  pub path : String
  pub http_version : String
  pub client_ip : String
  pub headers : Headers
  pub query : Fields
  pub body : Body

pub record Answered : Type 0 where
  pub status_code : ℕ
  pub headers : Headers
  pub content : Body

-- A response of the upstream, or the type and the text of an httpx.RequestError.
pub data Upstream : Type 0 where
  responded : Answered → Upstream
  unreachable : String → String → Upstream

-- `headers.get(name)`
unfoldable pub header_get : Headers → String → Option String
header_get [] name = none
header_get ((k, v) ∷ headers) name = if k == name then some v else header_get headers name

abbrev or_text : Option String → String → String
or_text none default = default
or_text (some s) default = s

-- `{k: v for k, v in headers.items() if k.lower() not in _DROP_HEADERS}`, into a dict.
unfoldable pub without_hops : Headers → Fields → Fields
unfolding lower set_field
without_hops [] kept = kept
without_hops ((k, v) ∷ headers) kept =
    if contains (map codes drop_headers) (lower (codes k))
    then without_hops headers kept
    else without_hops headers (set_field kept k (str v))

-- `dict(headers)`
unfoldable pub dict_of : Headers → Fields → Fields
unfolding set_field
dict_of [] kept = kept
dict_of ((k, v) ∷ headers) kept = dict_of headers (set_field kept k (str v))

-- `_decode`
unfoldable pub decode_body : ℕ → Body → String → Value
unfolding starts_with
decode_body max_body body content_type =
    if body.size == 0
    then null
    else if ltb max_body body.size
    then obj (
        field "truncated" (bool true) (
          field "captured_bytes" (int (ℤ.pos max_body))
            (field "total_bytes" (int (ℤ.pos body.size)) end)))
    else if starts_with (codes content_type) (codes "application/json")
    then elim body.json [ none ↦ str body.text | some v ↦ v ]
    else str body.text

-- `_response_payload`
unfoldable pub response_payload : ℕ → Upstream → Fields
unfolding decode_body dict_of header_get
response_payload max_body (Upstream.unreachable kind text) =
    field "error" (str (joined kind (joined ": " text))) end
response_payload max_body (Upstream.responded r) = field "status" (int (ℤ.pos r.status_code)) (
    field "headers" (obj (dict_of r.headers end)) (
      field "body"
        (decode_body max_body r.content (or_text (header_get r.headers "content-type") "")) end))

-- What the client is sent.
pub data Content : Type 0 where
  bytes : Body → Content
  plain : String → Content

pub record Reply : Type 0 where
  pub content : Content
  pub status : ℕ
  pub headers : Fields

abbrev pub bad_gateway : ℕ
bad_gateway = 502

-- `_client_response`
unfoldable pub client_response : Upstream → Reply
unfolding without_hops
client_response (Upstream.unreachable kind text) = record {
  content = Content.plain (joined "upstream unreachable: " text);
  status = bad_gateway;
  headers = end;
}
client_response (Upstream.responded r) = record {
  content = Content.bytes r.content;
  status = r.status_code;
  headers = without_hops r.headers end;
}

-- What `_forward` hands to the client.
pub record Forwarded : Type 0 where
  pub method : String
  pub url : String
  pub params : Fields
  pub content : Option Body
  pub headers : Fields

unfoldable pub forward : Proxy → Request → Fields → String → Forwarded
unfolding set_field
forward proxy request headers correlation_id = record {
  method = request.method;
  url = joined proxy.upstream request.path;
  params = request.query;
  content = if request.body.size == 0 then none else some request.body;
  headers =
      set_field (set_field headers correlation_header (str correlation_id)) recording_header
        (str proxy.recording_id);
}

-- The part of a proxy that changes: `_sequence`, the events that have been emitted, which are
-- objects that can change later, and the number of calls of `uuid4` and the clock.
pub record Emitted : Type 0 where
  pub sequence : ℕ
  pub events : List Event
  pub calls : ℕ

-- A request whose answer is out: the object of its event is the one at `place`.
pub record Open : Type 0 where
  pub place : ℕ
  pub event_id : String
  pub correlation_id : String
  pub started : ℕ

-- `captured.duration_ns = elapsed`, of the object at a place.
unfoldable pub set_duration : ℕ → ℕ → List Event → List Event
set_duration place elapsed [] = []
set_duration zero elapsed (e ∷ events) = record e { duration_ns = elapsed } ∷ events
set_duration (suc place) elapsed (e ∷ events) = e ∷ set_duration place elapsed events

abbrev request_payload_of : ℕ → Request → Fields → Fields
request_payload_of max_body request headers = field "method" (str request.method) (
    field "path" (str request.path) (
      field "http_version" (str request.http_version) (
        field "client_ip" (str request.client_ip) (
          field "headers" (obj headers) (
            field "query" (obj request.query) (
              field "body"
                (decode_body max_body request.body
                  (or_text (header_get request.headers "content-type") ""))
                end))))))

module _ (hex : ℕ → String) (time_ns : ℕ → ℕ) (proxy : Proxy) where
  -- `_event`
  unfoldable pub captured_event :
      EventType → Fields → String → ℕ → Option String → Emitted → Event × Emitted
  captured_event event_type payload correlation_id duration_ns parent p = (
    record {
      schema_version = 1;
      recording_id = proxy.recording_id;
      event_id = joined "evt_" (first_chars 12 (hex p.calls));
      parent_event_id = parent;
      sequence = p.sequence;
      timestamp_ns = time_ns (suc p.calls);
      duration_ns = duration_ns;
      event_type = event_type;
      service = proxy.service;
      correlation_id = correlation_id;
      trace_id = none;
      span_id = none;
      payload = payload;
    },
    record p { sequence = suc p.sequence; calls = suc (suc p.calls) },
  )

  -- `_emit`, which puts on a queue without bound.
  abbrev pub emit : Event → Emitted → Emitted
  emit e p = record p { events = p.events ++ e ∷ [] }

  -- `_handle` up to the call of the upstream.
  unfoldable pub begin_handle : Request → Emitted → (Open × Forwarded) × Emitted
  unfolding header_get without_hops decode_body captured_event forward
  begin_handle request p =
      let fresh = joined "corr_" (first_chars 12 (hex p.calls)) in
      let correlation_id = or_text (header_get request.headers correlation_header) fresh in
      let headers = without_hops request.headers end in
      let (captured, after) =
        captured_event http_request (request_payload_of proxy.max_body request headers)
          correlation_id 0 none (record p { calls = suc p.calls }) in
      let open_request : Open = record {
        place = length p.events;
        event_id = captured.event_id;
        correlation_id = correlation_id;
        started = time_ns after.calls;
      } in
      (
        (open_request, forward proxy request headers correlation_id),
        emit captured (record after { calls = suc after.calls }),
      )

  -- `_handle` from the upstream's answer on.
  unfoldable pub end_handle : Open → Upstream → Emitted → Reply × Emitted
  unfolding captured_event response_payload client_response set_duration
  end_handle opened upstream p =
      let elapsed = time_ns p.calls - opened.started in
      let now : Emitted = record p {
        calls = suc p.calls;
        events = set_duration opened.place elapsed p.events;
      } in
      let (reply, after) =
        captured_event http_response (response_payload proxy.max_body upstream)
          opened.correlation_id elapsed (some opened.event_id) now in
      (client_response upstream, emit reply after)

-- `ReverseProxy.__init__`, where `netloc` is `urlparse(upstream).netloc`.
unfoldable pub new_proxy : String → String → String → ℕ → Proxy
unfolding rstrip
new_proxy recording_id upstream netloc max_body = record {
  recording_id = recording_id;
  upstream = rstrip b'/' upstream;
  service = if netloc == "" then upstream else netloc;
  max_body = max_body;
}
