-- ===== src/Examples/Proxying.antt =====
-- A capture through the proxy of two requests that overlap.
use infra_replay.Common.{ℕ, ◌*◌, ◌≡◌, ◌⊎◌, refl, arith, true, none, some, List, [], ◌∷◌, map}
use infra_replay.Schema.Value.{ℤ, Value, Fields, find}
use infra_replay.Schema.Event.{Event, EventType}
use infra_replay.Replay.HttpTarget.{recording_header, correlation_header}
use infra_replay.Plugins.HttpCapture.{
  Proxy, Body, Request, Upstream, begin_handle, end_handle, new_proxy, without_hops, forward,
  decode_body, client_response,
}
use infra_replay.Plugins.HttpCapture.Following.{event_at}
use infra_replay.Recording.Database.{EventRow}
use infra_replay.Recording.Service.{append_events}
use infra_replay.Recording.Service.Stored.{empty_db}
use infra_replay.Capture.{pump}
use infra_replay.Plugins.HttpCapture.Storing.{Capture, Step, Reach, nothing_yet, pumped}
use infra_replay.Plugins.HttpCapture.Captured.{AreStored, Reach-AreStored}
use infra_replay.Plugins.HttpCapture.Bounded.{Kept, decode_body-large, forward-Kept}
use infra_replay.Examples.Storing.{dashes}

-- A clock that advances by 10.
abbrev pub ticks : ℕ → ℕ
ticks n = 10 * n

abbrev proxy : Proxy
proxy = new_proxy "r1" "http://shop:3000/" "shop:3000" 4

abbrev large : Body
large = record { size = 5; json = none; text = "hello" }

abbrev other : Body
other = record { size = 5; json = none; text = "world" }

abbrev asked : Request
asked = record {
  method = "POST";
  path = "/checkout";
  http_version = "1.1";
  client_ip = "";
  headers = ("host", "shop") ∷ ("authorization", "Bearer 7") ∷ ("x-demo-user", "dana") ∷ [];
  query = Fields.end;
  body = large;
}

abbrev ok : Upstream
ok = Upstream.responded (record {
  status_code = 200;
  headers = ("connection", "close") ∷ ("etag", "7") ∷ [];
  content = large;
})

-- The two requests, the second of which is answered first.
abbrev first : Capture
first = record (nothing_yet empty_db) {
  emitted = (begin_handle dashes ticks proxy asked (nothing_yet empty_db).emitted).1;
  in_flight = (begin_handle dashes ticks proxy asked (nothing_yet empty_db).emitted).0.0 ∷ [];
}

abbrev second : Capture
second = record first {
  emitted = (begin_handle dashes ticks proxy asked first.emitted).1;
  in_flight = (begin_handle dashes ticks proxy asked first.emitted).0.0 ∷ first.in_flight;
}

abbrev captured : Event
captured = record {
  schema_version = 1;
  recording_id = "r1";
  event_id = "evt_-";
  parent_event_id = none;
  sequence = 0;
  timestamp_ns = 20;
  duration_ns = 0;
  event_type = EventType.http_request;
  service = "shop:3000";
  correlation_id = "corr_";
  trace_id = none;
  span_id = none;
  payload = Fields.field "method" (Value.str "POST") (
      Fields.field "path" (Value.str "/checkout") (
        Fields.field "http_version" (Value.str "1.1") (
          Fields.field "client_ip" (Value.str "") (
            Fields.field "headers"
              (Value.obj (
                Fields.field "authorization" (Value.str "Bearer 7")
                  (Fields.field "x-demo-user" (Value.str "dana") Fields.end)))
              (Fields.field "query" (Value.obj Fields.end) (
                Fields.field "body"
                  (Value.obj (
                    Fields.field "truncated" (Value.bool true) (
                      Fields.field "captured_bytes" (Value.int (ℤ.pos 4))
                        (Fields.field "total_bytes" (Value.int (ℤ.pos 5)) Fields.end))))
                  Fields.end))))));
}

first_emitted : first.emitted.events ≡ captured ∷ []
unfolding begin_handle new_proxy event_at
first_emitted = refl

-- The first request is stored before its answer is there.
abbrev early : Capture
early = pumped second (pump "r1" (captured ∷ []) second.db)

abbrev answered : Capture
answered = record early {
  emitted =
      (end_handle dashes ticks proxy
        (begin_handle dashes ticks proxy asked (nothing_yet empty_db).emitted).0.0 ok
        early.emitted).1;
  in_flight = (begin_handle dashes ticks proxy asked first.emitted).0.0 ∷ [];
}

path : Reach dashes ticks proxy (nothing_yet empty_db) answered
unfolding begin_handle new_proxy event_at pump append_events
path =
    Reach.next
      (Reach.next
        (Reach.next (Reach.next Reach.here (Step.begins asked (nothing_yet empty_db)))
          (Step.begins asked first))
        (Step.stores captured second refl refl))
      (Step.ends ok ((begin_handle dashes ticks proxy asked first.emitted).0.0 ∷ [])
        (begin_handle dashes ticks proxy asked (nothing_yet empty_db).emitted).0.0 [] early refl)

-- The object gets the duration; the copy that was stored early does not.
durations :
    (map (λ e. e.duration_ns) answered.emitted.events ≡ 50 ∷ 0 ∷ 50 ∷ [])
    × (map (λ r. r.duration_ns) answered.db.events ≡ 0 ∷ [])
unfolding begin_handle end_handle new_proxy pump append_events
durations = (refl, refl)

-- The value of a sensitive header is stored as the mask; the user's is not.
stored_headers :
    map (λ r. find r.payload "headers") answered.db.events
    ≡ some (
        Value.obj (
          Fields.field "authorization"
            (Value.str "***REDACTED***")
            (Fields.field "x-demo-user" (Value.str "dana") Fields.end)))
      ∷ []
unfolding pump append_events find begin_handle new_proxy
stored_headers = refl

Reach-AreStored_example : (rows : List EventRow) × AreStored empty_db answered rows
Reach-AreStored_example = Reach-AreStored dashes ticks proxy empty_db path

decode_body-large_example :
    decode_body 4 large "application/json" ≡ decode_body 4 other "text/plain"
decode_body-large_example =
    decode_body-large 4 large other "application/json" "text/plain" refl (omega arith)

sent_user :
    find (forward proxy asked (without_hops asked.headers Fields.end) "c1").headers "x-demo-user"
    ≡ some (Value.str "dana")
unfolding forward without_hops find
sent_user = refl

forward-Kept_example :
    (("x-demo-user" ≡ recording_header) × (Value.str "dana" ≡ Value.str proxy.recording_id))
    ⊎ (("x-demo-user" ≡ correlation_header) × (Value.str "dana" ≡ Value.str "c1"))
    ⊎ Kept asked.headers "x-demo-user" (Value.str "dana")
forward-Kept_example = forward-Kept proxy asked "c1" "x-demo-user" (Value.str "dana") sent_user

hop_dropped : (client_response ok).headers ≡ Fields.field "etag" (Value.str "7") Fields.end
unfolding client_response
hop_dropped = refl
