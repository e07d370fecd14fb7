-- ===== src/Examples/Ingesting.antt =====
-- Capture sessions, and events that another process posts to them.
use infra_replay.Common.{List, ◌≡◌, refl, none, some, [], ◌∷◌, map, length}
use infra_replay.Schema.Event.{RecordingStatus}
use infra_replay.Recording.Service.{start_recording, append_events, finish_recording}
use infra_replay.Recording.Service.Stored.{empty_db}
use infra_replay.Recording.Transfer.{get_status}
use infra_replay.Capture.{
  Captures, SessionError, Starts, Call, captures_after, start_session, yields, stop_session,
  active_sessions, ingest_events,
}
use infra_replay.Capture.Ingested.{Ingests, ingest_events-Ingests}
use infra_replay.Schema.Event.{Event, EventType}
use infra_replay.Schema.Value.{Fields}
use infra_replay.Capture.Opened.{AreOpen}
use infra_replay.Capture.Live.{Step, Reach, Reach-AreOpen}
use infra_replay.Examples.{arrived, event}
use infra_replay.Examples.Storing.{in_order, blob_at, started, finished}

abbrev nothing : Captures
nothing = record { db = empty_db; sessions = [] }

abbrev live : Captures
live = captures_after (
    start_session (Starts.listens 8080) "http_capture" "shop" "" (some "http://shop")
      "0123456789abcdef" 7 nothing)

live_session :
    (map (λ s. s.title) (active_sessions live) ≡ "http_capture capture" ∷ [])
    × (get_status "rec_0123456789ab" live.db ≡ some RecordingStatus.recording)
unfolding start_session active_sessions get_status
live_session = (refl, refl)

-- A plugin that does not start leaves a failed recording and no session.
failed_start :
    let after : Captures = captures_after (
      start_session
        (Starts.raises "port in use")
        "http_capture"
        "shop"
        ""
        none
        "0123456789abcdef"
        7
        nothing) in
    (active_sessions after ≡ [])
    × (map (λ r. r.title) after.db.recordings ≡ "http_capture capture (failed: port in use)" ∷ [])
unfolding start_session active_sessions
failed_start = (refl, refl)

stopped :
    let after : Captures = captures_after (
      stop_session in_order blob_at "rec_0123456789ab" []
        (yields "rec_0123456789ab" arrived live)) in
    (active_sessions after ≡ [])
    × (get_status "rec_0123456789ab" after.db ≡ some RecordingStatus.completed)
    × (length after.db.events ≡ 4)
unfolding start_session stop_session yields active_sessions get_status
stopped = (refl, refl, refl)

ingest_into_completed :
    ingest_events "r1" arrived (record { db = finished; sessions = [] })
    ≡ Call.failed (SessionError.capture_error "r1") (record { db = finished; sessions = [] })
unfolding ingest_events start_recording append_events finish_recording
ingest_into_completed = refl

ingest_events-Ingests_example :
    Ingests "r1" arrived
      (record { db = started; sessions = [] })
      (ingest_events "r1" arrived (record { db = started; sessions = [] }))
ingest_events-Ingests_example =
    ingest_events-Ingests "r1" arrived (record { db = started; sessions = [] })

abbrev posted : List Event
posted = event "" "x1" "c1" 0 1 EventType.pg_query Fields.end ∷ []

abbrev busy : Captures
busy =
    captures_after
      (ingest_events "rec_0123456789ab" posted (yields "rec_0123456789ab" arrived live))

-- A capture with one session, whose plugin yields and to which another process posts.
session_path : Reach in_order blob_at nothing busy
session_path =
    Reach.next
      (Reach.next
        (Reach.next Reach.here (
          Step.starts (Starts.listens 8080) "http_capture" "shop" "" (some "http://shop")
            "0123456789abcdef" 7 nothing))
        (Step.yielded "rec_0123456789ab" arrived live))
      (Step.ingests "rec_0123456789ab" posted (yields "rec_0123456789ab" arrived live))

busy_sessions : AreOpen busy
busy_sessions = Reach-AreOpen in_order blob_at session_path
