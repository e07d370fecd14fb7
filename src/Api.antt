-- ===== src/Api.antt =====
-- The HTTP interface: infrareplay/api/app.py. A request is a call of its handler, with what the
-- handler draws from outside; the framework's routing and validation are not part of it.
pub mod Answers
pub mod Grown
pub mod Handled
pub mod Served
pub mod Validated
pub mod Called
use infra_replay.Common.{
  ℕ, String, Bool, true, false, Option, none, some, List, [], ◌∷◌, map, length, if◌then◌else◌,
}
use infra_replay.Common.Dict.{Dict}
use infra_replay.Schema.Value.{ℤ, Fields}
use infra_replay.Schema.Event.{Event, EventType, Recording, RecordingKind}
use infra_replay.Schema.Result.{ComparisonResult}
use infra_replay.Schema.Migrations.{Migration}
use infra_replay.Recording.Database.{RecordingRow, EventRow, Db, Error, Outcome}
use infra_replay.Recording.Service.{get_recording, get_comparison}
use infra_replay.Recording.Portable.Bundle.{Parsed, parse_bundle}
use infra_replay.Recording.Transfer.{
  Project, list_recordings, list_projects, export_recording, import_recording,
}
use infra_replay.Capture.{
  Captures, Session, SessionError, Starts, Call, captures_after, start_session, stop_session,
  active_sessions, ingest_events,
}
use infra_replay.Comparison.Engine.{Comparator}
use infra_replay.Replay.Engine.{SafetyMode}
use infra_replay.Replay.Substitution.{AutoMode}
use infra_replay.Replay.Playback.{ReplayError, Outside, Arguments}
use infra_replay.Replay.Runner.{Counts, Run, RunError, run_replay}
use infra_replay.Demo
use infra_replay.Demo.{Draws}
use infra_replay.Api.Answers.{
  not_found, bad_request, Detail, Answer, Reply, CaptureRequest, CaptureResponse, ReplayRequest,
  ReplayResponse, Validation, describe, start_refusal, session_refusal, reply, with_outcome,
  with_parsed, with_run, or_not_found,
}

-- `start_capture`
unfoldable pub start_capture :
    Starts → CaptureRequest → String → ℕ → Captures → Reply CaptureResponse
unfolding start_session
start_capture how req hex now s =
    reply describe start_refusal
      (start_session how req.plugin req.project req.title req.upstream hex now s)

-- `captures`
unfoldable pub captures : Captures → List CaptureResponse
unfolding active_sessions
captures s = map describe (active_sessions s)

-- `ingest`
unfoldable pub ingest : String → List Event → Captures → Reply ℕ
unfolding ingest_events
ingest recording_id events s = reply (λ n. n) session_refusal (ingest_events recording_id events s)

-- What is posted to `ingest` while a replay's requests are in flight, and the database after it.
unfoldable pub posted : List (String × List Event) → Captures → Captures
unfolding ingest_events
posted [] s = s
posted ((recording_id, events) ∷ posts) s =
    posted posts (captures_after (ingest_events recording_id events s))

abbrev pub meanwhile : List (String × List Event) → Captures → Db → Db
meanwhile posts s db = (posted posts (record s { db = db })).db

-- `recordings`
unfoldable pub recordings :
    (List RecordingRow → List RecordingRow) → Option RecordingKind → Captures → List Recording
unfolding list_recordings
recordings latest_first kind s = list_recordings latest_first kind s.db

-- `replays`
unfoldable pub replays : (List RecordingRow → List RecordingRow) → Captures → List Recording
unfolding list_recordings
replays latest_first s = list_recordings latest_first (some RecordingKind.replay) s.db

-- `projects`
unfoldable pub projects : Captures → List Project
unfolding list_projects
projects s = list_projects s.db

-- `comparison`
unfoldable pub comparison : String → Captures → Answer (List ComparisonResult)
unfolding get_comparison
comparison replay_recording_id s = elim (get_comparison replay_recording_id s.db) [
  | [] ↦ Answer.http_exception not_found Detail.no_comparison
  | ◌∷◌ result results ↦ Answer.answered (result ∷ results)
]

-- What is outside of the handlers: the database's ORDER BY, the blob storage, the registry's
-- comparators, `str` of an exception, `uuid4().hex` for an import, the models' dumps and
-- constructors, and the registered migrations.
pub record Outer : Type 0 where
  pub by_sequence : List EventRow → List EventRow
  pub put_blob : String → Option String
  pub comparator_for : EventType → Option Comparator
  pub replay_text : ReplayError → String
  pub error_text : Error → String
  pub hex : ℕ → String
  pub dump_event : Event → Fields
  pub dump_recording : Recording → Fields
  pub migrations : Dict ℤ Migration
  pub fuel : ℕ
  pub validate_event : Fields → Option Event
  pub validate_recording : Fields → List Event → Option Recording

module _ (outer : Outer) where
  -- `seed`
  unfoldable pub seed : Draws → Captures → Reply (List Recording)
  unfolding Demo.seed
  seed draws s =
      with_outcome s (Demo.seed outer.by_sequence outer.put_blob outer.error_text draws s.db)

  -- `stop_capture`
  unfoldable pub stop_capture : String → List Event → Captures → Reply Recording
  unfolding stop_session
  stop_capture recording_id rest s =
      reply (λ rec. rec) session_refusal
        (stop_session outer.by_sequence outer.put_blob recording_id rest s)

  -- `recording`
  unfoldable pub recording : String → Captures → Answer Recording
  unfolding get_recording
  recording recording_id s =
      or_not_found (Detail.no_recording recording_id)
        (get_recording outer.by_sequence outer.put_blob recording_id s.db)

  -- `export`, at the time `now`.
  unfoldable pub export : String → String → Captures → Answer Fields
  unfolding export_recording
  export now recording_id s = or_not_found (Detail.no_recording recording_id) (
      export_recording outer.by_sequence outer.put_blob outer.dump_event outer.dump_recording now
        recording_id s.db)

  -- `import_bundle`
  unfoldable pub import_bundle : Fields → String → ℕ → Captures → Reply Recording
  unfolding import_recording
  import_bundle bundle other now s = with_parsed s (
      import_recording outer.by_sequence outer.put_blob outer.hex outer.migrations outer.fuel
        outer.validate_event outer.validate_recording bundle other now s.db)

  -- `validate_bundle`
  unfoldable pub validate_bundle : Fields → Answer Validation
  unfolding parse_bundle
  validate_bundle bundle =
      elim (parse_bundle outer.migrations outer.fuel outer.validate_event outer.validate_recording
        bundle) [
          | Parsed.parsed rec ↦
              Answer.answered
                (Validation.valid rec.recording_id (length rec.events) rec.schema_version)
          | Parsed.bundle_error ↦ Answer.answered Validation.invalid
          | Parsed.other_error ↦ Answer.unhandled
          | Parsed.unfinished ↦ Answer.unhandled
        ]

  abbrev pub arguments_of : ReplayRequest → Arguments
  arguments_of req = record {
    target = req.target;
    safety = if req.is_unsafe then SafetyMode.unsafe else SafetyMode.safe;
    substitutions = req.substitutions;
    auto = if req.auto_substitute then AutoMode.fresh_ids else AutoMode.off;
    concurrency = req.concurrency;
  }

  -- `create_replay`, where an instrumented target posts `posts` in the meantime.
  unfoldable pub create_replay :
      Outside
      → ReplayRequest
      → String
      → ℕ
      → List (String × List Event)
      → Captures
      → Reply ReplayResponse
  unfolding run_replay posted
  create_replay outside req hex now posts s = with_run s (
      run_replay outer.by_sequence outer.put_blob outer.comparator_for outer.replay_text
        (meanwhile posts s) outside req.recording_id (arguments_of req) hex now s.db)
