-- ===== src/Api/Answers.antt =====
-- The requests and the answers of infrareplay/api/app.py.
use infra_replay.Common.{ℕ, String, Bool, Option, none, some}
use infra_replay.Common.Dict.{Dict}
use infra_replay.Recording.Database.{Outcome}
use infra_replay.Recording.Portable.Bundle.{Parsed}
use infra_replay.Capture.{Captures, Session, SessionError, Call}
use infra_replay.Replay.Playback.{ReplayError}
use infra_replay.Replay.Runner.{Counts, Run, RunError}

abbrev pub not_found : ℕ
not_found = 404

abbrev pub bad_request : ℕ
bad_request = 400

-- The detail of an HTTPException; an exception stands for its `str`.
pub data Detail : Type 0 where
  of_session : SessionError → Detail
  of_replay : ReplayError → Detail
  of_bundle : Detail
  no_recording : String → Detail
  no_comparison : Detail

-- A handler returns, raises an HTTPException, or ends in another way: with an exception that it does
-- not catch, or never.
pub data Answer {ℓ} (A : Type ℓ) : Type ℓ where
  answered : A → Answer A
  http_exception : ℕ → Detail → Answer A
  unhandled : Answer A

-- An answer, and what the process is left with.
abbrev pub Reply {ℓ} : Type ℓ → Type ℓ
Reply A = Answer A × Captures

pub record CaptureRequest : Type 0 where
  pub plugin : String
  pub project : String
  pub title : String
  pub upstream : Option String

pub record CaptureResponse : Type 0 where
  pub recording_id : String
  pub plugin : String
  pub title : String
  pub target : String
  pub listen_port : ℕ

pub record ReplayRequest : Type 0 where
  pub recording_id : String
  pub target : String
  pub is_unsafe : Bool
  pub substitutions : Option (Dict String String)
  pub auto_substitute : Bool
  pub concurrency : ℕ

pub record ReplayResponse : Type 0 where
  pub replay_recording_id : String
  pub source_recording_id : String
  pub target : String
  pub summary : Counts

-- The answer of `validate_bundle`.
pub data Validation : Type 0 where
  invalid : Validation
  valid : String → ℕ → ℕ → Validation

-- `CaptureSession.describe`
abbrev pub describe : Session → CaptureResponse
describe session = record {
  recording_id = session.recording_id;
  plugin = session.plugin_name;
  title = session.title;
  target = session.target;
  listen_port = session.listen_port;
}

-- `except (CaptureError, PluginError)`, and `except CaptureError`.
abbrev pub start_refusal {ℓ} : {A : Type ℓ} → SessionError → Answer A
start_refusal (SessionError.service_error e) = Answer.unhandled
start_refusal e = Answer.http_exception bad_request (Detail.of_session e)

abbrev pub session_refusal {ℓ} : {A : Type ℓ} → SessionError → Answer A
session_refusal (SessionError.capture_error text) =
    Answer.http_exception bad_request (Detail.of_session (SessionError.capture_error text))
session_refusal e = Answer.unhandled

abbrev pub reply {ℓ κ} :
    {A : Type ℓ} {B : Type κ} → (A → B) → (SessionError → Answer B) → Call A → Reply B
reply f refusal (Call.returned a s) = (Answer.answered (f a), s)
reply f refusal (Call.failed e s) = (refusal e, s)

abbrev pub with_outcome {ℓ} : {A : Type ℓ} → Captures → Outcome A → Reply A
with_outcome s (Outcome.done a db) = (Answer.answered a, record s { db = db })
with_outcome s (Outcome.raised e db) = (Answer.unhandled, record s { db = db })

abbrev pub with_parsed {ℓ} : {A : Type ℓ} → Captures → Parsed (Outcome A) → Reply A
with_parsed s (Parsed.parsed outcome) = with_outcome s outcome
with_parsed s Parsed.bundle_error = (Answer.http_exception bad_request Detail.of_bundle, s)
with_parsed s Parsed.other_error = (Answer.unhandled, s)
with_parsed s Parsed.unfinished = (Answer.unhandled, s)

abbrev pub with_run : Captures → Run → Reply ReplayResponse
with_run s (Run.finished run summary db) = (
  Answer.answered (record {
    replay_recording_id = run.replay_recording_id;
    source_recording_id = run.source_recording_id;
    target = run.target;
    summary = summary;
  }),
  record s { db = db },
)
with_run s (Run.failed (RunError.replay_error e) db) =
    (Answer.http_exception bad_request (Detail.of_replay e), record s { db = db })
with_run s (Run.failed e db) = (Answer.unhandled, record s { db = db })

-- An answer that is there, or the status 404.
abbrev pub or_not_found {ℓ} : {A : Type ℓ} → Detail → Option A → Answer A
or_not_found detail none = Answer.http_exception not_found detail
or_not_found detail (some a) = Answer.answered a
