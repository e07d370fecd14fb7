-- ===== src/Capture.antt =====
-- Capture sessions: infrareplay/capture/session.py. A plugin is outside: what its start does, what its
-- port is and the events that it yields are arguments.
pub mod Ingested
pub mod Opened
pub mod Live
use infra_replay.Common.{
  ℕ, String, Bool, true, false, Option, none, some, List, [], ◌∷◌, map, length, ◌==◌, string_eq,
  if◌then◌else◌,
}
use infra_replay.Common.Text.{joined}
use infra_replay.Common.Dict.{Dict, get, set, remove, values}
use infra_replay.Schema.Event.{Event, Recording, RecordingKind, RecordingStatus}
use infra_replay.Recording.Database.{EventRow, Db, Error, Outcome, done, raised, db_after}
use infra_replay.Recording.Service.{
  Start, start_recording, append_events, fail_recording, finish_recording,
}
use infra_replay.Recording.Transfer.{get_status}

-- A CaptureSession. `drain` is what the task that stores the events has raised, if it has.
pub record Session : Type 0 where
  pub recording_id : String
  pub plugin_name : String
  pub title : String
  pub target : String
  pub listen_port : ℕ
  pub drain : Option Error

-- The database and `_SESSIONS`.
pub record Captures : Type 0 where
  pub db : Db
  pub sessions : Dict String Session

pub data SessionError : Type 0 where
  capture_error : String → SessionError
  plugin_error : String → SessionError
  service_error : Error → SessionError

-- A call returns, or raises.
pub data Call {ℓ} (A : Type ℓ) : Type ℓ where
  returned : A → Captures → Call A
  failed : SessionError → Captures → Call A

abbrev pub captures_after {ℓ} : {A : Type ℓ} → Call A → Captures
captures_after (Call.returned a s) = s
captures_after (Call.failed e s) = s

-- How a plugin starts: listening on a port, or with an exception, or there is none of that name.
pub data Starts : Type 0 where
  listens : ℕ → Starts
  raises : String → Starts
  unknown : Starts

abbrev or_text : String → String → String
or_text text default = if text == "" then default else text

abbrev or_empty : Option String → String
or_empty none = ""
or_empty (some s) = s

abbrev pub capture_start : String → String → String → Option String → Start
capture_start plugin_name project title upstream = record {
  project = project;
  title = or_text title (joined plugin_name " capture");
  kind = RecordingKind.capture;
  capture_plugin = plugin_name;
  target = upstream;
  source_recording_id = none;
  recording_id = none;
}

-- `start_session`, which opens the session: `upstream` is `config.get("upstream")`.
unfoldable pub start_session :
    Starts → String → String → String → Option String → String → ℕ → Captures → Call Session
unfolding start_recording fail_recording set
start_session Starts.unknown plugin_name project title upstream hex now s =
    Call.failed (SessionError.plugin_error plugin_name) s
start_session (Starts.raises text) plugin_name project title upstream hex now s =
    elim (start_recording (capture_start plugin_name project title upstream) hex now s.db) [
      | raised e after ↦ Call.failed (SessionError.service_error e) (record s { db = after })
      | done recording_id started ↦
          Call.failed (SessionError.capture_error text)
            (record s { db = db_after (fail_recording recording_id text started) })
    ]
start_session (Starts.listens port) plugin_name project title upstream hex now s =
    elim (start_recording (capture_start plugin_name project title upstream) hex now s.db) [
      | raised e after ↦ Call.failed (SessionError.service_error e) (record s { db = after })
      | done recording_id started ↦
          let session : Session = record {
            recording_id = recording_id;
            plugin_name = plugin_name;
            title = or_text title (joined plugin_name " capture");
            target = or_empty upstream;
            listen_port = port;
            drain = none;
          } in
          Call.returned session
            (record { db = started; sessions = set s.sessions recording_id session })
    ]

-- `_pump`: the task takes events off the plugin and stores each, until a store raises.
unfoldable pub pump : String → List Event → Db → Option Error × Db
unfolding append_events
pump recording_id [] db = (none, db)
pump recording_id (event ∷ events) db = elim (append_events (event ∷ []) [] db) [
  | raised e after ↦ (some e, after)
  | done _ after ↦ pump recording_id events after
]

-- The events that the plugin of a live session yields meanwhile.
unfoldable pub yields : String → List Event → Captures → Captures
unfolding get set pump
yields recording_id events s = elim (get s.sessions recording_id) [
  | none ↦ s
  | some session ↦ elim session.drain [
    | some e ↦ s
    | none ↦
        let (drain, after) = pump recording_id events s.db in
        record {
          db = after;
          sessions = set s.sessions recording_id (record session { drain = drain });
        }
  ]
]

module _ (by_sequence : List EventRow → List EventRow) (put_blob : String → Option String) where
  -- `stop_session`, where the plugin yields `rest` until it has stopped.
  unfoldable pub stop_session : String → List Event → Captures → Call Recording
  unfolding get remove pump finish_recording
  stop_session recording_id rest s = elim (get s.sessions recording_id) [
    | none ↦ Call.failed (SessionError.capture_error recording_id) s
    | some session ↦
        let sessions = remove s.sessions recording_id in
        elim session.drain [
          | some e ↦ Call.failed (SessionError.service_error e) (record s { sessions = sessions })
          | none ↦
              let (drain, drained) = pump recording_id rest s.db in
              elim drain [
                | some e ↦
                    Call.failed (SessionError.service_error e)
                      (record { db = drained; sessions = sessions })
                | none ↦ elim (finish_recording by_sequence put_blob recording_id drained) [
                  | raised e after ↦
                      Call.failed (SessionError.service_error e)
                        (record { db = after; sessions = sessions })
                  | done recording after ↦
                      Call.returned recording (record { db = after; sessions = sessions })
                ]
              ]
        ]
  ]

-- `active_sessions`
unfoldable pub active_sessions : Captures → List Session
active_sessions s = values s.sessions

abbrev pub is_open : RecordingStatus → Bool
is_open RecordingStatus.recording = true
is_open status = false

abbrev pub stamp : String → Event → Event
stamp recording_id e = record e { recording_id = recording_id }

-- `ingest_events`
unfoldable pub ingest_events : String → List Event → Captures → Call ℕ
unfolding get_status append_events
ingest_events recording_id events s = elim (get_status recording_id s.db) [
  | none ↦ Call.failed (SessionError.capture_error recording_id) s
  | some status ↦
      let stamped = map (stamp recording_id) events in
      elim (is_open status) [
        | false ↦ Call.failed (SessionError.capture_error recording_id) s
        | true ↦ elim (append_events stamped [] s.db) [
          | raised e after ↦ Call.failed (SessionError.service_error e) (record s { db = after })
          | done stored after ↦ Call.returned (length stamped) (record s { db = after })
        ]
      ]
]
