-- ===== src/Recording/Service.antt =====
-- The lifecycle of a recording: infrareplay/recording/service.py. A session's writes reach the
-- database at its commit, so a call that raises before it leaves the tables as they were.
pub mod Stored
pub mod Inserted
pub mod Appended
pub mod EventKeys
pub mod RecordingKeys
pub mod Keys
use infra_replay.Common.{
  ℕ, String, Bool, true, false, Option, none, some, List, [], ◌∷◌, ◌++◌, map, ◌==◌, string_eq,
  if◌then◌else◌,
}
use infra_replay.Common.Text.{joined, first_chars}
use infra_replay.Common.Dict.{Dict, get, set}
use infra_replay.Schema.Event.{Event, Recording, RecordingKind, RecordingStatus}
use infra_replay.Schema.Result.{ComparisonResult}
use infra_replay.Plugins.Redaction.{redact}
use infra_replay.Recording.Correlate.{correlate}
use infra_replay.Recording.Database.{
  RecordingRow, EventRow, Snapshot, Db, Error, Outcome, db_after, done, raised, find_recording,
  find_event, update_recording, update_event, insert_events,
}

-- `new_id`, where `hex` is `uuid4().hex`.
unfoldable pub new_id : String → String → String
new_id prefix hex = joined prefix (joined "_" (first_chars 12 hex))

-- `_row_to_event`
unfoldable pub row_to_event : EventRow → Event
row_to_event row = record {
  schema_version = row.schema_version;
  recording_id = row.recording_id;
  event_id = row.event_id;
  parent_event_id = row.parent_event_id;
  sequence = row.sequence;
  timestamp_ns = row.timestamp_ns;
  duration_ns = row.duration_ns;
  event_type = row.event_type;
  service = row.service;
  correlation_id = row.correlation_id;
  trace_id = row.trace_id;
  span_id = row.span_id;
  payload = row.payload;
}

-- `_event_to_row`
unfoldable pub event_to_row : Event → Option String → EventRow
event_to_row event source_event_id = record {
  event_id = event.event_id;
  recording_id = event.recording_id;
  parent_event_id = event.parent_event_id;
  source_event_id = source_event_id;
  schema_version = event.schema_version;
  sequence = event.sequence;
  timestamp_ns = event.timestamp_ns;
  duration_ns = event.duration_ns;
  event_type = event.event_type;
  service = event.service;
  correlation_id = event.correlation_id;
  trace_id = event.trace_id;
  span_id = event.span_id;
  payload = event.payload;
}

-- `_row_to_recording`
unfoldable pub row_to_recording : RecordingRow → List Event → Recording
row_to_recording row events = record {
  schema_version = 1;
  recording_id = row.recording_id;
  project = row.project;
  kind = row.kind;
  status = row.status;
  title = row.title;
  capture_plugin = row.capture_plugin;
  source_recording_id = row.source_recording_id;
  target = row.target;
  created_at = row.created_at;
  events = events;
}

-- The arguments of `start_recording`.
pub record Start : Type 0 where
  pub project : String
  pub title : String
  pub kind : RecordingKind
  pub capture_plugin : String
  pub target : Option String
  pub source_recording_id : Option String
  pub recording_id : Option String

abbrev prefix_of : RecordingKind → String
prefix_of RecordingKind.capture = "rec"
prefix_of RecordingKind.replay = "rpl"

-- `recording_id or new_id(…)`
unfoldable pub chosen_id : Start → String → String
unfolding new_id
chosen_id start hex = elim start.recording_id [
  | none ↦ new_id (prefix_of start.kind) hex
  | some id ↦ if id == "" then new_id (prefix_of start.kind) hex else id
]

-- `start_recording`, at the time `now`.
unfoldable pub start_recording : Start → String → ℕ → Db → Outcome String
unfolding chosen_id find_recording
start_recording start hex now db = elim (find_recording db.recordings (chosen_id start hex)) [
  | some _ ↦ raised Error.integrity_error db
  | none ↦ done (chosen_id start hex) (record db { recordings = db.recordings ++ row ∷ [] })
]
  where
    row : RecordingRow
    row = record {
      recording_id = chosen_id start hex;
      project = start.project;
      kind = start.kind;
      status = RecordingStatus.recording;
      title = start.title;
      capture_plugin = start.capture_plugin;
      source_recording_id = start.source_recording_id;
      target = start.target;
      blob_locator = none;
      created_at = now;
    }

-- `append_events`. `links` maps a replayed id to the original one.
unfoldable pub append_events : List Event → Dict String String → Db → Outcome (List Event)
unfolding insert_events event_to_row redact get
append_events [] links db = done [] db
append_events (event ∷ events) links db = elim (insert_events db.events rows) [
  | none ↦ raised Error.integrity_error db
  | some table ↦ done stored (record db { events = table })
]
  where
    stored : List Event
    stored = map redact (event ∷ events)

    rows : List EventRow
    rows = map (λ clean. event_to_row clean (get links clean.event_id)) stored

-- `fail_recording`
unfoldable pub fail_recording : String → String → Db → Outcome {0} Unit
unfolding find_recording update_recording
fail_recording recording_id reason db = elim (find_recording db.recordings recording_id) [
  | none ↦ done tt db
  | some _ ↦
      done tt (record db { recordings = update_recording failing recording_id db.recordings })
]
  where
    failing : RecordingRow → RecordingRow
    failing row = record row {
      status = RecordingStatus.failed;
      title = joined row.title (joined " (failed: " (joined reason ")"));
    }

-- The writes of `finish_recording` to the events' rows.
unfoldable pub relink : List Event → List EventRow → List EventRow
unfolding update_event
relink [] table = table
relink (event ∷ events) table = relink events (
    update_event
      (λ row. record row { sequence = event.sequence; parent_event_id = event.parent_event_id })
      event.event_id table)

-- `link_replay_events`, over the events' rows.
unfoldable pub link_rows : Dict String String → List EventRow → List EventRow
unfolding update_event
link_rows [] table = table
link_rows ((original, replayed) ∷ links) table =
    link_rows links
      (update_event (λ row. record row { source_event_id = some original }) replayed table)

unfoldable pub link_replay_events : Dict String String → Db → Outcome {0} Unit
unfolding link_rows
link_replay_events links db = done tt (record db { events = link_rows links db.events })

-- `save_comparison`
unfoldable pub save_comparison : String → List ComparisonResult → Db → Outcome {0} Unit
save_comparison replay_recording_id results db =
    done tt
      (record db { comparisons = db.comparisons ++ map (λ r. (replay_recording_id, r)) results })

-- `_SNAPSHOT_KEY.format(rid=recording_id)`
abbrev pub snapshot_key : String → String
snapshot_key recording_id = joined "recordings/" (joined recording_id "/recording.json")

unfoldable pub comparisons_of : String → List (String × ComparisonResult) → List ComparisonResult
comparisons_of replay_recording_id [] = []
comparisons_of replay_recording_id ((id, r) ∷ table) =
    if id == replay_recording_id
    then record r { replay_recording_id = id } ∷ comparisons_of replay_recording_id table
    else comparisons_of replay_recording_id table

-- `get_comparison`, by the rows' replay.
unfoldable pub get_comparison : String → Db → List ComparisonResult
unfolding comparisons_of
get_comparison replay_recording_id db = comparisons_of replay_recording_id db.comparisons

unfoldable pub rows_of : String → List EventRow → List EventRow
rows_of recording_id [] = []
rows_of recording_id (row ∷ table) =
    if row.recording_id == recording_id
    then row ∷ rows_of recording_id table
    else rows_of recording_id table

-- `by_sequence` is the database's ORDER BY sequence, which may put equal numbers in any order.
-- `put_blob` is the locator that the storage plugin answers for a key, or none if it raises.
module _ (by_sequence : List EventRow → List EventRow) (put_blob : String → Option String) where
  -- `_events_for`
  unfoldable pub events_for : String → Db → List Event
  unfolding rows_of row_to_event
  events_for recording_id db = map row_to_event (by_sequence (rows_of recording_id db.events))

  -- `finish_recording`
  unfoldable pub finish_recording : String → Db → Outcome Recording
  unfolding find_recording update_recording events_for correlate relink set row_to_recording
  finish_recording recording_id db = elim (find_recording db.recordings recording_id) [
    | none ↦ raised (Error.key_error recording_id) db
    | some row ↦
        let events = correlate (events_for recording_id db) in
        let snapshot : Snapshot = record {
          recording_id = row.recording_id;
          project = row.project;
          kind = row.kind;
          title = row.title;
          events = events;
        } in
        elim (put_blob (snapshot_key recording_id)) [
          | none ↦ raised Error.storage_error db
          | some locator ↦
              let complete : RecordingRow → RecordingRow =
                λ r. record r { blob_locator = some locator; status = RecordingStatus.completed } in
              done (row_to_recording (complete row) events) (record db {
                recordings = update_recording complete recording_id db.recordings;
                events = relink events db.events;
                blobs = set db.blobs (snapshot_key recording_id) snapshot;
              })
        ]
  ]

  -- `get_recording`
  unfoldable pub get_recording : String → Db → Option Recording
  unfolding find_recording events_for row_to_recording
  get_recording recording_id db = elim (find_recording db.recordings recording_id) [
    | none ↦ none
    | some row ↦ some (row_to_recording row (events_for recording_id db))
  ]

  -- The events that a capture plugin yields, each stored before the next is taken; `failure` is the
  -- text of what the plugin raises at the end, if it does.
  unfoldable pub collect : List Event → Option String → Db → Outcome {0} Unit
  unfolding append_events
  collect [] none db = done tt db
  collect [] (some text) db = raised (Error.plugin_error text) db
  collect (event ∷ events) failure db = elim (append_events (event ∷ []) [] db) [
    | raised e after ↦ raised e after
    | done _ after ↦ collect events failure after
  ]

  -- `capture_recording`: `capture` is what the plugin yields for the recording's id, and `text_of` is
  -- `str` of an exception.
  unfoldable pub capture_recording :
      (String → List Event × Option String)
      → (Error → String)
      → String
      → String
      → String
      → String
      → ℕ
      → Db
      → Outcome Recording
  unfolding start_recording collect fail_recording finish_recording
  capture_recording capture text_of project title plugin_name hex now db =
      elim (start_recording start hex now db) [
        | raised e after ↦ raised e after
        | done recording_id started ↦
            let (events, failure) = capture recording_id in
            elim (collect events failure started) [
              | raised e after ↦ raised e (db_after (fail_recording recording_id (text_of e) after))
              | done _ after ↦ finish_recording recording_id after
            ]
      ]
    where
      start : Start
      start = record {
        project = project;
        title = title;
        kind = RecordingKind.capture;
        capture_plugin = plugin_name;
        target = none;
        source_recording_id = none;
        recording_id = none;
      }
