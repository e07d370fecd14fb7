-- ===== src/Recording/Transfer.antt =====
-- Reading and moving recordings: get_status, list_recordings, list_projects, export_recording and
-- import_recording of infrareplay/recording/service.py.
pub mod Kept
pub mod Ended
pub mod Imported
use infra_replay.Common.{
  ℕ, suc, String, Bool, true, false, Option, none, some, List, [], ◌∷◌, map, leb, ◌==◌, nat_eq,
  string_eq, if◌then◌else◌,
}
use Prim.Native.Nat.{max}
use infra_replay.Common.Sort.{sorted}
use infra_replay.Common.Dict.{Dict}
use infra_replay.Schema.Value.{ℤ, Fields}
use infra_replay.Schema.Event.{Event, Recording, RecordingKind, RecordingStatus}
use infra_replay.Schema.Migrations.{Migration}
use infra_replay.Recording.Database.{
  RecordingRow, EventRow, Db, Outcome, done, raised, find_recording,
}
use infra_replay.Recording.Service.{
  Start, row_to_recording, start_recording, append_events, finish_recording, get_recording,
}
use infra_replay.Recording.Portable.{rekey}
use infra_replay.Recording.Portable.Bundle.{Parsed, build_bundle, parse_bundle}

-- `get_status`
unfoldable pub get_status : String → Db → Option RecordingStatus
unfolding find_recording
get_status recording_id db = elim (find_recording db.recordings recording_id) [
  | none ↦ none
  | some row ↦ some row.status
]

abbrev kind_index : RecordingKind → ℕ
kind_index RecordingKind.capture = 0
kind_index RecordingKind.replay = 1

unfoldable pub rows_of_kind : Option RecordingKind → List RecordingRow → List RecordingRow
rows_of_kind none rows = rows
rows_of_kind (some kind) [] = []
rows_of_kind (some kind) (row ∷ rows) =
    let rest = rows_of_kind (some kind) rows in
    if kind_index row.kind == kind_index kind then row ∷ rest else rest

-- `list_recordings`; `latest_first` is the database's ORDER BY created_at DESC.
unfoldable pub list_recordings :
    (List RecordingRow → List RecordingRow) → Option RecordingKind → Db → List Recording
unfolding rows_of_kind row_to_recording
list_recordings latest_first kind db =
    map (λ row. row_to_recording row []) (latest_first (rows_of_kind kind db.recordings))

-- A row of `list_projects`.
pub record Project : Type 0 where
  pub project : String
  pub recordings : ℕ
  pub last_activity : ℕ

abbrev count_in : RecordingRow → List Project → List Project
count_in row [] =
    record { project = row.project; recordings = 1; last_activity = row.created_at } ∷ []
count_in row (p ∷ projects) =
    if p.project == row.project
    then record p {
      recordings = suc p.recordings;
      last_activity = max p.last_activity row.created_at;
    }
      ∷ projects
    else p ∷ count_in row projects

unfoldable pub projects_of : List RecordingRow → List Project → List Project
projects_of [] projects = projects
projects_of (row ∷ rows) projects = projects_of rows (count_in row projects)

-- `list_projects`; the database may put the groups in any order, here that of their first rows.
unfoldable pub list_projects : Db → List Project
unfolding projects_of
list_projects db = projects_of db.recordings []

module _ (by_sequence : List EventRow → List EventRow) (put_blob : String → Option String)
    (dump_event : Event → Fields) (dump_recording : Recording → Fields) where
  -- `export_recording`, at the time `now`.
  unfoldable pub export_recording : String → String → Db → Option Fields
  unfolding get_recording build_bundle
  export_recording now recording_id db = elim (get_recording by_sequence put_blob recording_id db) [
    | none ↦ none
    | some recording ↦ some (build_bundle dump_event dump_recording now recording)
  ]

abbrev pub start_of : Recording → Start
start_of recording = record {
  project = recording.project;
  title = recording.title;
  kind = recording.kind;
  capture_plugin = recording.capture_plugin;
  target = recording.target;
  source_recording_id = recording.source_recording_id;
  recording_id = some recording.recording_id;
}

module _ (by_sequence : List EventRow → List EventRow) (put_blob : String → Option String)
    (hex : ℕ → String) where
  -- `import_recording` with an id that is free, or has been made anew.
  unfoldable pub store_recording : Recording → String → ℕ → Db → Outcome Recording
  unfolding start_recording append_events finish_recording
  store_recording recording other now db =
      elim (start_recording (start_of recording) other now db) [
        | raised e after ↦ raised e after
        | done id started ↦ elim (append_events recording.events [] started) [
          | raised e after ↦ raised e after
          | done stored after ↦ finish_recording by_sequence put_blob recording.recording_id after
        ]
      ]

  -- `import_recording` of a bundle that has been parsed; `other` is the `uuid4().hex` that
  -- start_recording would draw for an empty id.
  unfoldable pub import_parsed : Recording → String → ℕ → Db → Outcome Recording
  unfolding get_status rekey store_recording
  import_parsed recording other now db = elim (get_status recording.recording_id db) [
    | none ↦ store_recording recording other now db
    | some status ↦ store_recording (rekey hex recording) other now db
  ]

  -- `import_recording`
  unfoldable pub import_recording :
      Dict ℤ Migration
      → ℕ
      → (Fields → Option Event)
      → (Fields → List Event → Option Recording)
      → Fields
      → String
      → ℕ
      → Db
      → Parsed (Outcome Recording)
  unfolding parse_bundle import_parsed
  import_recording migrations fuel validate_event validate_recording doc other now db =
      elim (parse_bundle migrations fuel validate_event validate_recording doc) [
        | Parsed.parsed recording ↦ Parsed.parsed (import_parsed recording other now db)
        | Parsed.bundle_error ↦ Parsed.bundle_error
        | Parsed.other_error ↦ Parsed.other_error
        | Parsed.unfinished ↦ Parsed.unfinished
      ]
