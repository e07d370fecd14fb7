-- ===== src/Recording/Database.antt =====
-- The tables that the service writes, infrareplay/db/models.py, and what a database does with them.
-- A column that holds the value of an enum is the enum.
use infra_replay.Common.{
  ◌≡◌, refl, ◌⊎◌, inl, inr, ℕ, String, Option, none, some, List, [], ◌∷◌, ◌++◌, ◌==◌, string_eq,
  if◌then◌else◌,
}
use infra_replay.Common.Dict.{Dict}
use infra_replay.Schema.Value.{Fields}
use infra_replay.Schema.Event.{Event, EventType, RecordingKind, RecordingStatus}
use infra_replay.Schema.Result.{ComparisonResult}

pub record RecordingRow : Type 0 where
  pub recording_id : String
  pub project : String
  pub kind : RecordingKind
  pub status : RecordingStatus
  pub title : String
  pub capture_plugin : String
  pub source_recording_id : Option String
  pub target : Option String
  pub blob_locator : Option String
  pub created_at : ℕ

pub record EventRow : Type 0 where
  pub event_id : String
  pub recording_id : String
  pub parent_event_id : Option String
  pub source_event_id : Option String
  pub schema_version : ℕ
  pub sequence : ℕ
  pub timestamp_ns : ℕ
  pub duration_ns : ℕ
  pub event_type : EventType
  pub service : String
  pub correlation_id : String
  pub trace_id : Option String
  pub span_id : Option String
  pub payload : Fields

-- What `_snapshot_bytes` writes to the blob storage.
pub record Snapshot : Type 0 where
  pub recording_id : String
  pub project : String
  pub kind : RecordingKind
  pub title : String
  pub events : List Event

-- The tables. A comparison is stored with the replay that it belongs to, in the order of its ids.
pub record Db : Type 0 where
  pub recordings : List RecordingRow
  pub events : List EventRow
  pub comparisons : List (String × ComparisonResult)
  pub blobs : Dict String Snapshot

pub data Error : Type 0 where
  key_error : String → Error
  integrity_error : Error
  storage_error : Error
  plugin_error : String → Error

-- A call returns, or raises; either way it leaves a database.
pub data Outcome {ℓ} (A : Type ℓ) : Type ℓ where
  done : A → Db → Outcome A
  raised : Error → Db → Outcome A

abbrev pub db_after {ℓ} : {A : Type ℓ} → Outcome A → Db
db_after (Outcome.done a db) = db
db_after (Outcome.raised e db) = db

pub Outcome-cases {ℓ} :
    {A : Type ℓ} (o : Outcome A)
    → ((e : Error) × (db : Db) × (o ≡ Outcome.raised e db))
      ⊎ ((a : A) × (db : Db) × (o ≡ Outcome.done a db))
Outcome-cases (Outcome.done a db) = inr (a, db, refl)
Outcome-cases (Outcome.raised e db) = inl (e, db, refl)

-- `session.get(RecordingRow, id)`
unfoldable pub find_recording : List RecordingRow → String → Option RecordingRow
find_recording [] id = none
find_recording (r ∷ rs) id = if r.recording_id == id then some r else find_recording rs id

-- `session.get(EventRow, id)`
unfoldable pub find_event : List EventRow → String → Option EventRow
find_event [] id = none
find_event (r ∷ rs) id = if r.event_id == id then some r else find_event rs id

-- The row of a primary key after an update.
unfoldable pub update_recording :
    (RecordingRow → RecordingRow) → String → List RecordingRow → List RecordingRow
update_recording f id [] = []
update_recording f id (r ∷ rs) =
    if r.recording_id == id then f r ∷ rs else r ∷ update_recording f id rs

unfoldable pub update_event : (EventRow → EventRow) → String → List EventRow → List EventRow
update_event f id [] = []
update_event f id (r ∷ rs) = if r.event_id == id then f r ∷ rs else r ∷ update_event f id rs

-- The table after `session.add` of each row and a commit; none if a primary key is taken.
unfoldable pub insert_events : List EventRow → List EventRow → Option (List EventRow)
unfolding find_event
insert_events table [] = some table
insert_events table (r ∷ rs) = elim (find_event table r.event_id) [
  | none ↦ insert_events (table ++ r ∷ []) rs
  | some _ ↦ none
]
