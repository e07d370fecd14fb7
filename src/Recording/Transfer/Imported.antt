-- ===== src/Recording/Transfer/Imported.antt =====
-- What an import leaves, where it returns and where it raises.
use infra_replay.Common.{ℕ, String, ◌≡◌, ◌≢◌, ◌⊎◌, Option, none, some, ◌++◌, map}
use infra_replay.Schema.Event.{Recording, RecordingStatus}
use infra_replay.Recording.Database.{Db, Outcome, done, raised, find_recording}
use infra_replay.Recording.Service.{snapshot_key}
use infra_replay.Recording.Service.Inserted.{HasTaken}
use infra_replay.Recording.Service.Appended.{rows_in}
use infra_replay.Recording.Portable.{rekey}

-- The recording that an import stores: with an id that is taken, the same with ids of its own.
abbrev pub incoming : (ℕ → String) → Recording → Db → Recording
incoming hex recording db = elim (find_recording db.recordings recording.recording_id) [
  | none ↦ recording
  | some row ↦ rekey hex recording
]

-- The answer is completed and has the recording's id, and the recording's events have got rows at the
-- end of the table.
abbrev pub Brings : Recording → Db → Outcome Recording → Type 0
Brings recording db (Outcome.done answer to) =
    (answer.recording_id ≡ recording.recording_id)
    × (answer.status ≡ RecordingStatus.completed)
    × (map (λ r. r.event_id) to.events
        ≡ map (λ r. r.event_id) (db.events ++ rows_in recording.events))
Brings recording db (Outcome.raised e to) = Unit

-- The recording has no id, or its id or one of its events' is taken, or the snapshot cannot be put.
abbrev pub Clashes : (String → Option String) → Recording → Db → Outcome Recording → Type 0
Clashes put_blob recording db (Outcome.done answer to) = Unit
Clashes put_blob recording db (Outcome.raised e to) =
    (recording.recording_id ≡ "")
    ⊎ (find_recording db.recordings recording.recording_id ≢ none)
    ⊎ HasTaken db.events (rows_in recording.events)
    ⊎ (put_blob (snapshot_key recording.recording_id) ≡ none)
