-- ===== src/Replay/Runner/Started.antt =====
-- How the recording of a replay starts, and the ways its steps end.
use infra_replay.Common.{
  ℕ, String, ◌≡◌, refl, ap, ◌∙◌, none, some, List, [], ◌∷◌, ◌++◌, ◌⊎◌, inl, inr, string_eq,
}
use infra_replay.Common.Text.{cons_ne_empty, joined}
use infra_replay.Schema.Event.{Event, Recording, RecordingKind, RecordingStatus}
use infra_replay.Recording.Database.{RecordingRow, Db, Error, done, raised, find_recording}
use infra_replay.Recording.Service.{new_id, chosen_id, start_recording}
use infra_replay.Replay.Playback.{ReplayError, Replayed}
use infra_replay.Replay.Runner.{replay_start, source_title}

pub chosen_id-replay_start :
    (source : Recording) (recording_id hex target : String)
    → chosen_id (replay_start source recording_id (new_id "rpl" hex) target) "" ≡ new_id "rpl" hex
unfolding chosen_id replay_start new_id
chosen_id-replay_start source recording_id hex target = rw (cons_ne_empty _ _) refl

-- The row of a replay that begins, and the database with it.
abbrev pub replay_row : Recording → String → String → String → ℕ → RecordingRow
replay_row source recording_id replay_id target now = record {
  recording_id = replay_id;
  project = source.project;
  kind = RecordingKind.replay;
  status = RecordingStatus.recording;
  title = joined "Replay of " (source_title source recording_id);
  capture_plugin = "";
  source_recording_id = some recording_id;
  target = some target;
  blob_locator = none;
  created_at = now;
}

abbrev pub with_row : RecordingRow → Db → Db
with_row row db = record db { recordings = db.recordings ++ row ∷ [] }

pub start_recording-fresh :
    (source : Recording) (recording_id hex target : String) (now : ℕ) (db : Db)
    → find_recording db.recordings (new_id "rpl" hex) ≡ none
    → start_recording (replay_start source recording_id (new_id "rpl" hex) target) "" now db
      ≡ done
          (new_id "rpl" hex)
          (with_row (replay_row source recording_id (new_id "rpl" hex) target now) db)
unfolding start_recording replay_start
start_recording-fresh source recording_id hex target now db fresh =
    let same = chosen_id-replay_start source recording_id hex target in
    rw (ap (find_recording db.recordings) same ∙ fresh, start_recording)
      (ap (λ id. done id (with_row (replay_row source recording_id id target now) db)) same)

pub start_recording-taken :
    (source : Recording) (recording_id hex target : String) (now : ℕ) (db : Db) (row : RecordingRow)
    → find_recording db.recordings (new_id "rpl" hex) ≡ some row
    → start_recording (replay_start source recording_id (new_id "rpl" hex) target) "" now db
      ≡ raised Error.integrity_error db
unfolding start_recording
start_recording-taken source recording_id hex target now db row taken =
    rw (chosen_id-replay_start source recording_id hex target, taken, start_recording) refl

pub Replayed-cases :
    (r : Replayed)
    → ((e : ReplayError) × (r ≡ Replayed.refused e))
      ⊎ (((events : List Event) × (r ≡ Replayed.returned events)) ⊎ (r ≡ Replayed.broken))
Replayed-cases (Replayed.refused e) = inl (e, refl)
Replayed-cases (Replayed.returned events) = inr (inl (events, refl))
Replayed-cases Replayed.broken = inr (inr refl)
