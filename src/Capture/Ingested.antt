-- ===== src/Capture/Ingested.antt =====
-- What an ingest does, on every branch.
use infra_replay.Common.{
  subst, ℕ, String, ◌≡◌, ◌≢◌, refl, sym, ap, ◌∙◌, true, false, some, List, [], ◌++◌, map, length,
  length-map, string_eq, Option-cases, Bool-cases, inl, inr,
}
use mathlib.Core.Option.{none-ne-some, some-injective}
use infra_replay.Schema.Event.{Event, RecordingStatus}
use infra_replay.Recording.Database.{EventRow, Db, Error, Outcome-cases, done, raised}
use infra_replay.Recording.Service.{append_events}
use infra_replay.Recording.Service.Inserted.{HasTaken}
use infra_replay.Recording.Service.Appended.{rows_in, Appends, append_events-Appends}
use infra_replay.Recording.Transfer.{get_status}
use infra_replay.Capture.{Captures, SessionError, Call, is_open, stamp, ingest_events}

-- The rows of events that are posted to a recording: each is stamped with the recording's id, and
-- redacted.
abbrev pub rows_for : String → List Event → List EventRow
rows_for recording_id events = rows_in (map (stamp recording_id) events)

-- `to` has the rows at the end of its events; nothing else has changed.
pub record AddsRows (rows : List EventRow) (from to : Captures) : Type 0 where
  pub events : to.db.events ≡ from.db.events ++ rows
  pub recordings : to.db.recordings ≡ from.db.recordings
  pub comparisons : to.db.comparisons ≡ from.db.comparisons
  pub blobs : to.db.blobs ≡ from.db.blobs
  pub sessions : to.sessions ≡ from.sessions

-- What each way to end means. A CaptureError: the recording is missing or not open. A service's error:
-- it is open, and the id of one of the events is taken. An answer: it is open, and all is stored.
abbrev pub Ingests : String → List Event → Captures → Call ℕ → Type 0
Ingests recording_id events from (Call.failed (SessionError.capture_error text) to) =
    (to ≡ from) × (get_status recording_id from.db ≢ some RecordingStatus.recording)
Ingests recording_id events from (Call.failed (SessionError.service_error e) to) =
    (to ≡ from)
    × (e ≡ Error.integrity_error)
    × (get_status recording_id from.db ≡ some RecordingStatus.recording)
    × HasTaken from.db.events (rows_for recording_id events)
Ingests recording_id events from (Call.failed (SessionError.plugin_error text) to) = ⊥
Ingests recording_id events from (Call.returned count to) =
    (count ≡ length events)
    × (get_status recording_id from.db ≡ some RecordingStatus.recording)
    × AddsRows (rows_for recording_id events) from to

is_open-recording :
    (status : RecordingStatus) → is_open status ≡ true → status ≡ RecordingStatus.recording
is_open-recording RecordingStatus.recording h = refl
is_open-recording RecordingStatus.creating h = let broken : false ≡ true = h in cc
is_open-recording RecordingStatus.completed h = let broken : false ≡ true = h in cc
is_open-recording RecordingStatus.failed h = let broken : false ≡ true = h in cc

module _ (recording_id : String) where
  -- An ingest of a recording that is missing or not open raises a CaptureError, and no other does. One
  -- raises the database's integrity error only where the recording is open and an event has the id of
  -- one that is stored or of one before it. Either changes nothing. Any other stores at the end of
  -- the table a row for each event, in order, stamped with the recording's id and redacted, changes
  -- nothing else and returns how many they are.
  pub ingest_events-Ingests :
      (events : List Event) (s : Captures)
      → Ingests recording_id events s (ingest_events recording_id events s)
  unfolding ingest_events
  ingest_events-Ingests events s = elim (Option-cases (get_status recording_id s.db)) [
    | inl absent ↦ rw (absent, ingest_events) (refl, λ p. none-ne-some _ (sym absent ∙ p))
    | inr (status, known) ↦ elim (Bool-cases (is_open status)) [
      | inr closed ↦
          rw (known, closed, ingest_events)
            (
              refl,
              λ p.
                  let broken : false ≡ true =
                    sym closed ∙ ap is_open (some-injective _ _ (sym known ∙ p)) in
                  cc,
            )
      | inl opened ↦
          let at : get_status recording_id s.db ≡ some RecordingStatus.recording =
            known ∙ ap some (is_open-recording status opened) in
          stored status known opened at
    ]
  ]
    where
      stored :
          (status : RecordingStatus)
          → get_status recording_id s.db ≡ some status
          → is_open status ≡ true
          → get_status recording_id s.db ≡ some RecordingStatus.recording
          → Ingests recording_id events s (ingest_events recording_id events s)
      stored status known opened at =
          let appends = append_events-Appends (map (stamp recording_id) events) s.db in
          elim (Outcome-cases (append_events (map (stamp recording_id) events) [] s.db)) [
            | inl (e, after, p) ↦
                let refused : Appends (map (stamp recording_id) events) s.db (raised e after) =
                  subst (Appends (map (stamp recording_id) events) s.db) p appends in
                rw (known, opened, p, ingest_events)
                  (ap (λ d. record s { db = d }) refused.0, refused.1, at, refused.2)
            | inr (rows, after, p) ↦
                let grown : Appends (map (stamp recording_id) events) s.db (done rows after) =
                  subst (Appends (map (stamp recording_id) events) s.db) p appends in
                rw (known, opened, p, ingest_events)
                  (
                    length-map (stamp recording_id) events,
                    at,
                    record {
                      events = ap (λ (d : Db). d.events) grown;
                      recordings = ap (λ (d : Db). d.recordings) grown;
                      comparisons = ap (λ (d : Db). d.comparisons) grown;
                      blobs = ap (λ (d : Db). d.blobs) grown;
                      sessions = refl;
                    },
                  )
          ]
