-- ===== src/Recording/Transfer/Ended.antt =====
-- What the calls of an import leave, one by one.
use infra_replay.Common.{
  ℕ, String, ◌≡◌, ◌≢◌, ◌⊎◌, refl, sym, ap, ◌∙◌, false, Option, none, some, List, [], ◌∷◌, map, ◌==◌,
  string_eq, beq_refl, Option-cases, Bool-cases, inl, inr,
}
use mathlib.Core.Option.{none-ne-some, some-injective}
use infra_replay.Schema.Event.{Event, Recording, RecordingStatus}
use infra_replay.Recording.Database.{
  RecordingRow, EventRow, Db, Outcome, find_recording, update_event,
}
use infra_replay.Recording.Correlate.{correlate}
use infra_replay.Recording.Service.{
  events_for, snapshot_key, chosen_id, start_recording, relink, finish_recording, row_to_recording,
}
use infra_replay.Recording.Transfer.{start_of}
use infra_replay.Recording.Transfer.Kept.{find_recording-snoc}

pub find_recording-id :
    (rows : List RecordingRow) (id : String) (row : RecordingRow)
    → find_recording rows id ≡ some row
    → row.recording_id ≡ id
unfolding find_recording
find_recording-id [] id row found = absurd (none-ne-some _ found)
find_recording-id (r ∷ rows) id row found = elim (Bool-cases (r.recording_id == id)) [
  | inl hit ↦
      ap (λ (s : RecordingRow). s.recording_id)
        (sym (some-injective _ _ (rw (hit, find_recording) at found)))
      ∙ (string_eq.beq_iff r.recording_id id).0 hit
  | inr miss ↦ find_recording-id rows id row (rw (miss, find_recording) at found)
]

update_event-ids :
    (f : EventRow → EventRow) (id : String) (rows : List EventRow)
    → ((r : EventRow) → (f r).event_id ≡ r.event_id)
    → map (λ r. r.event_id) (update_event f id rows) ≡ map (λ r. r.event_id) rows
unfolding update_event
update_event-ids f id [] keeps = refl
update_event-ids f id (r ∷ rows) keeps = elim (Bool-cases (r.event_id == id)) [
  | inl hit ↦ rw hit (ap (λ k. k ∷ map (λ (s : EventRow). s.event_id) rows) (keeps r))
  | inr miss ↦ rw miss (ap (λ ids. r.event_id ∷ ids) (update_event-ids f id rows keeps))
]

relink-ids :
    (events : List Event) (rows : List EventRow)
    → map (λ r. r.event_id) (relink events rows) ≡ map (λ r. r.event_id) rows
unfolding relink
relink-ids [] rows = refl
relink-ids (e ∷ events) rows = relink-ids events _ ∙ update_event-ids _ e.event_id rows (λ r. refl)

-- What a finish answers and leaves of the events' ids, and why it raises.
abbrev pub Ends : (String → Option String) → String → Db → Outcome Recording → Type 0
Ends put_blob id db (Outcome.done answer to) =
    (answer.recording_id ≡ id)
    × (answer.status ≡ RecordingStatus.completed)
    × (map (λ r. r.event_id) to.events ≡ map (λ r. r.event_id) db.events)
Ends put_blob id db (Outcome.raised e to) =
    (find_recording db.recordings id ≡ none) ⊎ (put_blob (snapshot_key id) ≡ none)

pub chosen_id-start_of :
    (recording : Recording) (other : String)
    → (recording.recording_id == "") ≡ false
    → chosen_id (start_of recording) other ≡ recording.recording_id
unfolding chosen_id
chosen_id-start_of recording other named = rw named refl

-- A start under an id: it is there then, and no event has come; or it was there already.
abbrev pub Starts : String → Db → Outcome String → Type 0
Starts id db (Outcome.done told to) =
    (to.events ≡ db.events) × (find_recording to.recordings id ≢ none)
Starts id db (Outcome.raised e to) = find_recording db.recordings id ≢ none

pub start_recording-Starts :
    (recording : Recording) (other : String) (now : ℕ) (db : Db)
    → Starts
        (chosen_id (start_of recording) other)
        db
        (start_recording (start_of recording) other now db)
unfolding start_recording
start_recording-Starts recording other now db =
    let id = chosen_id (start_of recording) other in
    elim (Option-cases (find_recording db.recordings id)) [
      | inl fresh ↦
          rw (fresh, start_recording)
            (
              refl,
              λ absent.
                  none-ne-some _
                    (sym absent ∙ find_recording-snoc id db.recordings _ fresh (beq_refl id)),
            )
      | inr (row, taken) ↦ rw (taken, start_recording) (λ free. none-ne-some _ (sym free ∙ taken))
    ]

module _ (by_sequence : List EventRow → List EventRow) (put_blob : String → Option String) where
  pub finish_recording-Ends :
      (id : String) (db : Db) → Ends put_blob id db (finish_recording by_sequence put_blob id db)
  unfolding finish_recording row_to_recording
  finish_recording-Ends id db = elim (Option-cases (find_recording db.recordings id)) [
    | inl absent ↦ rw (absent, finish_recording) (inl absent)
    | inr (row, p) ↦ elim (Option-cases (put_blob (snapshot_key id))) [
      | inl broken ↦ rw (p, broken, finish_recording) (inr broken)
      | inr (locator, q) ↦
          rw (p, q, finish_recording)
            (
              find_recording-id db.recordings id row p,
              refl,
              relink-ids (correlate (events_for by_sequence put_blob id db)) db.events,
            )
    ]
  ]
