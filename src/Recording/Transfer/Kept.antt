-- ===== src/Recording/Transfer/Kept.antt =====
-- An import leaves the recordings that were there.
use infra_replay.Common.{
  true, arith, ℕ, String, ◌≡◌, refl, sym, ap, ◌∙◌, false, Option, none, some, List, [], ◌∷◌, ◌++◌,
  map, ◌==◌, string_eq, Option-cases, Bool-cases, inl, inr, subst,
}
use mathlib.Core.Option.{none-ne-some}
use infra_replay.Common.Dict.{get}
use infra_replay.Plugins.Redaction.{redact}
use infra_replay.Schema.Event.{Event, Recording}
use infra_replay.Recording.Database.{
  Outcome-cases, insert_events, RecordingRow, EventRow, Db, db_after, find_recording,
  update_recording,
}
use infra_replay.Recording.Service.{
  Start, chosen_id, snapshot_key, start_recording, append_events, event_to_row, finish_recording,
}
use infra_replay.Common.Text.{cons_ne_empty}
use infra_replay.Recording.Portable.{rekey}
use infra_replay.Recording.Transfer.{get_status, store_recording, import_parsed, start_of}

-- Every recording of the first is in the second as it was.
abbrev pub KeepsRecordings : Db → Db → Type 0
KeepsRecordings from to =
    (id : String) (row : RecordingRow)
    → find_recording from.recordings id ≡ some row
    → find_recording to.recordings id ≡ some row

pub find_recording-append :
    (rows more : List RecordingRow) (id : String) (row : RecordingRow)
    → find_recording rows id ≡ some row
    → find_recording (rows ++ more) id ≡ some row
unfolding find_recording
find_recording-append [] more id row found = absurd (none-ne-some _ found)
find_recording-append (s ∷ rows) more id row found = elim (Bool-cases (s.recording_id == id)) [
  | inl hit ↦ rw hit (rw hit at found)
  | inr miss ↦ rw miss (find_recording-append rows more id row (rw miss at found))
]

pub find_recording-snoc :
    (id : String) (rows : List RecordingRow) (r : RecordingRow)
    → find_recording rows id ≡ none
    → (r.recording_id == id) ≡ true
    → find_recording (rows ++ r ∷ []) id ≡ some r
unfolding find_recording
find_recording-snoc id [] r absent same = rw same refl
find_recording-snoc id (s ∷ rows) r absent same = elim (Bool-cases (s.recording_id == id)) [
  | inl hit ↦ absurd (ground arith)
  | inr miss ↦ rw miss (find_recording-snoc id rows r (ground arith) same)
]

pub find_recording-update_other :
    (f : RecordingRow → RecordingRow) (at id : String) (rows : List RecordingRow)
    (row : RecordingRow)
    → ((r : RecordingRow) → (f r).recording_id ≡ r.recording_id)
    → (at == id) ≡ false
    → find_recording rows id ≡ some row
    → find_recording (update_recording f at rows) id ≡ some row
unfolding find_recording update_recording
find_recording-update_other f at id [] row keeps other found = absurd (none-ne-some _ found)
find_recording-update_other f at id (s ∷ rows) row keeps other found =
    elim (Bool-cases (s.recording_id == at)) [
      | inl hit ↦
          let apart : (s.recording_id == id) ≡ false =
            ap (λ k. k == id) ((string_eq.beq_iff s.recording_id at).0 hit) ∙ other in
          let kept : ((f s).recording_id == id) ≡ false = ap (λ k. k == id) (keeps s) ∙ apart in
          rw (hit, kept) (rw apart at found)
      | inr miss ↦ elim (Bool-cases (s.recording_id == id)) [
        | inl here ↦ rw (miss, here) (rw here at found)
        | inr away ↦
            rw (miss, away)
              (find_recording-update_other f at id rows row keeps other (rw away at found))
      ]
    ]

-- A row that is there has another id than one that is not.
pub found-apart :
    (rows : List RecordingRow) (at id : String) (row : RecordingRow)
    → find_recording rows at ≡ none
    → find_recording rows id ≡ some row
    → (at == id) ≡ false
found-apart rows at id row absent found = elim (Bool-cases (at == id)) [
  | inl same ↦
      let equal : at ≡ id = (string_eq.beq_iff at id).0 same in
      absurd (none-ne-some _ (sym absent ∙ ap (find_recording rows) equal ∙ found))
  | inr apart ↦ apart
]

pub append_events-recordings :
    (events : List Event) (db : Db)
    → (db_after (append_events events [] db)).recordings ≡ db.recordings
unfolding append_events
append_events-recordings [] db = refl
append_events-recordings (event ∷ events) db =
    elim (Option-cases (insert_events db.events (rows (map redact (event ∷ events))))) [
      | inl taken ↦ rw (taken, append_events) refl
      | inr (table, p) ↦ rw (p, append_events) refl
    ]
  where
    rows : List Event → List EventRow
    rows = map (λ clean. event_to_row clean (get [] clean.event_id))

chosen_id-rekey :
    (hex : ℕ → String) (recording : Recording) (other : String)
    → chosen_id (start_of (rekey hex recording)) other ≡ (rekey hex recording).recording_id
unfolding chosen_id rekey
chosen_id-rekey hex recording other = rw (cons_ne_empty _ _) refl

module _ (by_sequence : List EventRow → List EventRow) (put_blob : String → Option String) where
  pub finish_recording-Keeps :
      (from : Db) (at : String) (db : Db)
      → find_recording from.recordings at ≡ none
      → KeepsRecordings from db
      → KeepsRecordings from (db_after (finish_recording by_sequence put_blob at db))
  unfolding finish_recording
  finish_recording-Keeps from at db new keeps id row found =
      elim (Option-cases (find_recording db.recordings at)) [
        | inl absent ↦ rw (absent, finish_recording) (keeps id row found)
        | inr (r, p) ↦ elim (Option-cases (put_blob (snapshot_key at))) [
          | inl broken ↦ rw (p, broken, finish_recording) (keeps id row found)
          | inr (locator, q) ↦
              rw (p, q, finish_recording)
                (find_recording-update_other _ at id db.recordings row (λ k. refl)
                  (found-apart from.recordings at id row new found) (keeps id row found))
        ]
      ]

  pub start_recording-Keeps :
      (start : Start) (hex : String) (now : ℕ) (db : Db)
      → KeepsRecordings db (db_after (start_recording start hex now db))
  unfolding start_recording
  start_recording-Keeps start hex now db id row found =
      elim (Option-cases (find_recording db.recordings (chosen_id start hex))) [
        | inl fresh ↦
            rw (fresh, start_recording) (find_recording-append db.recordings _ id row found)
        | inr (r, p) ↦ rw (p, start_recording) found
      ]

  store_recording-Keeps :
      (hex : ℕ → String) (recording : Recording) (other : String) (now : ℕ) (db : Db)
      → find_recording db.recordings recording.recording_id ≡ none
      → KeepsRecordings db
          (db_after (store_recording by_sequence put_blob hex recording other now db))
  unfolding store_recording
  store_recording-Keeps hex recording other now db new =
      elim (Outcome-cases (start_recording (start_of recording) other now db)) [
        | inl (e, after, p) ↦
            rw (p, store_recording) (subst (λ o. KeepsRecordings db (db_after o)) p started)
        | inr (id, after, p) ↦
            let begun : KeepsRecordings db after =
              subst (λ o. KeepsRecordings db (db_after o)) p started in
            elim (Outcome-cases (append_events recording.events [] after)) [
              | inl (e, end, q) ↦
                  rw (p, q, store_recording) (appended after end begun (ap db_after q))
              | inr (stored, end, q) ↦
                  rw (p, q, store_recording)
                    (finish_recording-Keeps db recording.recording_id end new
                      (appended after end begun (ap db_after q)))
            ]
      ]
    where
      started : KeepsRecordings db (db_after (start_recording (start_of recording) other now db))
      started = start_recording-Keeps (start_of recording) other now db

      appended :
          (after end : Db)
          → KeepsRecordings db after
          → db_after (append_events recording.events [] after) ≡ end
          → KeepsRecordings db end
      appended after end keeps same id row found =
          ap (λ (d : Db). find_recording d.recordings id) (sym same)
          ∙ ap (λ rows. find_recording rows id) (append_events-recordings recording.events after)
          ∙ keeps id row found

  rekeyed-Keeps :
      (hex : ℕ → String) (recording : Recording) (other : String) (now : ℕ) (db : Db)
      → KeepsRecordings db
          (db_after (store_recording by_sequence put_blob hex (rekey hex recording) other now db))
  unfolding store_recording start_recording
  rekeyed-Keeps hex recording other now db =
      let anew = rekey hex recording in
      elim (Option-cases (find_recording db.recordings anew.recording_id)) [
        | inl new ↦ store_recording-Keeps hex anew other now db new
        | inr (row, taken) ↦
            rw
              (
                ap (find_recording db.recordings) (chosen_id-rekey hex recording other) ∙ taken,
                start_recording,
                store_recording,
              )
              (λ id r found. found)
      ]

  -- Whatever an import does, whether it returns or raises, each recording that was there keeps its row.
  pub import_parsed-Keeps :
      (hex : ℕ → String) (recording : Recording) (other : String) (now : ℕ) (db : Db)
      → KeepsRecordings db
          (db_after (import_parsed by_sequence put_blob hex recording other now db))
  unfolding import_parsed get_status
  import_parsed-Keeps hex recording other now db =
      elim (Option-cases (find_recording db.recordings recording.recording_id)) [
        | inl new ↦ rw (new, import_parsed) (store_recording-Keeps hex recording other now db new)
        | inr (row, clash) ↦ rw (clash, import_parsed) (rekeyed-Keeps hex recording other now db)
      ]
