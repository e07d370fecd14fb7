-- ===== src/Replay/Runner/Refused.antt =====
-- What a run that ends with a ReplayError leaves in the database.
use infra_replay.Common.{
  subst, ℕ, String, ◌≡◌, refl, ap, arith, true, Option, none, some, List, [], ◌∷◌, ◌++◌, ◌==◌, ◌⊎◌,
  inl, inr, string_eq, beq_refl, Option-cases, Bool-cases,
}
use infra_replay.Common.Text.{joined}
use infra_replay.Schema.Event.{Event, EventType, Recording, RecordingKind, RecordingStatus}
use infra_replay.Recording.Database.{
  Outcome-cases, RecordingRow, EventRow, Db, db_after, find_recording, update_recording,
}
use infra_replay.Recording.Service.{
  new_id, append_events, finish_recording, start_recording, fail_recording, get_recording,
}
use infra_replay.Comparison.Engine.{Comparator}
use infra_replay.Replay.Engine.{ensure_safe}
use infra_replay.Replay.Playback.{ReplayError, Outside, Arguments, replay_recording}
use infra_replay.Recording.Transfer.Kept.{find_recording-snoc}
use infra_replay.Replay.Runner.Started.{
  replay_row, with_row, start_recording-fresh, start_recording-taken, Replayed-cases,
}
use infra_replay.Replay.Runner.{Run, RunError, replay_start, run_replay, conclude_run}

-- `to` is `from` with one more recording, a failed replay of the source.
pub record AddsFailedReplay (source_id : String) (from to : Db) : Type 0 where
  pub row : RecordingRow
  pub recordings : to.recordings ≡ from.recordings ++ row ∷ []
  pub status : row.status ≡ RecordingStatus.failed
  pub kind : row.kind ≡ RecordingKind.replay
  pub source : row.source_recording_id ≡ some source_id
  pub events : to.events ≡ from.events
  pub comparisons : to.comparisons ≡ from.comparisons
  pub blobs : to.blobs ≡ from.blobs

update_recording-snoc :
    (f : RecordingRow → RecordingRow) (id : String) (rows : List RecordingRow) (r : RecordingRow)
    → find_recording rows id ≡ none
    → (r.recording_id == id) ≡ true
    → update_recording f id (rows ++ r ∷ []) ≡ rows ++ f r ∷ []
unfolding find_recording update_recording
update_recording-snoc f id [] r absent same = rw same refl
update_recording-snoc f id (s ∷ rows) r absent same = elim (Bool-cases (s.recording_id == id)) [
  | inl hit ↦ absurd (ground arith)
  | inr miss ↦
      rw miss (ap (λ rest. s ∷ rest) (update_recording-snoc f id rows r (ground arith) same))
]

abbrev failed_row : String → RecordingRow → RecordingRow
failed_row reason row = record row {
  status = RecordingStatus.failed;
  title = joined row.title (joined " (failed: " (joined reason ")"));
}

fail_recording-fresh :
    (row : RecordingRow) (reason : String) (db : Db)
    → find_recording db.recordings row.recording_id ≡ none
    → db_after (fail_recording row.recording_id reason (with_row row db))
      ≡ with_row (failed_row reason row) db
unfolding fail_recording
fail_recording-fresh row reason db fresh =
    rw
      (
        find_recording-snoc row.recording_id db.recordings row fresh (beq_refl row.recording_id),
        update_recording-snoc _ row.recording_id db.recordings row fresh
            (beq_refl row.recording_id),
        fail_recording,
      )
      refl

abbrev EndsClean : String → Db → Run → Type 0
EndsClean id from (Run.failed (RunError.replay_error e) to) =
    (to ≡ from) ⊎ AddsFailedReplay id from to
EndsClean id from (Run.failed (RunError.service_error e) to) = Unit
EndsClean id from (Run.failed RunError.other_error to) = Unit
EndsClean id from (Run.finished run counts to) = Unit

module _ (by_sequence : List EventRow → List EventRow) (put_blob : String → Option String)
    (comparator_for : EventType → Option Comparator) (text_of : ReplayError → String)
    (meanwhile : Db → Db) where
  conclude_run-EndsClean :
      (source : Recording) (recording_id replay_id target : String) (events : List Event)
      (db from : Db)
      → EndsClean recording_id from (
          conclude_run by_sequence put_blob comparator_for text_of meanwhile source recording_id
            replay_id target events db)
  unfolding conclude_run
  conclude_run-EndsClean source recording_id replay_id target events db from =
      elim (Outcome-cases (append_events events [] db)) [
        | inl (e, after, p) ↦ rw (p, conclude_run) tt
        | inr (stored, after, p) ↦
            elim (Outcome-cases (finish_recording by_sequence put_blob replay_id after)) [
              | inl (e, end, q) ↦ rw (p, q, conclude_run) tt
              | inr (run, end, q) ↦ rw (p, q, conclude_run) tt
            ]
      ]

  run_replay-EndsClean :
      (outside : Outside) (id : String) (args : Arguments) (hex : String) (now : ℕ) (db : Db)
      → EndsClean id db (
          run_replay by_sequence put_blob comparator_for text_of meanwhile outside id args hex now
            db)
  unfolding run_replay start_recording fail_recording replay_start
  run_replay-EndsClean outside id args hex now db =
      elim (Bool-cases (ensure_safe args.target args.safety)) [
        | inr unsafe ↦ rw (unsafe, run_replay) (inl refl)
        | inl safe ↦ elim (Option-cases (get_recording by_sequence put_blob id db)) [
          | inl absent ↦ rw (safe, absent, run_replay) (inl refl)
          | inr (source, p) ↦
              elim (Option-cases (find_recording db.recordings (new_id "rpl" hex))) [
                | inl fresh ↦
                    elim (Replayed-cases
                      (replay_recording outside source args (new_id "rpl" hex))) [
                        | inl (refusal, r) ↦
                            rw
                              (
                                safe,
                                p,
                                start_recording-fresh source id hex args.target now db fresh,
                                r,
                                run_replay,
                                fail_recording-fresh
                                    (replay_row source id (new_id "rpl" hex) args.target now)
                                    (text_of refusal) db fresh,
                              )
                              (inr (record {
                                row =
                                    failed_row (text_of refusal)
                                      (replay_row source id (new_id "rpl" hex) args.target now);
                                recordings = refl;
                                status = refl;
                                kind = refl;
                                source = refl;
                                events = refl;
                                comparisons = refl;
                                blobs = refl;
                              }))
                        | inr (inl (events, r)) ↦
                            rw
                              (
                                safe,
                                p,
                                start_recording-fresh source id hex args.target now db fresh,
                                r,
                                run_replay,
                              )
                              (conclude_run-EndsClean source id (new_id "rpl" hex) args.target
                                events _ db)
                        | inr (inr r) ↦
                            rw
                              (
                                safe,
                                p,
                                start_recording-fresh source id hex args.target now db fresh,
                                r,
                                run_replay,
                              )
                              tt
                      ]
                | inr (row, q) ↦
                    rw
                      (
                        safe,
                        p,
                        start_recording-taken source id hex args.target now db row q,
                        run_replay,
                      )
                      tt
              ]
        ]
      ]

  -- A run that ends with a ReplayError leaves the database as it was, or with one more recording: a
  -- replay of the source, with the status failed. No event, comparison or blob is written.
  pub run_replay-refused :
      (outside : Outside) (id : String) (args : Arguments) (hex : String) (now : ℕ) (db : Db)
      (e : ReplayError) (after : Db)
      → run_replay by_sequence put_blob comparator_for text_of meanwhile outside id args hex now db
        ≡ Run.failed (RunError.replay_error e) after
      → (after ≡ db) ⊎ AddsFailedReplay id db after
  run_replay-refused outside id args hex now db e after p =
      subst (EndsClean id db) p (run_replay-EndsClean outside id args hex now db)
