-- ===== src/Replay/Runner/Reported.antt =====
-- What a finished run reports, against what it has stored.
use infra_replay.Common.Dict.{Dict, get}
use infra_replay.Plugins.Redaction.{redact}
use infra_replay.Common.{
  ℕ, String, ◌≡◌, refl, ap, sym, ◌∙◌, subst, true, Option, some, List, [], ◌∷◌, ◌++◌, map, ◌==◌,
  string_eq, beq_refl, suc, length, length-map, select, Option-cases, Bool-cases, inl, inr,
}
use mathlib.Core.Option.{none-ne-some, some-injective}
use infra_replay.Schema.Event.{Event, EventType, Recording, RecordingStatus}
use infra_replay.Schema.Result.{ComparisonResult, ComparisonCategory}
use infra_replay.Recording.Database.{
  Outcome-cases, RecordingRow, EventRow, Db, Outcome, insert_events, db_after, done, raised,
  find_recording, update_recording,
}
use infra_replay.Recording.Service.{
  new_id, append_events, event_to_row, finish_recording, get_recording, get_comparison,
  comparisons_of, snapshot_key,
}
use infra_replay.Comparison.Engine.{Comparator, compare_run}
use infra_replay.Replay.Linking.{link_streams}
use infra_replay.Replay.Engine.{ensure_safe}
use infra_replay.Replay.Playback.{ReplayError, Outside, Arguments, replay_recording}
use infra_replay.Replay.Runner.{
  ReplayRun, Counts, Run, no_counts, summarise, conclude_run, run_replay,
}
use infra_replay.Replay.Runner.Summary.{Tallies, is_category, summarise-Tallies}
use infra_replay.Replay.Runner.Started.{
  replay_row, with_row, Replayed-cases, start_recording-fresh, start_recording-taken,
}

-- A result as get_comparison reads it back.
abbrev filed_under : String → ComparisonResult → ComparisonResult
filed_under id r = record r { replay_recording_id = id }

comparisons_of-added :
    (id : String) (results : List ComparisonResult) (table : List (String × ComparisonResult))
    → comparisons_of id (table ++ map (λ r. (id, r)) results)
      ≡ comparisons_of id table ++ map (filed_under id) results
unfolding comparisons_of
comparisons_of-added id [] [] = refl
comparisons_of-added id (r ∷ results) [] =
    rw (beq_refl id) (ap (λ rest. filed_under id r ∷ rest) (comparisons_of-added id results []))
comparisons_of-added id results ((j, r) ∷ table) = elim (Bool-cases (j == id)) [
  | inl hit ↦ rw hit (ap (λ rest. filed_under j r ∷ rest) (comparisons_of-added id results table))
  | inr miss ↦ rw miss (comparisons_of-added id results table)
]

find_recording-update :
    (f : RecordingRow → RecordingRow) (id : String) (rows : List RecordingRow) (r : RecordingRow)
    → ((r : RecordingRow) → (f r).recording_id ≡ r.recording_id)
    → find_recording rows id ≡ some r
    → find_recording (update_recording f id rows) id ≡ some (f r)
unfolding find_recording update_recording
find_recording-update f id [] r keeps found = absurd (none-ne-some _ found)
find_recording-update f id (s ∷ rows) r keeps found = elim (Bool-cases (s.recording_id == id)) [
  | inl hit ↦
      let same : ((f s).recording_id == id) ≡ true = ap (λ x. x == id) (keeps s) ∙ hit in
      rw (hit, same) (ap (λ row. some (f row)) (some-injective _ _ (rw hit at found)))
  | inr miss ↦ rw (miss, miss) (find_recording-update f id rows r keeps (rw miss at found))
]

select-filed_under :
    (id : String) (k : ComparisonCategory) (results : List ComparisonResult)
    → length (select (λ r. is_category r.category k) (map (filed_under id) results))
      ≡ length (select (λ r. is_category r.category k) results)
select-filed_under id k [] = refl
select-filed_under id k (r ∷ results) = elim (Bool-cases (is_category r.category k)) [
  | inl hit ↦ rw hit (ap suc (select-filed_under id k results))
  | inr miss ↦ rw miss (select-filed_under id k results)
]

filed_under-Tallies :
    (id : String) (counts : Counts) (results : List ComparisonResult)
    → Tallies counts results
    → Tallies counts (map (filed_under id) results)
filed_under-Tallies id counts results (each, all) = (
  λ k. each k ∙ sym (select-filed_under id k results),
  all ∙ sym (length-map (filed_under id) results),
)

-- The counts are those of the rows that `to` has of the run's comparison, and the run's recording is
-- completed.
pub record Reports (counts : Counts) (replay_id : String) (to : Db) : Type 0 where
  pub counted : Tallies counts (get_comparison replay_id to)
  pub row : RecordingRow
  pub found : find_recording to.recordings replay_id ≡ some row
  pub completed : row.status ≡ RecordingStatus.completed

append_events-comparisons :
    (events : List Event) (links : Dict String String) (db : Db)
    → (db_after (append_events events links db)).comparisons ≡ db.comparisons
unfolding append_events
append_events-comparisons [] links db = refl
append_events-comparisons (event ∷ events) links db =
    elim (Option-cases (insert_events db.events (rows (map redact (event ∷ events))))) [
      | inl taken ↦ rw (taken, append_events) refl
      | inr (table, p) ↦ rw (p, append_events) refl
    ]
  where
    rows : List Event → List EventRow
    rows = map (λ clean. event_to_row clean (get links clean.event_id))

-- A recording that is finished keeps the comparisons, and its row is completed.
abbrev Finishes : String → Db → Outcome Recording → Type 0
Finishes id from (raised e to) = Unit
Finishes id from (done run to) =
    (to.comparisons ≡ from.comparisons)
    × ((row : RecordingRow) × (find_recording to.recordings id ≡ some row)
        × (row.status ≡ RecordingStatus.completed))

finish_recording-Finishes :
    (by_sequence : List EventRow → List EventRow) (put_blob : String → Option String) (id : String)
    (db : Db)
    → Finishes id db (finish_recording by_sequence put_blob id db)
unfolding finish_recording
finish_recording-Finishes by_sequence put_blob id db =
    elim (Option-cases (find_recording db.recordings id)) [
      | inl absent ↦ rw (absent, finish_recording) tt
      | inr (row, p) ↦ elim (Option-cases (put_blob (snapshot_key id))) [
        | inl broken ↦ rw (p, broken, finish_recording) tt
        | inr (locator, q) ↦
            rw (p, q, finish_recording)
              (refl, (_, find_recording-update _ id db.recordings row (λ r. refl) p, refl))
      ]
    ]

abbrev EndsReported : Run → Type 0
EndsReported (Run.finished run counts to) = Reports counts run.replay_recording_id to
EndsReported (Run.failed e to) = Unit

module _ (by_sequence : List EventRow → List EventRow) (put_blob : String → Option String)
    (comparator_for : EventType → Option Comparator) (text_of : ReplayError → String)
    (meanwhile : Db → Db) where
  conclude_run-EndsReported :
      (source : Recording) (recording_id replay_id target : String) (events : List Event) (db : Db)
      → get_comparison replay_id db ≡ []
      → EndsReported (
          conclude_run by_sequence put_blob comparator_for text_of meanwhile source recording_id
            replay_id target events db)
  unfolding conclude_run get_comparison
  conclude_run-EndsReported source recording_id replay_id target events db new =
      elim (Outcome-cases (append_events events [] db)) [
        | inl (e, after, p) ↦ rw (p, conclude_run) tt
        | inr (stored, after, p) ↦
            elim (Outcome-cases (finish_recording by_sequence put_blob replay_id after)) [
              | inl (e, end, q) ↦ rw (p, q, conclude_run) tt
              | inr (run, end, q) ↦
                  rw (p, q, conclude_run)
                    (let results =
                        compare_run comparator_for source.events run.events
                          (link_streams source.events run.events) in
                      let finish : Finishes replay_id after (done run end) =
                        subst (Finishes replay_id after) q
                          (finish_recording-Finishes by_sequence put_blob replay_id after) in
                      let same : end.comparisons ≡ db.comparisons =
                        finish.0
                        ∙ ap (λ o. (db_after o).comparisons) (sym p)
                        ∙ append_events-comparisons events [] db in
                      record {
                        counted =
                            subst (Tallies (summarise no_counts results))
                              (sym (
                                comparisons_of-added replay_id results end.comparisons
                                ∙ ap
                                    (λ table.
                                      comparisons_of replay_id table
                                      ++ map (filed_under replay_id) results)
                                    same
                                ∙ ap (λ rows. rows ++ map (filed_under replay_id) results) new))
                              (filed_under-Tallies replay_id (summarise no_counts results) results
                                (summarise-Tallies results));
                        row = finish.1.0;
                        found = finish.1.1;
                        completed = finish.1.2;
                      })
            ]
      ]

  run_replay-EndsReported :
      (outside : Outside) (id : String) (args : Arguments) (hex : String) (now : ℕ) (db : Db)
      → get_comparison (new_id "rpl" hex) db ≡ []
      → ((d : Db) → (meanwhile d).comparisons ≡ d.comparisons)
      → EndsReported (
          run_replay by_sequence put_blob comparator_for text_of meanwhile outside id args hex now
            db)
  unfolding run_replay get_comparison
  run_replay-EndsReported outside id args hex now db new quiet =
      elim (Bool-cases (ensure_safe args.target args.safety)) [
        | inr unsafe ↦ rw (unsafe, run_replay) tt
        | inl safe ↦ elim (Option-cases (get_recording by_sequence put_blob id db)) [
          | inl absent ↦ rw (safe, absent, run_replay) tt
          | inr (source, p) ↦
              elim (Option-cases (find_recording db.recordings (new_id "rpl" hex))) [
                | inr (row, q) ↦
                    rw
                      (
                        safe,
                        p,
                        start_recording-taken source id hex args.target now db row q,
                        run_replay,
                      )
                      tt
                | inl fresh ↦
                    let begun = start_recording-fresh source id hex args.target now db fresh in
                    elim (Replayed-cases
                      (replay_recording outside source args (new_id "rpl" hex))) [
                        | inl (refusal, r) ↦ rw (safe, p, begun, r, run_replay) tt
                        | inr (inl (events, r)) ↦
                            rw (safe, p, begun, r, run_replay)
                              (conclude_run-EndsReported source id (new_id "rpl" hex) args.target
                                events
                                (meanwhile (
                                  with_row (replay_row source id (new_id "rpl" hex) args.target now)
                                    db))
                                (ap (comparisons_of (new_id "rpl" hex)) (quiet _) ∙ new))
                        | inr (inr r) ↦ rw (safe, p, begun, r, run_replay) tt
                      ]
              ]
        ]
      ]

  -- A run that finishes reports what it has stored: provided that no comparison had the new id and
  -- that an instrumented target writes none, each of its counts is the number of the rows of that
  -- category in the comparison that get_comparison reads back under the run's id, the counts add up
  -- to the number of the rows, and the run's recording is completed.
  pub run_replay-Reports :
      (outside : Outside) (id : String) (args : Arguments) (hex : String) (now : ℕ) (db : Db)
      (run : ReplayRun) (counts : Counts) (to : Db)
      → get_comparison (new_id "rpl" hex) db ≡ []
      → ((d : Db) → (meanwhile d).comparisons ≡ d.comparisons)
      → run_replay by_sequence put_blob comparator_for text_of meanwhile outside id args hex now db
        ≡ Run.finished run counts to
      → Reports counts run.replay_recording_id to
  run_replay-Reports outside id args hex now db run counts to new quiet p =
      subst EndsReported p (run_replay-EndsReported outside id args hex now db new quiet)
