-- ===== src/Api/Grown/Replayed.antt =====
-- What a replay leaves of the database before it.
use infra_replay.Common.{
  ℕ, String, ◌≡◌, Bool-cases, Option, none, List, [], Option-cases, inl, inr, string_eq,
}
use infra_replay.Schema.Event.{Event, EventType, Recording}
use infra_replay.Recording.Database.{EventRow, Db, Outcome-cases, db_after, find_recording}
use infra_replay.Recording.Service.{
  append_events, finish_recording, new_id, get_recording, link_replay_events,
}
use infra_replay.Comparison.Engine.{Comparator, compare_run}
use infra_replay.Replay.Engine.{ensure_safe}
use infra_replay.Replay.Linking.{link_streams}
use infra_replay.Replay.Playback.{ReplayError, Outside, Arguments, replay_recording}
use infra_replay.Replay.Runner.{Run, replay_start, conclude_run, run_replay}
use infra_replay.Replay.Runner.Started.{
  start_recording-fresh, start_recording-taken, Replayed-cases,
}
use infra_replay.Api.Grown.{
  Grows, Grows-refl, Grows-trans, Grows-at, start-Grows, append-Grows, fail-Grows, finish-Grows,
  link-Grows, save-Grows,
}

-- The database that a run leaves.
abbrev pub run_db : Run → Db
run_db (Run.finished run counts db) = db
run_db (Run.failed e db) = db

module _ (by_sequence : List EventRow → List EventRow) (put_blob : String → Option String)
    (comparator_for : EventType → Option Comparator) (text_of : ReplayError → String)
    (meanwhile : Db → Db) where
  conclude_run-Grows :
      (source : Recording) (recording_id replay_id target : String) (events : List Event)
      (from db : Db)
      → find_recording from.recordings replay_id ≡ none
      → Grows by_sequence put_blob from db
      → Grows by_sequence put_blob from (
          run_db (
            conclude_run by_sequence put_blob comparator_for text_of meanwhile source recording_id
              replay_id target events db))
  unfolding conclude_run
  conclude_run-Grows source recording_id replay_id target events from db fresh h =
      let stored = append-Grows by_sequence put_blob events from db h in
      elim (Outcome-cases (append_events events [] db)) [
        | inl (e, after, p) ↦ rw (p, conclude_run) (Grows-at by_sequence put_blob p stored)
        | inr (u, after, p) ↦
            let completed =
              finish-Grows by_sequence put_blob replay_id from after fresh
                (Grows-at by_sequence put_blob p stored) in
            elim (Outcome-cases (finish_recording by_sequence put_blob replay_id after)) [
              | inl (e, end, q) ↦
                  rw (p, q, conclude_run) (Grows-at by_sequence put_blob q completed)
              | inr (run, end, q) ↦
                  let links = link_streams source.events run.events in
                  rw (p, q, conclude_run)
                    (save-Grows by_sequence put_blob replay_id
                      (compare_run comparator_for source.events run.events links) from
                      (db_after (link_replay_events links end))
                      (link-Grows by_sequence put_blob links from end
                        (Grows-at by_sequence put_blob q completed)))
            ]
      ]

  -- What goes on during the replay keeps the recordings, too.
  pub run_replay-Grows :
      (outside : Outside) (id : String) (args : Arguments) (hex : String) (now : ℕ) (db : Db)
      → ((d : Db) → Grows by_sequence put_blob d (meanwhile d))
      → Grows by_sequence put_blob db (
          run_db (
            run_replay by_sequence put_blob comparator_for text_of meanwhile outside id args hex now
              db))
  unfolding run_replay
  run_replay-Grows outside id args hex now db busy =
      elim (Bool-cases (ensure_safe args.target args.safety)) [
        | inr unsafe ↦ rw (unsafe, run_replay) same
        | inl safe ↦ elim (Option-cases (get_recording by_sequence put_blob id db)) [
          | inl absent ↦ rw (safe, absent, run_replay) same
          | inr (source, p) ↦
              let begun =
                start-Grows by_sequence put_blob (replay_start source id replay_id args.target) ""
                  now db db same in
              elim (Option-cases (find_recording db.recordings replay_id)) [
                | inr (row, taken) ↦
                    rw
                      (
                        safe,
                        p,
                        start_recording-taken source id hex args.target now db row taken,
                        run_replay,
                      )
                      same
                | inl fresh ↦
                    let started = start_recording-fresh source id hex args.target now db fresh in
                    let grown = Grows-at by_sequence put_blob started begun in
                    let later = Grows-trans by_sequence put_blob grown (busy _) in
                    elim (Replayed-cases (replay_recording outside source args replay_id)) [
                      | inl (refusal, r) ↦
                          rw (safe, p, started, r, run_replay)
                            (fail-Grows by_sequence put_blob replay_id (text_of refusal) db _ fresh
                              grown)
                      | inr (inl (events, r)) ↦
                          rw (safe, p, started, r, run_replay)
                            (conclude_run-Grows source id replay_id args.target events db _ fresh
                              later)
                      | inr (inr r) ↦ rw (safe, p, started, r, run_replay) later
                    ]
              ]
        ]
      ]
    where
      replay_id : String
      replay_id = new_id "rpl" hex

      same : Grows by_sequence put_blob db db
      same = Grows-refl by_sequence put_blob db
