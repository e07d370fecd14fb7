-- ===== src/Replay/Runner.antt =====
-- One replay from start to comparison: infrareplay/replay/runner.py.
pub mod Refused
pub mod Reported
pub mod Started
pub mod Summary
use infra_replay.Common.{
  ℕ, suc, ◌+◌, String, Bool, true, false, Option, none, some, List, [], ◌∷◌, map, ◌==◌, string_eq,
  if◌then◌else◌,
}
use infra_replay.Common.Text.{joined}
use infra_replay.Common.Dict.{Dict}
use infra_replay.Schema.Event.{Event, EventType, Recording, RecordingKind}
use infra_replay.Schema.Result.{ComparisonResult, ComparisonCategory}
use infra_replay.Recording.Database.{EventRow, Db, Error, Outcome, done, raised, db_after}
use infra_replay.Recording.Service.{
  Start, new_id, start_recording, append_events, fail_recording, finish_recording, get_recording,
  link_replay_events, save_comparison,
}
use infra_replay.Comparison.Engine.{Comparator, compare_run}
use infra_replay.Replay.Engine.{ensure_safe}
use infra_replay.Replay.Linking.{link_streams}
use infra_replay.Replay.Playback.{ReplayError, Replayed, Outside, Arguments, replay_recording}

pub record ReplayRun : Type 0 where
  pub replay_recording_id : String
  pub source_recording_id : String
  pub target : String
  pub event_links : Dict String String

-- The count of each category.
pub record Counts : Type 0 where
  pub match : ℕ
  pub different : ℕ
  pub missing : ℕ
  pub new : ℕ
  pub error : ℕ

abbrev pub no_counts : Counts
no_counts = record { match = 0; different = 0; missing = 0; new = 0; error = 0 }

-- `summary[category] += 1`
abbrev pub count : ComparisonCategory → Counts → Counts
count ComparisonCategory.match c = record c { match = suc c.match }
count ComparisonCategory.different c = record c { different = suc c.different }
count ComparisonCategory.missing c = record c { missing = suc c.missing }
count ComparisonCategory.new c = record c { new = suc c.new }
count ComparisonCategory.error c = record c { error = suc c.error }

unfoldable pub summarise : Counts → List ComparisonResult → Counts
summarise c [] = c
summarise c (result ∷ results) = summarise (count result.category c) results

-- How a run ends: with the run and its summary, or by an exception.
pub data RunError : Type 0 where
  replay_error : ReplayError → RunError
  service_error : Error → RunError
  other_error : RunError

pub data Run : Type 0 where
  finished : ReplayRun → Counts → Db → Run
  failed : RunError → Db → Run

abbrev pub source_title : Recording → String → String
source_title source recording_id = if source.title == "" then recording_id else source.title

unfoldable pub replay_start : Recording → String → String → String → Start
replay_start source recording_id replay_id target = record {
  project = source.project;
  title = joined "Replay of " (source_title source recording_id);
  kind = RecordingKind.replay;
  capture_plugin = "";
  target = some target;
  source_recording_id = some recording_id;
  recording_id = some replay_id;
}

-- `text_of` is `str` of a ReplayError, `comparator_for` the registry's lookup. `meanwhile` is what
-- an instrumented target does to the database while the requests are in flight.
module _ (by_sequence : List EventRow → List EventRow) (put_blob : String → Option String)
    (comparator_for : EventType → Option Comparator) (text_of : ReplayError → String)
    (meanwhile : Db → Db) where
  -- `run_replay` from the end of the replay on.
  unfoldable pub conclude_run : Recording → String → String → String → List Event → Db → Run
  unfolding append_events finish_recording link_streams link_replay_events compare_run
      save_comparison summarise
  conclude_run source recording_id replay_id target replayed db =
      elim (append_events replayed [] db) [
        | raised e after ↦ Run.failed (RunError.service_error e) after
        | done _ stored ↦ elim (finish_recording by_sequence put_blob replay_id stored) [
          | raised e after ↦ Run.failed (RunError.service_error e) after
          | done run completed ↦
              let links = link_streams source.events run.events in
              let linked = db_after (link_replay_events links completed) in
              let results = compare_run comparator_for source.events run.events links in
              Run.finished
                (record {
                  replay_recording_id = replay_id;
                  source_recording_id = recording_id;
                  target = target;
                  event_links = links;
                })
                (summarise no_counts results) (db_after (save_comparison replay_id results linked))
        ]
      ]

  -- `run_replay`, at the time `now`; `hex` is the `uuid4().hex` of the replay's id.
  unfoldable pub run_replay : Outside → String → Arguments → String → ℕ → Db → Run
  unfolding ensure_safe get_recording new_id replay_start start_recording replay_recording
      fail_recording conclude_run
  run_replay outside recording_id args hex now db = elim (ensure_safe args.target args.safety) [
    | false ↦ Run.failed (RunError.replay_error (ReplayError.looks_like_production args.target)) db
    | true ↦ elim (get_recording by_sequence put_blob recording_id db) [
      | none ↦ Run.failed (RunError.replay_error (ReplayError.not_found recording_id)) db
      | some source ↦
          let replay_id = new_id "rpl" hex in
          elim (start_recording (replay_start source recording_id replay_id args.target) "" now
            db) [
              | raised e after ↦ Run.failed (RunError.service_error e) after
              | done _ started ↦ elim (replay_recording outside source args replay_id) [
                | Replayed.refused e ↦
                    Run.failed (RunError.replay_error e)
                      (db_after (fail_recording replay_id (text_of e) started))
                | Replayed.broken ↦ Run.failed RunError.other_error (meanwhile started)
                | Replayed.returned events ↦
                    conclude_run source recording_id replay_id args.target events
                      (meanwhile started)
              ]
            ]
    ]
  ]
