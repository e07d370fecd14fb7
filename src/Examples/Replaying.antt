-- ===== src/Examples/Replaying.antt =====
-- Runs of a recorded checkout request on the mock target.
use infra_replay.Common.{String, ◌≡◌, ◌⊎◌, refl, none, []}
use infra_replay.Recording.Database.{Db}
use infra_replay.Recording.Service.{
  new_id, get_comparison, start_recording, append_events, finish_recording,
}
use infra_replay.Replay.Substitution.{AutoMode}
use infra_replay.Replay.Engine.{SafetyMode}
use infra_replay.Replay.Playback.{ReplayError, Outside, Arguments}
use infra_replay.Replay.Runner.{ReplayRun, Counts, Run, RunError, no_counts, run_replay}
use infra_replay.Replay.Runner.Refused.{AddsFailedReplay, run_replay-refused}
use infra_replay.Replay.Runner.Reported.{Reports, run_replay-Reports}
use infra_replay.Examples.{comparators, letters}
use infra_replay.Examples.Storing.{dashes, in_order, blob_at, started, finished}

abbrev pub outside : Outside
outside = record {
  hex = dashes;
  uuid4 = dashes;
  now_iso = dashes;
  now_ns = dashes;
  time_ns = λ n. n;
  other_word = letters;
  netloc = λ url. url;
  arrivals = [];
}

abbrev to_mock : Arguments
to_mock = record {
  target = "mock";
  safety = SafetyMode.safe;
  substitutions = none;
  auto = AutoMode.off;
  concurrency = 1;
}

abbrev text_of : ReplayError → String
text_of e = "no events"

abbrev untouched : Db → Db
untouched db = db

-- A run of the recording r1.
abbrev run_r1 : Db → Run
run_r1 db =
    run_replay in_order blob_at comparators text_of untouched outside "r1" to_mock
      "0123456789abcdef" 9 db

abbrev run_of : Run → ReplayRun
run_of (Run.finished run counts db) = run
run_of (Run.failed e db) = record {
  replay_recording_id = "";
  source_recording_id = "";
  target = "";
  event_links = [];
}

abbrev counts_of : Run → Counts
counts_of (Run.finished run counts db) = counts
counts_of (Run.failed e db) = no_counts

abbrev db_of : Run → Db
db_of (Run.finished run counts db) = db
db_of (Run.failed e db) = db

r1_finishes :
    run_r1 finished
    ≡ Run.finished
        (run_of (run_r1 finished))
        (counts_of (run_r1 finished))
        (db_of (run_r1 finished))
unfolding run_replay
r1_finishes = refl

none_stored : get_comparison (new_id "rpl" "0123456789abcdef") finished ≡ []
unfolding get_comparison start_recording append_events finish_recording
none_stored = refl

run_replay-Reports_example :
    Reports
      (counts_of (run_r1 finished))
      (run_of (run_r1 finished)).replay_recording_id
      (db_of (run_r1 finished))
run_replay-Reports_example =
    run_replay-Reports in_order blob_at comparators text_of untouched outside "r1" to_mock
      "0123456789abcdef" 9 finished (run_of (run_r1 finished)) (counts_of (run_r1 finished))
      (db_of (run_r1 finished)) none_stored (λ d. refl) r1_finishes

r1_empty :
    run_r1 started
    ≡ Run.failed (RunError.replay_error ReplayError.no_events) (db_of (run_r1 started))
unfolding run_replay start_recording
r1_empty = refl

run_replay-refused_example :
    (db_of (run_r1 started) ≡ started) ⊎ AddsFailedReplay "r1" started (db_of (run_r1 started))
run_replay-refused_example =
    run_replay-refused in_order blob_at comparators text_of untouched outside "r1" to_mock
      "0123456789abcdef" 9 started ReplayError.no_events (db_of (run_r1 started)) r1_empty
