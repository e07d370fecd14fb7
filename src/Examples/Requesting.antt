-- ===== src/Examples/Requesting.antt =====
-- Requests to the HTTP interface.
use infra_replay.Common.Text.{joined}
use infra_replay.Common.{
  ℕ, String, zero, suc, ◌%◌, ◌/◌, ◌*◌, ◌+◌, ◌==◌, nat_eq, if◌then◌else◌, ◌≡◌, refl, false, none,
  some, List, [], ◌∷◌, map,
}
use infra_replay.Schema.Value.{Fields}
use infra_replay.Schema.Event.{Event, EventType}
use infra_replay.Recording.Service.Stored.{empty_db}
use infra_replay.Demo.{Draws}
use infra_replay.Recording.Portable.Bundle.{build_bundle}
use infra_replay.Capture.{Captures, Starts, SessionError}
use infra_replay.Replay.Playback.{ReplayError}
use infra_replay.Api.{
  Outer, seed, start_capture, captures, ingest, stop_capture, import_bundle, validate_bundle,
  create_replay, comparison, recording,
}
use infra_replay.Api.Answers.{
  not_found, bad_request, Detail, Answer, CaptureRequest, ReplayRequest, Validation,
}
use infra_replay.Api.Served.{Step, Reach, IsSound, Reach-IsSound}
use infra_replay.Api.Validated.{IsPromised, validate_bundle-IsPromised}
use infra_replay.Examples.{arrived, comparators, event}
use infra_replay.Examples.Storing.{dashes, in_order, blob_at, bundled}
use infra_replay.Examples.Moving.{dump_event, dump_recording, validate_event, validate_recording}
use infra_replay.Examples.Replaying.{outside}

abbrev outer : Outer
outer = record {
  by_sequence = in_order;
  put_blob = blob_at;
  comparator_for = comparators;
  replay_text = λ e. "no events";
  error_text = λ e. "integrity error";
  hex = dashes;
  dump_event = dump_event;
  dump_recording = dump_recording;
  migrations = [];
  fuel = 0;
  validate_event = validate_event;
  validate_recording = validate_recording;
}

abbrev nothing : Captures
nothing = record { db = empty_db; sessions = [] }

abbrev capture_request : CaptureRequest
capture_request = record {
  plugin = "http_capture";
  project = "shop";
  title = "";
  upstream = some "http://shop";
}

abbrev opened : Captures
opened = (start_capture (Starts.listens 8080) capture_request "0123456789abcdef" 7 nothing).1

abbrev posted_event : List Event
posted_event = event "" "x1" "c1" 0 1 EventType.http_request Fields.end ∷ []

abbrev ingested : Captures
ingested = (ingest "rec_0123456789ab" posted_event opened).1

abbrev completed : Captures
completed = (stop_capture outer "rec_0123456789ab" [] ingested).1

abbrev replay_request : ReplayRequest
replay_request = record {
  recording_id = "rec_0123456789ab";
  target = "mock";
  is_unsafe = false;
  substitutions = none;
  auto_substitute = false;
  concurrency = 1;
}

abbrev replayed : Captures
replayed = (create_replay outer outside replay_request "fedcba9876543210" 9 [] completed).1

-- A capture that is stopped and replayed.
requested : Reach outer nothing replayed
requested =
    Reach.next
      (Reach.next
        (Reach.next
          (Reach.next Reach.here
            (Step.starts (Starts.listens 8080) capture_request "0123456789abcdef" 7 nothing))
          (Step.ingests "rec_0123456789ab" posted_event opened))
        (Step.stops "rec_0123456789ab" [] ingested))
      (Step.replays outside replay_request "fedcba9876543210" 9 [] completed)

-- Twelve binary digits, the lowest first.
abbrev bits : ℕ → ℕ → String
bits zero k = ""
bits (suc n) k = joined (if k % 2 == 0 then "0" else "1") (bits n (k / 2))

abbrev draws : Draws
draws = record { recording_hex = bits 12; event_hex = λ n k. bits 12 (64 * n + k); now = λ n. n }

abbrev bundle : Fields
bundle = build_bundle dump_event dump_recording "2026-01-01" bundled

codes_of_answers :
    (recording outer "r9" replayed ≡ Answer.http_exception not_found (Detail.no_recording "r9"))
    × (comparison "rec_0123456789ab" replayed
        ≡ Answer.http_exception not_found Detail.no_comparison)
    × ((stop_capture outer "rec_0123456789ab" [] replayed).0
        ≡ Answer.http_exception bad_request
            (Detail.of_session (SessionError.capture_error "rec_0123456789ab")))
unfolding start_capture ingest stop_capture create_replay recording comparison
    infra_replay.Comparison.Comparators.builtin_comparator
codes_of_answers = (refl, refl, refl)

captures_listed : map (λ c. c.listen_port) (captures opened) ≡ 8080 ∷ []
unfolding start_capture captures
captures_listed = refl

-- A target that looks like production is refused, and nothing is written.
production_refused :
    create_replay outer outside (record replay_request { target = "https://prod" }) "" 9 [] opened
    ≡ (
      Answer.http_exception bad_request
          (Detail.of_replay (ReplayError.looks_like_production "https://prod")),
      opened,
    )
unfolding start_capture create_replay
production_refused = refl

-- The demo's recordings have fourteen events each.
seeded_titles :
    map (λ r. r.title) (seed outer draws nothing).1.db.recordings
    ≡ "Checkout — clean run" ∷ "Checkout — payment step fails" ∷ []
unfolding seed
seeded_titles = refl

Reach-IsSound_example : IsSound replayed
Reach-IsSound_example = Reach-IsSound outer (λ P rows h. h) requested

-- A bundle with the events that are stored already, under another recording.
abbrev stored : Captures
stored = (ingest "rec_0123456789ab" arrived opened).1

valid_but_not_imported :
    (validate_bundle outer bundle ≡ Answer.answered (Validation.valid "r1" 4 1))
    × ((import_bundle outer bundle "" 9 stored).0 ≡ Answer.unhandled)
unfolding start_capture ingest validate_bundle import_bundle build_bundle
valid_but_not_imported = (refl, refl)

validate_bundle-IsPromised_example :
    IsPromised nothing (validate_bundle outer bundle) (import_bundle outer bundle "" 9 nothing)
validate_bundle-IsPromised_example = validate_bundle-IsPromised outer bundle "" 9 nothing
