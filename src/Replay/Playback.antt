-- ===== src/Replay/Playback.antt =====
-- The choice of a target and the replay against it: infrareplay/replay/engine.py, from
-- replay_recording to _replay_http, and the capture plugin of the fixtures,
-- infrareplay/plugins/mock_capture/plugin.py.
-- `hex` answers the n-th call of `uuid4().hex`, `uuid4` the n-th call of `uuid4()` by the
-- substitutions, `netloc` is `urlparse(url).netloc`.
use Prim.Native.Nat.{max}
use infra_replay.Common.{
  ℕ, String, Bool, true, false, ◌||◌, Option, none, some, List, [], ◌∷◌, ◌++◌, map, select, ◌==◌,
  nat_eq, string_eq, if◌then◌else◌,
}
use infra_replay.Common.Text.{codes, starts_with, rstrip}
use infra_replay.Common.Dict.{Dict, get, set}
use infra_replay.Schema.Value.{Fields}
use infra_replay.Schema.Event.{Event, Recording, http_request, type_eq}
use infra_replay.Plugins.Fixtures.{Scenario, build}
use infra_replay.Replay.Substitution.{
  AutoMode, Memory, Substitution, apply, apply_all, new_substitution,
}
use infra_replay.Replay.HttpTarget.{HttpTarget, Progress, Answer}
use infra_replay.Replay.Engine.{SafetyMode, ensure_safe, batches, run_batch}

pub data ReplayError : Type 0 where
  looks_like_production unsupported_target not_found : String → ReplayError
  no_events no_requests : ReplayError

-- `replay_recording` returns, or raises a ReplayError, or ends in another way: with another
-- exception, or never, as an answer is still out.
pub data Replayed : Type 0 where
  returned : List Event → Replayed
  refused : ReplayError → Replayed
  broken : Replayed

-- `{e.sequence: e for e in events}`
unfoldable pub by_sequence : Dict ℕ Event → List Event → Dict ℕ Event
unfolding set
by_sequence d [] = d
by_sequence d (e ∷ events) = by_sequence (set d e.sequence e) events

abbrev pub first_correlation_id : List Event → String
first_correlation_id [] = ""
first_correlation_id (e ∷ events) = e.correlation_id

module _ (uuid4 : ℕ → String) where
  -- The loop of `_replay_mock` over the source's events.
  unfoldable pub stand_ins : Substitution → Dict ℕ Event → String → List Event → Memory → List Event
  unfolding get apply
  stand_ins subs canonical correlation_id [] m = []
  stand_ins subs canonical correlation_id (original ∷ events) m =
      let (payload, after) = apply uuid4 subs original.payload m in
      elim (get canonical original.sequence) [
        | none ↦ stand_ins subs canonical correlation_id events m
        | some stand_in ↦ elim (original.event_type == http_request) [
          | true ↦
              record stand_in { payload = payload; correlation_id = correlation_id }
              ∷ stand_ins subs canonical correlation_id events after
          | false ↦
              record stand_in { correlation_id = correlation_id }
              ∷ stand_ins subs canonical correlation_id events m
        ]
      ]

  -- `_replay_mock`
  unfoldable pub replay_mock :
      (ℕ → String) → Recording → String → Substitution → Memory → List Event
  unfolding build by_sequence stand_ins
  replay_mock hex source replay_recording_id subs m =
      let canonical = build hex replay_recording_id Scenario.clean in
      stand_ins subs (by_sequence [] canonical) (first_correlation_id canonical) source.events m

-- The batches one after the other; none if one does not return.
unfoldable pub run_batches :
    (ℕ → String)
    → (ℕ → ℕ)
    → HttpTarget
    → List (List Fields)
    → List (List (ℕ × Answer))
    → Progress
    → Option (List Event)
unfolding run_batch
run_batches hex time_ns target [] arrivals p = some []
run_batches hex time_ns target (batch ∷ rest) [] p = none
run_batches hex time_ns target (batch ∷ rest) (first ∷ arrivals) p =
    elim (run_batch hex time_ns target batch first p) [
      | none ↦ none
      | some (events, after) ↦ elim (run_batches hex time_ns target rest arrivals after) [
        | none ↦ none
        | some more ↦ some (events ++ more)
      ]
    ]

-- What is outside of a replay.
pub record Outside : Type 0 where
  pub hex : ℕ → String
  pub uuid4 : ℕ → String
  pub now_iso : ℕ → String
  pub now_ns : ℕ → String
  pub time_ns : ℕ → ℕ
  pub other_word : ℕ → Bool
  pub netloc : String → String
  pub arrivals : List (List (ℕ × Answer))

-- The keyword arguments of `replay_recording`.
pub record Arguments : Type 0 where
  pub target : String
  pub safety : SafetyMode
  pub substitutions : Option (Dict String String)
  pub auto : AutoMode
  pub concurrency : ℕ

abbrev or_url : String → String → String
or_url service url = if service == "" then url else service

unfoldable pub new_target : Outside → String → String → HttpTarget
unfolding rstrip
new_target outside url recording_id = record {
  base_url = rstrip b'/' url;
  recording_id = recording_id;
  service = or_url (outside.netloc url) url;
}

-- `_replay_http`
unfoldable pub replay_http :
    Outside → Recording → String → String → Substitution → Memory → ℕ → Replayed
unfolding apply_all batches run_batches new_target
replay_http outside source replay_recording_id target subs m concurrency =
    elim (select (λ e. e.event_type == http_request) source.events) [
      | [] ↦ Replayed.refused ReplayError.no_requests
      | ◌∷◌ first rest ↦
          let payloads = (apply_all outside.uuid4 subs (map (λ e. e.payload) (first ∷ rest)) m).0 in
          elim (run_batches outside.hex outside.time_ns
            (new_target outside target replay_recording_id) (batches payloads (max concurrency 1))
            outside.arrivals (record { sequence = 0; calls = 0 })) [
              | none ↦ Replayed.broken
              | some events ↦ Replayed.returned events
            ]
    ]

abbrev is_http : String → Bool
is_http target =
    starts_with (codes target) (codes "http://") || starts_with (codes target) (codes "https://")

-- `replay_recording`
unfoldable pub replay_recording : Outside → Recording → Arguments → String → Replayed
unfolding ensure_safe new_substitution replay_mock replay_http starts_with
replay_recording outside source args replay_recording_id =
    elim (ensure_safe args.target args.safety) [
      | false ↦ Replayed.refused (ReplayError.looks_like_production args.target)
      | true ↦ elim source.events [
        | [] ↦ Replayed.refused ReplayError.no_events
        | ◌∷◌ first rest ↦
            let (subs, m) =
              new_substitution outside.other_word outside.uuid4 outside.now_iso outside.now_ns
                args.substitutions args.auto 0 in
            if args.target == "mock"
            then Replayed.returned
                (replay_mock outside.uuid4 outside.hex source replay_recording_id subs m)
            else if is_http args.target
            then replay_http outside source replay_recording_id args.target subs m args.concurrency
            else Replayed.refused (ReplayError.unsupported_target args.target)
      ]
    ]
