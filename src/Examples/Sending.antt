-- ===== src/Examples/Sending.antt =====
-- The laws of sending, at two requests whose answers arrive in the other order.
use infra_replay.Common.{
  ℕ, zero, suc, ◌≤◌, ◌<◌, String, ◌≡◌, refl, true, false, none, some, List, [], ◌∷◌, map, concat,
  length, contains, arith, All, nat_eq,
}
use infra_replay.Schema.Value.{Value, Fields}
use infra_replay.Schema.Event.{Event}
use infra_replay.Replay.HttpTarget.{HttpTarget, Progress, Response, Answer}
use infra_replay.Replay.Engine.{SafetyMode, Slot, ensure_safe, batches, send_all, run_batch}
use infra_replay.Replay.Engine.Batches.{batches-concat}
use infra_replay.Replay.Engine.Gather.{run_batch-AreExchanges}
use infra_replay.Replay.Engine.Flight.{AreExchanges, HasDistinctSequences}
use infra_replay.Replay.Engine.Returned.{run_batch_returns}
use infra_replay.Examples.{request_payload}

abbrev hex : ℕ → String
hex n = "0123456789abcdef"

abbrev tick : ℕ → ℕ
tick n = n

abbrev shop : HttpTarget
shop = record { base_url = "http://shop.test"; recording_id = "rpl_1"; service = "shop.test" }

abbrev begin : Progress
begin = record { sequence = 0; calls = 0 }

abbrev created : Response
created = record {
  status_code = 201;
  headers = Fields.end;
  content_type = "application/json; charset=utf-8";
  json = some (Value.str "ok");
  text = "\"ok\"";
}

abbrev two : List Fields
two = request_payload ∷ Fields.end ∷ []

-- The second request is answered first, the first one fails.
abbrev arrivals : List (ℕ × Answer)
arrivals = (1, Answer.responded created) ∷ (0, Answer.request_error "ConnectError: refused") ∷ []

abbrev two_sent : List Slot × Progress
two_sent = elim (send_all hex tick shop two begin) [ none ↦ ([], begin) | some x ↦ x ]

abbrev two_done : List Event × Progress
two_done = elim (run_batch hex tick shop two arrivals begin) [ none ↦ ([], begin) | some x ↦ x ]

sequences_of_two : map (λ e. e.sequence) two_done.0 ≡ 0 ∷ 3 ∷ 1 ∷ 2 ∷ []
unfolding run_batch
sequences_of_two = refl

refused : ensure_safe "https://api.PROD.example" SafetyMode.safe ≡ false
unfolding ensure_safe
refused = refl

allowed : ensure_safe "https://api.PROD.example" SafetyMode.unsafe ≡ true
unfolding ensure_safe
allowed = refl

both_answered :
    (place : ℕ) → place < 2 → contains (map (λ (a : ℕ × Answer). a.0) arrivals) place ≡ true
both_answered zero h = refl
both_answered (suc zero) h = refl
both_answered (suc (suc place)) h = absurd (omega arith)

run_batch-AreExchanges_example : AreExchanges two_done.0 × HasDistinctSequences two_done.0
unfolding run_batch
run_batch-AreExchanges_example =
    run_batch-AreExchanges hex tick shop two arrivals begin two_done.0 two_done.1 refl

run_batch_returns_example :
    (events : List Event) × (after : Progress) × (run_batch hex tick shop two arrivals begin
      ≡ some (events, after))
    × (length events ≡ 4)
unfolding send_all
run_batch_returns_example =
    run_batch_returns hex tick shop two arrivals begin two_sent.0 two_sent.1 refl both_answered

batches-concat_example :
    (concat (batches two 1) ≡ two)
    × All (λ batch. (1 ≤ length batch) × (length batch ≤ 1)) (batches two 1)
batches-concat_example = batches-concat two 1 (omega arith)
