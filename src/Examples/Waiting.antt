-- ===== src/Examples/Waiting.antt =====
-- The scripts of the container.
use infra_replay.Common.{
  ℕ, String, ◌≡◌, refl, arith, ◌*◌, ◌==◌, string_eq, if◌then◌else◌, Bool, false, true, Option, none,
  some, [], ◌∷◌,
}
use infra_replay.Schema.Value.{Value, Items, Fields}
use infra_replay.Cli.Printed.{crashed, printed}
use infra_replay.Container.{Waiting, Fetched, wait_for_api, healthcheck, seed_container}
use infra_replay.Container.Waited.{Ends, wait_for_api-Ends}

abbrev ticks : ℕ → ℕ
ticks n = 500 * n

abbrev is_down : ℕ → Bool
is_down n = false

wait_for_api-Ends_example : Ends ticks is_down 60000 1 (wait_for_api ticks is_down 121)
wait_for_api-Ends_example = wait_for_api-Ends ticks is_down (omega arith) (λ k. omega arith)

never_answered : wait_for_api ticks is_down 121 ≡ Waiting.timed_out
unfolding wait_for_api
never_answered = refl

abbrev no_env : String → Option String
no_env name = none

abbrev shop_down : String → Option String
shop_down url = if url == "http://127.0.0.1:3000/health" then some "timeout" else none

first_unhealthy_named :
    (healthcheck no_env shop_down).err ≡ "all: http://127.0.0.1:3000/health unhealthy: timeout" ∷ []
unfolding healthcheck
first_unhealthy_named = refl

-- An error that the API answers to the seeding is a dict, whose keys are no recordings: the script ends
-- with an exception.
seed_refused :
    seed_container
      (λ v. "")
      "http://api"
      true
      Waiting.answered
      (Fetched.json (Value.arr Items.nil))
      (Fetched.json (Value.obj (Fields.field "detail" (Value.str "error") Fields.end)))
    ≡ crashed []
unfolding seed_container infra_replay.Cli.Printed.print_each
seed_refused = refl
