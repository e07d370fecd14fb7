-- ===== src/Container.antt =====
-- The scripts of the container: docker/healthcheck.py and docker/seed.py. What the environment holds,
-- what a request answers and the readings of the clock are arguments.
pub mod Waited
use infra_replay.Common.{
  ℕ, zero, suc, ◌+◌, String, Bool, true, false, Option, none, some, List, [], ◌∷◌, ◌++◌, ltb, ◌==◌,
  string_eq, if◌then◌else◌,
}
use infra_replay.Common.Text.{joined}
use infra_replay.Schema.Value.{Value, Items, Fields}
use infra_replay.Cli.Printed.{
  Piece, Output, decimal, line, is_true, size_of, printed, crashed, print_rows,
}

abbrev getenv : (String → Option String) → String → String → String
getenv env name default = elim (env name) [ none ↦ default | some value ↦ value ]

-- `http://127.0.0.1:<port><path>`
abbrev local_url : (String → Option String) → String → String → String → String
local_url env name default path = joined "http://127.0.0.1:" (joined (getenv env name default) path)

abbrev api : (String → Option String) → String
api env = local_url env "INFRAREPLAY_API_PORT" "8000" "/health"

abbrev shop : (String → Option String) → String
shop env = local_url env "DEMO_SHOP_PORT" "3000" "/health"

abbrev dashboard : (String → Option String) → String
dashboard env = local_url env "INFRAREPLAY_DASHBOARD_PORT" "8080" "/"

-- `_URLS_BY_ROLE.get(role, [_API])`
abbrev pub urls_for : (String → Option String) → String → List String
urls_for env role =
    if role == "shop"
    then shop env ∷ []
    else if role == "dashboard"
    then dashboard env ∷ []
    else if role == "all"
    then api env ∷ shop env ∷ dashboard env ∷ []
    else api env ∷ []

-- The loop of `main`: `fetch` is none where the answer is fine, else the text of the HTTPError.
unfoldable pub check_urls : (String → Option String) → String → List String → Output
check_urls fetch role [] = printed []
check_urls fetch role (url ∷ urls) = elim (fetch url) [
  | none ↦ check_urls fetch role urls
  | some e ↦ record {
    out = [];
    err = joined role (joined ": " (joined url (joined " unhealthy: " e))) ∷ [];
    files = [];
    code = some 1;
  }
]

-- `main` of the health check.
unfoldable pub healthcheck : (String → Option String) → (String → Option String) → Output
unfolding check_urls
healthcheck env fetch =
    let role = getenv env "INFRAREPLAY_ROLE" "all" in check_urls fetch role (urls_for env role)

-- How `wait_for_api` ends; the third is for fuel that is spent.
pub data Waiting : Type 0 where
  answered timed_out running : Waiting

-- The loop of `wait_for_api` from the n-th reading of the clock on, on fuel.
unfoldable pub poll : (ℕ → ℕ) → (ℕ → Bool) → ℕ → ℕ → ℕ → Waiting
poll clock healthy deadline zero n = Waiting.running
poll clock healthy deadline (suc fuel) n =
    let rest = poll clock healthy deadline fuel (suc n) in
    if ltb (clock n) deadline
    then if healthy n then Waiting.answered else rest
    else Waiting.timed_out

-- `wait_for_api`; a reading is in milliseconds.
unfoldable pub wait_for_api : (ℕ → ℕ) → (ℕ → Bool) → ℕ → Waiting
unfolding poll
wait_for_api clock healthy fuel = poll clock healthy (clock 0 + 60000) fuel 1

-- What a request of `main` comes to: JSON, a body that is none, or an HTTPError with its text.
pub data Fetched : Type 0 where
  json : Value → Fetched
  not_json : Fetched
  http_error : String → Fetched

abbrev skipped : String → Output
skipped text = record { out = []; err = text ∷ []; files = []; code = some 0 }

abbrev seeded : (Value → String) → Fetched → Output
seeded repr (json rows) =
    print_rows
      (line repr (
        Piece.plain "seeded "
        ∷ Piece.shown "recording_id"
        ∷ Piece.plain "  "
        ∷ Piece.shown "title"
        ∷ []))
      rows
seeded repr not_json = crashed []
seeded repr (http_error e) = skipped (joined "seed skipped: " e)

abbrev counted_line : Option ℕ → Output
counted_line none = crashed []
counted_line (some n) = printed (joined (decimal n) " recordings already stored; not seeding" ∷ [])

-- `main` of the seeding, by how the wait has ended.
unfoldable pub seed_container :
    (Value → String) → String → Bool → Waiting → Fetched → Fetched → Output
unfolding line
seed_container repr api_url seed Waiting.timed_out existing answer =
    skipped (joined "api did not answer at " (joined api_url "; skipping seed"))
seed_container repr api_url seed Waiting.running existing answer = crashed []
seed_container repr api_url false Waiting.answered existing answer = printed []
seed_container repr api_url true Waiting.answered (json existing) answer =
    if is_true existing then counted_line (size_of existing) else seeded repr answer
seed_container repr api_url true Waiting.answered not_json answer = crashed []
seed_container repr api_url true Waiting.answered (http_error e) answer =
    skipped (joined "seed skipped: " e)
