-- ===== src/Demo.antt =====
-- The recordings of the demo: infrareplay/demo.py.
use infra_replay.Common.{ℕ, suc, String, Option, some, List, [], ◌∷◌}
use infra_replay.Schema.Event.{Recording}
use infra_replay.Plugins.Fixtures.{Scenario}
use infra_replay.Plugins.MockCapture.{scenario_value, run_plugin}
use infra_replay.Recording.Database.{EventRow, Db, Error, Outcome, done, raised}
use infra_replay.Recording.Service.{capture_recording}

-- `_SCENARIOS`
abbrev pub scenarios : List (Scenario × String)
scenarios =
    (Scenario.clean, "Checkout — clean run")
    ∷ (Scenario.buggy, "Checkout — payment step fails")
    ∷ []

-- What a capture draws: the `uuid4().hex` of its recording, those of its events, and the time.
pub record Draws : Type 0 where
  pub recording_hex : ℕ → String
  pub event_hex : ℕ → ℕ → String
  pub now : ℕ → ℕ

-- `text_of` is `str` of an exception.
module _ (by_sequence : List EventRow → List EventRow) (put_blob : String → Option String)
    (text_of : Error → String) where
  -- `seed`, from the n-th capture on.
  unfoldable pub seed_each : Draws → List (Scenario × String) → ℕ → Db → Outcome (List Recording)
  unfolding capture_recording run_plugin
  seed_each draws [] n db = done [] db
  seed_each draws ((scenario, title) ∷ rest) n db =
      elim (capture_recording by_sequence put_blob
        (run_plugin (draws.event_hex n) (some (scenario_value scenario))) text_of "default" title
        "mock_capture" (draws.recording_hex n) (draws.now n) db) [
          | raised e after ↦ raised e after
          | done rec seeded ↦ elim (seed_each draws rest (suc n) seeded) [
            | raised e after ↦ raised e after
            | done recordings after ↦ done (rec ∷ recordings) after
          ]
        ]

  -- `seed`
  unfoldable pub seed : Draws → Db → Outcome (List Recording)
  unfolding seed_each
  seed draws db = seed_each draws scenarios 0 db
