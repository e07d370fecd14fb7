-- ===== src/Plugins/MockCapture.antt =====
-- The capture plugin of the fixtures: infrareplay/plugins/mock_capture/plugin.py. `hex` answers the n-th
-- call of `uuid4().hex`.
use infra_replay.Common.{
  ℕ, String, Bool, true, false, Option, none, some, List, [], ◌==◌, string_eq, if◌then◌else◌,
}
use infra_replay.Common.Text.{joined}
use infra_replay.Schema.Event.{Event}
use infra_replay.Plugins.Fixtures.{Scenario, build}

-- `_events` and `_started`.
pub record MockCapturePlugin : Type 0 where
  pub events : List Event
  pub started : Bool

abbrev pub new_plugin : MockCapturePlugin
new_plugin = record { events = []; started = false }

-- `Scenario.value`, and `Scenario(value)`, none where that raises a ValueError.
abbrev pub scenario_value : Scenario → String
scenario_value Scenario.clean = "clean"
scenario_value Scenario.buggy = "buggy"

abbrev pub scenario_of : String → Option Scenario
scenario_of value =
    if value == "clean"
    then some Scenario.clean
    else if value == "buggy"
    then some Scenario.buggy
    else none

-- `config.get("scenario", Scenario.CLEAN.value)`
abbrev or_clean : Option String → String
or_clean none = scenario_value Scenario.clean
or_clean (some value) = value

-- `start`; none where it raises.
unfoldable pub start :
    (ℕ → String) → String → Option String → MockCapturePlugin → Option MockCapturePlugin
unfolding build
start hex recording_id scenario self = elim (scenario_of (or_clean scenario)) [
  | none ↦ none
  | some chosen ↦ some (record { events = build hex recording_id chosen; started = true })
]

-- `stop`
abbrev pub stop : MockCapturePlugin → MockCapturePlugin
stop self = record self { started = false }

-- `events`; none where it raises, as the plugin is not started.
unfoldable pub yielded : MockCapturePlugin → Option (List Event)
yielded self = if self.started then some self.events else none

-- The plugin as capture_recording drives it: what it yields, and the text of what it raises.
unfoldable pub run_plugin : (ℕ → String) → Option String → String → List Event × Option String
unfolding start yielded
run_plugin hex scenario recording_id = elim (start hex recording_id scenario new_plugin) [
  | none ↦ ([], some (joined "'" (joined (or_clean scenario) "' is not a valid Scenario")))
  | some started ↦ elim (yielded started) [
    | none ↦ ([], some "MockCapturePlugin.events() before start()")
    | some events ↦ (events, none)
  ]
]
