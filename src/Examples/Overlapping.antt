-- ===== src/Examples/Overlapping.antt =====
-- Two requests that overlap in an instrumented application.
use mathlib.Core.List.{Perm}
use infra_replay.Common.{◌≡◌, refl, false, some, [], ◌∷◌, ◌++◌, length, string_eq}
use infra_replay.Common.Dict.{group_by}
use infra_replay.Schema.Value.{ℤ}
use infra_replay.Plugins.PostgresCapture.{
  CaptureContext, Parameters, Cursor, before_execute, after_execute,
}
use infra_replay.Agent.{Message, Output, drain, execute}
use infra_replay.Agent.Posts.{events_of, with_queue}
use infra_replay.Agent.Conserved.{held, added}
use infra_replay.Agent.Shared.{Shared, Move, Reach, idle}
use infra_replay.Agent.Shared.Kept.{places, Reach-places}
use infra_replay.Examples.Storing.{dashes}
use infra_replay.Examples.Proxying.{ticks}
use infra_replay.Examples.Serving.{listener, active}

abbrev other : CaptureContext
other = record { recording_id = "r2"; correlation_id = "c2" }

abbrev one_row : Cursor
one_row = record { rowcount = some (ℤ.pos 1); returns_rows = false }

abbrev ran : CaptureContext → Shared → Shared
ran context s = record s {
  agent = execute dashes ticks 0 "INSERT" (Parameters.by_place []) one_row (some context) s.agent;
  captured =
      s.captured
      ++ added dashes ticks context 0 "INSERT" (Parameters.by_place []) one_row s.agent.plugin;
}

-- Each request has run a statement.
abbrev both : Shared
both = ran other (ran active (idle listener))

abbrev drained : Shared → Shared
drained s = record s {
  agent = with_queue s.agent.plugin [];
  flights = s.flights ++ group_by (λ e. e.recording_id) (held s.agent.plugin.queue) ∷ [];
}

-- The flush of the second request takes what is queued; that of the first finds nothing, and the
-- response of the first ships.
abbrev shipped : Shared
shipped = record (drained (drained both)) {
  flights = (drained both).flights ++ [];
  outputs = [] ++ Output.sent (Message.body false) ∷ [];
}

path : Reach dashes ticks (idle listener) shipped
unfolding drain before_execute after_execute group_by
path =
    Reach.next
      (Reach.next
        (Reach.next
          (Reach.next
            (Reach.next Reach.here
              (Move.executes active 0 "INSERT" (Parameters.by_place []) one_row (idle listener)))
            (Move.executes other 0 "INSERT" (Parameters.by_place []) one_row
              (ran active (idle listener))))
          (Move.drains (held both.agent.plugin.queue) (with_queue both.agent.plugin []) both refl))
        (Move.drains [] (with_queue both.agent.plugin []) (drained both) refl))
      (Move.ships (drained both).flights [] (drained (drained both)) refl)

-- Then the response of the first request is out, and none of its two events is posted.
shipped_before_posted :
    (shipped.outputs ≡ Output.sent (Message.body false) ∷ [])
    × (length (events_of "r1" shipped.captured) ≡ 2)
unfolding before_execute after_execute
shipped_before_posted = (refl, refl)

Reach-places_example :
    Perm (events_of "r1" shipped.captured) (places "r1" shipped (held shipped.agent.plugin.queue))
Reach-places_example = Reach-places dashes ticks listener path "r1"
