-- ===== src/Examples/Serving.antt =====
-- An instrumented application that serves a checkout request.
use infra_replay.Common.{◌≡◌, refl, true, false, none, some, List, [], ◌∷◌, ◌++◌, map}
use infra_replay.Schema.Value.{ℤ, Value, Items, Fields}
use infra_replay.Schema.Event.{Event, EventType}
use infra_replay.Plugins.PostgresCapture.{
  CaptureContext, Param, Parameters, Listener, jsonable, result_payload,
}
use infra_replay.Agent.{Message, Output, Act, bound_context, flush, serve, start_agent, stop_agent}
use infra_replay.Agent.Posts.{posted_to, with_queue}
use infra_replay.Agent.Conserved.{ShipsAfter, executed, held, serve-ShipsAfter}
use infra_replay.Examples.{event}
use infra_replay.Examples.Storing.{dashes}
use infra_replay.Examples.Proxying.{ticks}

abbrev pub listener : Listener
listener = record { service = "shop"; sequence = 0; queue = []; starts = []; calls = 0 }

abbrev pub active : CaptureContext
active = record { recording_id = "r1"; correlation_id = "c1" }

abbrev insert : Act
insert =
    Act.executes 0 " INSERT "
      (Parameters.by_place (Param.plain (Value.str "x") ∷ Param.object "3.50" ∷ []))
      (record { rowcount = some (ℤ.pos 1); returns_rows = false })

abbrev acts : List Act
acts = insert ∷ Act.sends Message.response_start ∷ insert ∷ []

-- An event of another recording, whose request is still running.
abbrev waiting : List Event
waiting = event "r2" "x1" "c2" 7 1 EventType.pg_query Fields.end ∷ []

abbrev outputs : List Output
outputs =
    (serve dashes ticks none (some active) (acts ++ Act.sends (Message.body false) ∷ [])
      (with_queue listener waiting)).0

ids_posted :
    (map (λ e. e.event_id) (posted_to "r1" outputs)
      ≡ "evt_---" ∷ "evt_----" ∷ "evt_--------" ∷ "evt_---------" ∷ [])
    × (map (λ e. e.event_id) (posted_to "r2" outputs) ≡ "x1" ∷ [])
unfolding serve
ids_posted = (refl, refl)

params_of_insert :
    jsonable (Parameters.by_place (Param.plain (Value.str "x") ∷ Param.object "3.50" ∷ []))
    ≡ Items.cons (Value.str "x") (Items.cons (Value.str "3.50") Items.nil)
unfolding jsonable
params_of_insert = refl

no_row_count :
    result_payload (record { rowcount = some (ℤ.negsuc 0); returns_rows = true })
    ≡ Fields.field "rows_affected" Value.null
        (Fields.field "returns_rows" (Value.bool true) Fields.end)
unfolding result_payload
no_row_count = refl

-- An agent that is stopped and started again finds the sentinel on the queue, and its flush raises.
flush_after_restart : (flush none (start_agent (stop_agent (with_queue listener [])))).count ≡ none
unfolding flush start_agent stop_agent
flush_after_restart = refl

no_context : bound_context (record { type = "http"; headers = [] }) ≡ none
unfolding bound_context
no_context = refl

serve-ShipsAfter_example :
    ShipsAfter
      (held
        (executed dashes ticks active acts (record listener { queue = map some waiting })).queue)
      outputs
serve-ShipsAfter_example = serve-ShipsAfter dashes ticks active acts listener waiting
