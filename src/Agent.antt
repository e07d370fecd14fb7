-- ===== src/Agent.antt =====
-- The capture agent of an instrumented application: infrareplay/agent/agent.py.
pub mod Posts
pub mod Conserved
pub mod Shared
use infra_replay.Common.{
  ℕ, zero, suc, String, Bool, true, false, Option, none, some, List, [], ◌∷◌, ◌++◌, map, length,
  ◌==◌, string_eq, if◌then◌else◌,
}
use infra_replay.Common.Dict.{Dict, get, set, group_by}
use infra_replay.Schema.Event.{Event}
use infra_replay.Replay.HttpTarget.{recording_header, correlation_header}
use infra_replay.Plugins.PostgresCapture.{
  CaptureContext, Parameters, Cursor, Listener, before_execute, after_execute,
}

-- The agent's plugin, and whether it has a stream.
pub record CaptureAgent : Type 0 where
  pub plugin : Listener
  pub streaming : Bool

-- `start`
unfoldable pub start_agent : CaptureAgent → CaptureAgent
start_agent agent = record agent { streaming = true }

-- `stop`, which puts the sentinel on the queue.
unfoldable pub stop_agent : CaptureAgent → CaptureAgent
stop_agent agent = record {
  plugin = record agent.plugin { queue = agent.plugin.queue ++ none ∷ [] };
  streaming = false;
}

-- What an agent does for others to see: a post of events to a recording, and a message to the client.
-- A body message says whether more follows.
pub data Message : Type 0 where
  response_start : Message
  body : Bool → Message

pub data Output : Type 0 where
  posted : String → List Event → Output
  sent : Message → Output

-- The loop of `_drain`: the events, or none if it takes the sentinel, where `anext` raises; and what
-- is left on the queue.
unfoldable pub drain_queue : List (Option Event) → Option (List Event) × List (Option Event)
drain_queue [] = (some [], [])
drain_queue (none ∷ queue) = (none, queue)
drain_queue (some e ∷ queue) =
    let (events, rest) = drain_queue queue in
    elim events [ none ↦ (none, rest) | some more ↦ (some (e ∷ more), rest) ]

-- `_drain`
unfoldable pub drain : CaptureAgent → Option (List Event) × CaptureAgent
unfolding drain_queue
drain agent =
    if agent.streaming
    then (let (events, rest) = drain_queue agent.plugin.queue in
        (events, record agent { plugin = record agent.plugin { queue = rest } }))
    else (some [], agent)

-- The posts of a flush, in order, and whether all were answered. `fails` is none, or the number of
-- posts after which the client raises an httpx.HTTPError.
unfoldable pub post_all : Option ℕ → Dict String (List Event) → List Output × Bool
post_all fails [] = ([], true)
post_all none ((recording_id, batch) ∷ batches) =
    let (outputs, ok) = post_all none batches in (Output.posted recording_id batch ∷ outputs, ok)
post_all (some zero) (b ∷ batches) = ([], false)
post_all (some (suc n)) ((recording_id, batch) ∷ batches) =
    let (outputs, ok) = post_all (some n) batches in
    (Output.posted recording_id batch ∷ outputs, ok)

-- What `flush` does: the posts, and the number that it returns, or none where it raises.
pub record Flushed : Type 0 where
  pub outputs : List Output
  pub count : Option ℕ
  pub agent : CaptureAgent

-- `flush` from the end of `_drain` on.
unfoldable pub post_drained : Option ℕ → Option (List Event) × CaptureAgent → Flushed
unfolding group_by post_all
post_drained fails (none, agent) = record { outputs = []; count = none; agent = agent }
post_drained fails (some [], agent) = record { outputs = []; count = some 0; agent = agent }
post_drained fails (some (e ∷ events), agent) =
    let (outputs, ok) = post_all fails (group_by (λ x. x.recording_id) (e ∷ events)) in
    record {
      outputs = outputs;
      count = if ok then some (length (e ∷ events)) else some 0;
      agent = agent;
    }

-- `flush`
unfoldable pub flush : Option ℕ → CaptureAgent → Flushed
unfolding drain post_drained
flush fails agent = post_drained fails (drain agent)

-- What the application does on a request: it runs a statement on a connection, or sends a message.
pub data Act : Type 0 where
  executes : ℕ → String → Parameters → Cursor → Act
  sends : Message → Act

-- An ASGI scope: its type, and the headers as the decoded pairs.
pub record Scope : Type 0 where
  pub type : String
  pub headers : List (String × String)

-- `{k.lower(): v for k, v in headers}`; ASGI gives the names in lower case.
unfoldable pub header_dict : Dict String String → List (String × String) → Dict String String
unfolding set
header_dict d [] = d
header_dict d ((k, v) ∷ headers) = header_dict (set d k v) headers

-- The context that the middleware binds, or none where it hands the request on as it is.
unfoldable pub bound_context : Scope → Option CaptureContext
unfolding get header_dict
bound_context scope =
    if scope.type == "http"
    then elim (get (header_dict [] scope.headers) recording_header) [
      | none ↦ none
      | some recording_id ↦
          if recording_id == ""
          then none
          else some (record {
            recording_id = recording_id;
            correlation_id = elim (get (header_dict [] scope.headers) correlation_header) [
              | none ↦ recording_id
              | some correlation_id ↦ correlation_id
            ];
          })
    ]
    else none

module _ (hex : ℕ → String) (time_ns : ℕ → ℕ) where
  -- A statement, in a context: SQLAlchemy calls the listeners before and after it, which are attached
  -- from start to stop.
  abbrev pub execute :
      ℕ → String → Parameters → Cursor → Option CaptureContext → CaptureAgent → CaptureAgent
  execute conn statement parameters cursor context agent =
      if agent.streaming
      then record agent {
        plugin =
            after_execute hex time_ns conn statement parameters cursor context
              (before_execute hex time_ns conn agent.plugin);
      }
      else agent

module _ (hex : ℕ → String) (time_ns : ℕ → ℕ) (fails : Option ℕ) where
  -- `CaptureMiddleware.__call__`: what the application does, with `flushing_send` in place of `send`
  -- where a context is bound. It ends where `flush` raises.
  unfoldable pub serve :
      Option CaptureContext → List Act → CaptureAgent → List Output × CaptureAgent
  unfolding before_execute after_execute flush
  serve context [] agent = ([], agent)
  serve context (Act.executes conn statement parameters cursor ∷ acts) agent =
      serve context acts (execute hex time_ns conn statement parameters cursor context agent)
  serve none (Act.sends message ∷ acts) agent =
      let (outputs, after) = serve none acts agent in (Output.sent message ∷ outputs, after)
  serve (some active) (Act.sends Message.response_start ∷ acts) agent =
      let (outputs, after) = serve (some active) acts agent in
      (Output.sent Message.response_start ∷ outputs, after)
  serve (some active) (Act.sends (Message.body true) ∷ acts) agent =
      let (outputs, after) = serve (some active) acts agent in
      (Output.sent (Message.body true) ∷ outputs, after)
  serve (some active) (Act.sends (Message.body false) ∷ acts) agent =
      let flushed = flush fails agent in
      let (outputs, after) = serve (some active) acts flushed.agent in
      elim flushed.count [
        | none ↦ (flushed.outputs, flushed.agent)
        | some n ↦ (flushed.outputs ++ Output.sent (Message.body false) ∷ outputs, after)
      ]
