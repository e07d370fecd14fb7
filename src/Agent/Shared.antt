-- ===== src/Agent/Shared.antt =====
-- The agent among requests that overlap: infrareplay/agent/agent.py. They share its queue, and a flush
-- awaits its posts one by one, so that others run in between.
pub mod Kept
use infra_replay.Common.{ℕ, String, Bool, false, some, List, [], ◌∷◌, ◌++◌, ◌≡◌, string_eq}
use infra_replay.Common.Dict.{Dict, group_by}
use infra_replay.Schema.Event.{Event}
use infra_replay.Plugins.PostgresCapture.{
  CaptureContext, Parameters, Cursor, Listener, before_execute, after_execute,
}
use infra_replay.Agent.{CaptureAgent, Message, Output, drain, execute}
use infra_replay.Agent.Conserved.{added}
use infra_replay.Agent.Posts.{with_queue}

-- The batches that a flush has not posted yet.
abbrev pub Flight : Type 0
Flight = Dict String (List Event)

-- The agent, the flushes in progress, what others have seen, in order, the batches that the client
-- gave up, and all events that the statements have put on the queue.
pub record Shared : Type 0 where
  pub agent : CaptureAgent
  pub flights : List Flight
  pub outputs : List Output
  pub unanswered : Flight
  pub captured : List Event

abbrev pub idle : Listener → Shared
idle plugin = record {
  agent = with_queue plugin [];
  flights = [];
  outputs = [];
  unanswered = [];
  captured = [];
}

module _ (hex : ℕ → String) (time_ns : ℕ → ℕ) where
  -- What one of the requests does next: it runs a statement, sends a message before which nothing is
  -- flushed, drains the queue, posts the next batch, gives up the batches that are left, or ships its
  -- last message, with no batch left.
  pub data Move : Shared → Shared → Type 0 where
    executes :
        (active : CaptureContext) (conn : ℕ) (statement : String) (parameters : Parameters)
        (cursor : Cursor) (s : Shared)
        → Move s (record s {
          agent = execute hex time_ns conn statement parameters cursor (some active) s.agent;
          captured =
              s.captured
              ++ added hex time_ns active conn statement parameters cursor s.agent.plugin;
        })
    sends :
        (message : Message) (s : Shared)
        → Move s (record s { outputs = s.outputs ++ Output.sent message ∷ [] })
    drains :
        (events : List Event) (agent : CaptureAgent) (s : Shared)
        → drain s.agent ≡ (some events, agent)
        → Move s (record s {
          agent = agent;
          flights = s.flights ++ group_by (λ e. e.recording_id) events ∷ [];
        })
    posts :
        (before : List Flight) (recording_id : String) (batch : List Event) (left : Flight)
        (after : List Flight) (s : Shared)
        → s.flights ≡ before ++ ((recording_id, batch) ∷ left) ∷ after
        → Move s (record s {
          flights = before ++ left ∷ after;
          outputs = s.outputs ++ Output.posted recording_id batch ∷ [];
        })
    gives_up :
        (before : List Flight) (left : Flight) (after : List Flight) (s : Shared)
        → s.flights ≡ before ++ left ∷ after
        → Move s (record s { flights = before ++ [] ∷ after; unanswered = s.unanswered ++ left })
    ships :
        (before after : List Flight) (s : Shared)
        → s.flights ≡ before ++ [] ∷ after
        → Move s (record s {
          flights = before ++ after;
          outputs = s.outputs ++ Output.sent (Message.body false) ∷ [];
        })

  pub data Reach (from : Shared) : Shared → Type 0 where
    here : Reach from from
    next : {mid to : Shared} → Reach from mid → Move mid to → Reach from to
