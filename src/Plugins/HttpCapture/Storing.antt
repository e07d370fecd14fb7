-- ===== src/Plugins/HttpCapture/Storing.antt =====
-- A capture as a system of steps: requests that are in flight together, and the task that stores the
-- events as they come off the queue, each as its object is then. Nothing else writes to the tables.
use infra_replay.Common.{ℕ, suc, String, ◌≡◌, Option, none, some, List, [], ◌∷◌, ◌++◌}
use infra_replay.Schema.Event.{Event}
use infra_replay.Recording.Database.{Db, Error}
use infra_replay.Capture.{pump}
use infra_replay.Plugins.HttpCapture.{
  Proxy, Request, Upstream, Emitted, Open, begin_handle, end_handle,
}
use infra_replay.Plugins.HttpCapture.Following.{event_at}

-- The proxy, the requests in flight, how many of its events the task has stored, the tables, and what
-- the task has raised, if it has ended so.
pub record Capture : Type 0 where
  pub emitted : Emitted
  pub in_flight : List Open
  pub stored : ℕ
  pub db : Db
  pub drain : Option Error

abbrev pub nothing_yet : Db → Capture
nothing_yet db = record {
  emitted = record { sequence = 0; events = []; calls = 0 };
  in_flight = [];
  stored = 0;
  db = db;
  drain = none;
}

-- The capture after a round of the task.
abbrev pub pumped : Capture → Option Error × Db → Capture
pumped s (none, after) = record s { stored = suc s.stored; db = after }
pumped s (some e, after) = record s { db = after; drain = some e }

module _ (hex : ℕ → String) (time_ns : ℕ → ℕ) (proxy : Proxy) where
  pub data Step : Capture → Capture → Type 0 where
    begins :
        (request : Request) (s : Capture)
        → Step s (record s {
          emitted = (begin_handle hex time_ns proxy request s.emitted).1;
          in_flight = (begin_handle hex time_ns proxy request s.emitted).0.0 ∷ s.in_flight;
        })
    ends :
        (upstream : Upstream) (before : List Open) (opened : Open) (after : List Open) (s : Capture)
        → s.in_flight ≡ before ++ opened ∷ after
        → Step s (record s {
          emitted = (end_handle hex time_ns proxy opened upstream s.emitted).1;
          in_flight = before ++ after;
        })
    stores :
        (event : Event) (s : Capture)
        → s.drain ≡ none
        → event_at s.emitted.events s.stored ≡ some event
        → Step s (pumped s (pump proxy.recording_id (event ∷ []) s.db))

  pub data Reach (from : Capture) : Capture → Type 0 where
    here : Reach from from
    next : {mid to : Capture} → Reach from mid → Step mid to → Reach from to
