-- ===== src/Agent/Conserved.antt =====
-- What the middleware posts, against what the plugin captures.
use infra_replay.Common.{
  ℕ, String, ◌≡◌, refl, sym, ap, ap₂, ◌∙◌, subst, true, false, Option, none, some, List, [], ◌∷◌,
  ◌++◌, append-nil, append_assoc, map, map-append, ◌==◌, string_eq,
}
use infra_replay.Schema.Event.{Event}
use infra_replay.Plugins.PostgresCapture.{
  CaptureContext, Parameters, Cursor, Listener, before_execute, after_execute,
}
use infra_replay.Agent.{Message, Output, Act, flush, serve}
use infra_replay.Agent.Posts.{
  posted_to, events_of, with_queue, flush-Posts, posted_to-append, select-append,
}

abbrev pub held : List (Option Event) → List Event
held [] = []
held (none ∷ queue) = held queue
held (some e ∷ queue) = e ∷ held queue

pub held-map : (events : List Event) → held (map some events) ≡ events
held-map [] = refl
held-map (e ∷ events) = ap (◌∷◌ e) (held-map events)

-- The last message of a response, with nothing after it, and all events posted before it.
abbrev pub ShipsAfter : List Event → List Output → Type 0
ShipsAfter events outputs =
    (earlier : List Output) × (outputs ≡ earlier ++ Output.sent (Message.body false) ∷ [])
    × ((r : String) → posted_to r earlier ≡ events_of r events)

module _ (hex : ℕ → String) (time_ns : ℕ → ℕ) (active : CaptureContext) where
  -- The listener after the statements of a request, if nothing were ever taken off its queue.
  unfoldable pub executed : List Act → Listener → Listener
  executed [] l = l
  executed (Act.executes conn statement parameters cursor ∷ acts) l = executed acts (
      after_execute hex time_ns conn statement parameters cursor (some active)
        (before_execute hex time_ns conn l))
  executed (Act.sends message ∷ acts) l = executed acts l

  -- The same with an empty queue before.
  abbrev pub fresh : ℕ → String → Parameters → Cursor → Listener → Listener
  fresh conn statement parameters cursor l =
      after_execute hex time_ns conn statement parameters cursor (some active)
        (before_execute hex time_ns conn (record l { queue = [] }))

  abbrev pub added : ℕ → String → Parameters → Cursor → Listener → List Event
  added conn statement parameters cursor l = held (fresh conn statement parameters cursor l).queue

  -- A statement adds to the queue, whatever is on it, and does not look at it.
  pub after_execute-queue :
      (conn : ℕ) (statement : String) (parameters : Parameters) (cursor : Cursor) (l : Listener)
      (events : List Event)
      → after_execute hex time_ns conn statement parameters cursor
          (some active)
          (before_execute hex time_ns conn (record l { queue = map some events }))
        ≡ record (fresh conn statement parameters cursor l) {
          queue = map some (events ++ added conn statement parameters cursor l);
        }
  unfolding before_execute after_execute
  after_execute-queue conn statement parameters cursor l events =
      ap (λ queue. record (fresh conn statement parameters cursor l) { queue = queue })
        (append_assoc (map some events) _ _
          ∙ sym (map-append some events (added conn statement parameters cursor l)))

  executed-queue :
      (acts : List Act) (l : Listener) (events : List Event)
      → held (executed acts (record l { queue = map some events })).queue
        ≡ events ++ held (executed acts (record l { queue = [] })).queue
  unfolding executed
  executed-queue [] l events = held-map events ∙ sym (append-nil events)
  executed-queue (Act.sends message ∷ acts) l events = executed-queue acts l events
  executed-queue (Act.executes conn statement parameters cursor ∷ acts) l events =
      let after = fresh conn statement parameters cursor l in
      let new = added conn statement parameters cursor l in
      ap (λ k. held (executed acts k).queue)
        (after_execute-queue conn statement parameters cursor l events)
      ∙ executed-queue acts after (events ++ new)
      ∙ append_assoc events new _
      ∙ ap (λ es. events ++ es)
          (sym (
            ap (λ k. held (executed acts k).queue)
              (after_execute-queue conn statement parameters cursor l [])
            ∙ executed-queue acts after new))

  ship_one :
      (r_events : List Event) (message : Message) (outputs : List Output)
      → ShipsAfter r_events outputs
      → ShipsAfter r_events (Output.sent message ∷ outputs)
  ship_one events message outputs (earlier, shape, complete) =
      (Output.sent message ∷ earlier, ap (◌∷◌ (Output.sent message)) shape, complete)

  -- Of a request that is served with no other in between, and while the server answers, the agent
  -- posts before the response ships: whatever statements and messages go before, the message that
  -- ends the body comes last, and by then every event that was on the queue or that a statement has
  -- captured is posted to its recording, in order.
  pub serve-ShipsAfter :
      (acts : List Act) (l : Listener) (events : List Event)
      → ShipsAfter
          (held (executed acts (record l { queue = map some events })).queue)
          (serve hex time_ns none
            (some active)
            (acts ++ Act.sends (Message.body false) ∷ [])
            (with_queue l events)).0
  unfolding executed serve
  serve-ShipsAfter [] l events =
      let f = flush-Posts l events in
      rw (f.counted.1, serve, held-map events)
        ((flush none (with_queue l events)).outputs, refl, f.complete)
  serve-ShipsAfter (Act.sends Message.response_start ∷ acts) l events =
      ship_one _ Message.response_start _ (serve-ShipsAfter acts l events)
  serve-ShipsAfter (Act.sends (Message.body true) ∷ acts) l events =
      ship_one _ (Message.body true) _ (serve-ShipsAfter acts l events)
  serve-ShipsAfter (Act.sends (Message.body false) ∷ acts) l events =
      let f = flush-Posts l events in
      let posts = (flush none (with_queue l events)).outputs in
      let (earlier, shape, complete) = serve-ShipsAfter acts l [] in
      let later = held (executed acts (record l { queue = [] })).queue in
      rw (f.counted.1, f.emptied, serve)
        (
          posts ++ Output.sent (Message.body false) ∷ earlier,
          ap (λ outputs. posts ++ Output.sent (Message.body false) ∷ outputs) shape
              ∙ sym (append_assoc posts (Output.sent (Message.body false) ∷ earlier) _),
          λ r.
              posted_to-append r posts (Output.sent (Message.body false) ∷ earlier)
              ∙ ap₂ (λ xs ys. xs ++ ys) (f.complete r) (complete r)
              ∙ sym (select-append (λ e. e.recording_id == r) events later)
              ∙ ap (events_of r) (sym (executed-queue acts l events)),
        )
  serve-ShipsAfter (Act.executes conn statement parameters cursor ∷ acts) l events =
      subst
        (λ k.
          ShipsAfter (held (executed acts k).queue)
            (serve hex time_ns none (some active) (acts ++ Act.sends (Message.body false) ∷ [])
              (record { plugin = k; streaming = true })).0)
        (sym (after_execute-queue conn statement parameters cursor l events))
        (serve-ShipsAfter acts (fresh conn statement parameters cursor l)
          (events ++ added conn statement parameters cursor l))
