-- ===== src/Agent/Shared/Kept.antt =====
-- Where the captured events are, however requests overlap.
use mathlib.Core.List.{Perm, perm_append_comm}
use mathlib.Core.List.Perm
use infra_replay.Common.{
  ℕ, String, ◌≡◌, refl, sym, ap, ap₂, ◌∙◌, true, false, some, List, [], ◌∷◌, ◌++◌, append-nil,
  append_assoc, ◌==◌, string_eq, Bool-cases, inl, inr, if◌then◌else◌,
}
use mathlib.Core.Option.{some-injective}
use infra_replay.Common.Perms.{moved_first-perm, moved_on-perm}
use infra_replay.Common.Dict.{group_by}
use infra_replay.Common.Matching.{matching, group_by-matching}
use infra_replay.Schema.Event.{Event}
use infra_replay.Plugins.PostgresCapture.{Listener, before_execute, after_execute}
use infra_replay.Agent.{CaptureAgent, Message, Output, drain, execute}
use infra_replay.Agent.Posts.{
  posted_to, events_of, with_queue, posted_to-append, select-append, drain-with_queue,
}
use infra_replay.Agent.Conserved.{held, held-map, added, fresh, after_execute-queue}
use infra_replay.Agent.Shared.{Flight, Shared, Move, Reach, idle}

-- The events of a recording among the batches of the flushes in progress.
abbrev pub in_flight : String → List Flight → List Event
in_flight r [] = []
in_flight r (flight ∷ flights) = matching r flight ++ in_flight r flights

in_flight-append :
    (r : String) (xs ys : List Flight) → in_flight r (xs ++ ys) ≡ in_flight r xs ++ in_flight r ys
in_flight-append r [] ys = refl
in_flight-append r (x ∷ xs) ys =
    ap (λ es. matching r x ++ es) (in_flight-append r xs ys)
    ∙ sym (append_assoc (matching r x) (in_flight r xs) (in_flight r ys))

matching-append :
    (r : String) (d more : Flight) → matching r (d ++ more) ≡ matching r d ++ matching r more
matching-append r [] more = refl
matching-append r ((k, xs) ∷ d) more = elim (Bool-cases (k == r)) [
  | inl hit ↦ rw hit (ap (λ es. xs ++ es) (matching-append r d more) ∙ sym (append_assoc xs _ _))
  | inr miss ↦ rw miss (matching-append r d more)
]

-- A batch, where it is one of the recording's.
abbrev batch_for : String → String → List Event → List Event
batch_for r k batch = if k == r then batch else []

posted_to-one :
    (r k : String) (batch : List Event)
    → posted_to r (Output.posted k batch ∷ []) ≡ batch_for r k batch
posted_to-one r k batch = elim (Bool-cases (k == r)) [
  | inl hit ↦ rw hit (append-nil batch)
  | inr miss ↦ rw miss refl
]

matching-cons :
    (r k : String) (batch : List Event) (left : Flight)
    → matching r ((k, batch) ∷ left) ≡ batch_for r k batch ++ matching r left
matching-cons r k batch left = elim (Bool-cases (k == r)) [
  | inl hit ↦ rw hit refl
  | inr miss ↦ rw miss refl
]

-- Where the captured events of a recording are, of which some are on the queue.
abbrev pub places : String → Shared → List Event → List Event
places r s queued =
    posted_to r s.outputs
    ++ (in_flight r s.flights ++ (matching r s.unanswered ++ events_of r queued))

record IsKept (s : Shared) : Type 0 where
  plugin : Listener
  queued : List Event
  running : s.agent ≡ with_queue plugin queued
  complete : (r : String) → Perm (events_of r s.captured) (places r s queued)

module _ (hex : ℕ → String) (time_ns : ℕ → ℕ) where
  Move-IsKept : {from to : Shared} → Move hex time_ns from to → IsKept from → IsKept to
  unfolding before_execute after_execute
  Move-IsKept (Move.executes active conn statement parameters cursor s) h =
      let new = added hex time_ns active conn statement parameters cursor h.plugin in
      record {
        plugin = fresh hex time_ns active conn statement parameters cursor h.plugin;
        queued = h.queued ++ new;
        running =
            ap (execute hex time_ns conn statement parameters cursor (some active)) h.running
            ∙ ap (λ plugin. record { plugin = plugin; streaming = true })
                (after_execute-queue hex time_ns active conn statement parameters cursor h.plugin
                  h.queued);
        complete = λ r.
            let p = posted_to r s.outputs in
            let x = in_flight r s.flights in
            let u = matching r s.unanswered in
            let q = events_of r h.queued in
            let n = events_of r new in
            let shape : places r s (h.queued ++ new) ≡ (p ++ (x ++ (u ++ q))) ++ n =
              ap (λ es. p ++ (x ++ (u ++ es)))
                (select-append (λ e. e.recording_id == r) h.queued new)
              ∙ ap (λ es. p ++ (x ++ es)) (sym (append_assoc u q n))
              ∙ ap (λ es. p ++ es) (sym (append_assoc x (u ++ q) n))
              ∙ sym (append_assoc p (x ++ (u ++ q)) n) in
            let more : events_of r (
                  s.captured
                  ++ added hex time_ns active conn statement parameters cursor s.agent.plugin)
                ≡ events_of r s.captured ++ n =
              select-append (λ e. e.recording_id == r) s.captured _
              ∙ ap
                  (λ (a : CaptureAgent).
                    events_of r s.captured
                    ++ events_of r
                        (added hex time_ns active conn statement parameters cursor a.plugin))
                  h.running in
            rw (shape, more) (Perm.append_right n (h.complete r));
      }
  Move-IsKept (Move.sends message s) h = record {
    plugin = h.plugin;
    queued = h.queued;
    running = h.running;
    complete = λ r.
        let same : posted_to r (s.outputs ++ Output.sent message ∷ []) ≡ posted_to r s.outputs =
          posted_to-append r s.outputs (Output.sent message ∷ []) ∙ append-nil _ in
        rw same (h.complete r);
  }
  Move-IsKept (Move.drains events agent s drained) h =
      let taken : (some events, agent) ≡ (some h.queued, with_queue h.plugin []) =
        sym drained ∙ ap drain h.running ∙ drain-with_queue h.plugin h.queued in
      let same : events ≡ h.queued = some-injective _ _ (ap (λ p. p.0) taken) in
      record {
        plugin = h.plugin;
        queued = [];
        running = ap (λ p. p.1) taken;
        complete = λ r.
            let x = in_flight r s.flights in
            let u = matching r s.unanswered in
            let shape : in_flight r (s.flights ++ group_by (λ e. e.recording_id) events ∷ [])
                  ++ (u ++ [])
                ≡ x ++ (events_of r h.queued ++ u) =
              ap₂ (λ es fs. es ++ fs)
                (in_flight-append r s.flights (group_by (λ e. e.recording_id) events ∷ [])
                  ∙ ap (λ es. x ++ es)
                      (append-nil _
                        ∙ group_by-matching (λ (e : Event). e.recording_id) events r
                        ∙ ap (events_of r) same))
                (append-nil u)
              ∙ append_assoc x (events_of r h.queued) u in
            rw shape (
              Perm.trans (h.complete r) (
                Perm.append_left (posted_to r s.outputs)
                  (Perm.append_left x (perm_append_comm u (events_of r h.queued)))));
      }
  Move-IsKept (Move.posts before recording_id batch left after s flights) h = record {
    plugin = h.plugin;
    queued = h.queued;
    running = h.running;
    complete = λ r.
        let b = batch_for r recording_id batch in
        let shape : in_flight r s.flights
            ≡ in_flight r before ++ ((b ++ matching r left) ++ in_flight r after) =
          ap (in_flight r) flights
          ∙ in_flight-append r before (((recording_id, batch) ∷ left) ∷ after)
          ∙ ap (λ es. in_flight r before ++ (es ++ in_flight r after))
              (matching-cons r recording_id batch left) in
        let shown : posted_to r (s.outputs ++ Output.posted recording_id batch ∷ [])
            ≡ posted_to r s.outputs ++ b =
          posted_to-append r s.outputs (Output.posted recording_id batch ∷ [])
          ∙ ap (λ es. posted_to r s.outputs ++ es) (posted_to-one r recording_id batch) in
        rw (in_flight-append r before (left ∷ after), shown)
          (Perm.trans (rw shape at (h.complete r)) (
            moved_first-perm (posted_to r s.outputs) (in_flight r before) b (matching r left)
              (in_flight r after) (matching r s.unanswered ++ events_of r h.queued)));
  }
  Move-IsKept (Move.gives_up before left after s flights) h = record {
    plugin = h.plugin;
    queued = h.queued;
    running = h.running;
    complete = λ r.
        let shape : in_flight r s.flights
            ≡ in_flight r before ++ (matching r left ++ in_flight r after) =
          ap (in_flight r) flights ∙ in_flight-append r before (left ∷ after) in
        rw (in_flight-append r before ([] ∷ after), matching-append r s.unanswered left)
          (Perm.trans (rw shape at (h.complete r)) (
            moved_on-perm (posted_to r s.outputs) (in_flight r before) (matching r left)
              (in_flight r after) (matching r s.unanswered) (events_of r h.queued)));
  }
  Move-IsKept (Move.ships before after s flights) h = record {
    plugin = h.plugin;
    queued = h.queued;
    running = h.running;
    complete = λ r.
        let same : in_flight r (before ++ after) ≡ in_flight r s.flights =
          in_flight-append r before after
          ∙ sym (in_flight-append r before ([] ∷ after))
          ∙ sym (ap (in_flight r) flights) in
        let shown : posted_to r (s.outputs ++ Output.sent (Message.body false) ∷ [])
            ≡ posted_to r s.outputs =
          posted_to-append r s.outputs (Output.sent (Message.body false) ∷ []) ∙ append-nil _ in
        rw (same, shown) (h.complete r);
  }

  Reach-IsKept : (plugin : Listener) {s : Shared} → Reach hex time_ns (idle plugin) s → IsKept s
  Reach-IsKept plugin Reach.here = record {
    plugin = plugin;
    queued = [];
    running = refl;
    complete = λ r. Perm.rfl;
  }
  Reach-IsKept plugin (Reach.next path move) = Move-IsKept move (Reach-IsKept plugin path)

  -- However requests overlap that share an agent, which listens throughout and whose flushes await their
  -- posts one by one: the events of a recording that the statements of requests with a context have
  -- captured are, up to order, those that are posted to it, those in the batches of flushes in
  -- progress, those in batches that the client gave up and those still on the queue, each once. So
  -- none is posted twice, and none is lost but with a batch that is given up.
  pub Reach-places :
      (plugin : Listener) {s : Shared}
      → Reach hex time_ns (idle plugin) s
      → (r : String) → Perm (events_of r s.captured) (places r s (held s.agent.plugin.queue))
  Reach-places plugin {s} path r =
      let h = Reach-IsKept plugin path in
      let left : held s.agent.plugin.queue ≡ h.queued =
        ap (λ (a : CaptureAgent). held a.plugin.queue) h.running ∙ held-map h.queued in
      rw left (h.complete r)
