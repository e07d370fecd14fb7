-- ===== src/Agent/Posts.antt =====
-- A flush while the server answers: all that is on the queue is posted, each event to its recording.
use infra_replay.Common.{
  ℕ, suc, length, String, ◌≡◌, refl, sym, ap, ◌∙◌, subst, Bool, true, none, some, List, [], ◌∷◌,
  ◌++◌, append_assoc, map, select, ◌==◌, string_eq, if◌then◌else◌, Bool-cases, inl, inr,
}
use infra_replay.Common.Dict.{Dict, group_by}
use infra_replay.Common.Matching.{matching, group_by-matching}
use infra_replay.Schema.Event.{Event}
use infra_replay.Plugins.PostgresCapture.{Listener}
use infra_replay.Agent.{
  CaptureAgent, Output, Flushed, drain_queue, drain, post_all, post_drained, flush,
}

-- The events posted to a recording, and those among the captured.
abbrev pub posted_to : String → List Output → List Event
posted_to r [] = []
posted_to r (Output.posted id batch ∷ outputs) =
    if id == r then batch ++ posted_to r outputs else posted_to r outputs
posted_to r (Output.sent message ∷ outputs) = posted_to r outputs

abbrev pub events_of : String → List Event → List Event
events_of r = select (λ e. e.recording_id == r)

pub select-append :
    {A : Type 0} (test : A → Bool) (xs ys : List A)
    → select test (xs ++ ys) ≡ select test xs ++ select test ys
select-append test [] ys = refl
select-append test (x ∷ xs) ys = elim (Bool-cases (test x)) [
  | inl taken ↦ rw taken (ap (◌∷◌ x) (select-append test xs ys))
  | inr left ↦ rw left (select-append test xs ys)
]

drain_queue-some : (events : List Event) → drain_queue (map some events) ≡ (some events, [])
unfolding drain_queue
drain_queue-some [] = refl
drain_queue-some (e ∷ events) =
    rw (drain_queue-some events, drain_queue)
      (ap (λ p. (some (e ∷ events), p.1)) (drain_queue-some events))

post_all-answered :
    (batches : Dict String (List Event)) (r : String)
    → ((post_all none batches).1 ≡ true)
      × (posted_to r (post_all none batches).0 ≡ matching r batches)
unfolding post_all
post_all-answered [] r = (refl, refl)
post_all-answered ((k, batch) ∷ batches) r =
    let (ok, rest) = post_all-answered batches r in
    (
      ok,
      elim (Bool-cases (k == r)) [
        | inl hit ↦ rw hit (ap (λ es. batch ++ es) rest)
        | inr miss ↦ rw miss rest
      ],
    )

pub posted_to-append :
    (r : String) (xs ys : List Output) → posted_to r (xs ++ ys) ≡ posted_to r xs ++ posted_to r ys
posted_to-append r [] ys = refl
posted_to-append r (Output.posted id batch ∷ xs) ys = elim (Bool-cases (id == r)) [
  | inl hit ↦
      rw hit (ap (λ es. batch ++ es) (posted_to-append r xs ys) ∙ sym (append_assoc batch _ _))
  | inr miss ↦ rw miss (posted_to-append r xs ys)
]
posted_to-append r (Output.sent message ∷ xs) ys = posted_to-append r xs ys

-- An agent that listens, with these events on its queue.
abbrev pub with_queue : Listener → List Event → CaptureAgent
with_queue plugin events = record {
  plugin = record plugin { queue = map some events };
  streaming = true;
}

-- Where the server answers, a flush posts all that is on the queue.
pub record Posts (events : List Event) (plugin : Listener) (f : Flushed) : Type 0 where
  pub counted : (n : ℕ) × (f.count ≡ some n)
  pub emptied : f.agent ≡ with_queue plugin []
  pub complete : (r : String) → posted_to r f.outputs ≡ events_of r events

pub drain-with_queue :
    (plugin : Listener) (events : List Event)
    → drain (with_queue plugin events) ≡ (some events, with_queue plugin [])
unfolding drain
drain-with_queue plugin events =
    ap (λ p. (p.0, record { plugin = record plugin { queue = p.1 }; streaming = true }))
      (drain_queue-some events)

post_drained-Posts :
    (plugin : Listener) (events : List Event)
    → Posts events plugin (post_drained none (some events, with_queue plugin []))
unfolding post_drained
post_drained-Posts plugin [] = record { counted = (0, refl); emptied = refl; complete = λ r. refl }
post_drained-Posts plugin (e ∷ events) =
    let batches = group_by (λ (x : Event). x.recording_id) (e ∷ events) in
    record {
      counted = (suc (length events), rw (post_all-answered batches "").0 refl);
      emptied = refl;
      complete = λ r.
          (post_all-answered batches r).1
          ∙ group_by-matching (λ (x : Event). x.recording_id) (e ∷ events) r;
    }

pub flush-Posts :
    (plugin : Listener) (events : List Event)
    → Posts events plugin (flush none (with_queue plugin events))
unfolding flush
flush-Posts plugin events =
    subst (λ d. Posts events plugin (post_drained none d)) (sym (drain-with_queue plugin events))
      (post_drained-Posts plugin events)
