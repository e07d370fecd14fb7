-- ===== src/Replay/Engine/Gather.antt =====
-- The events of a batch whose answers arrive in any order.
use mathlib.Core.Option.{some-injective, none-ne-some}
use infra_replay.Common.{
  ℕ, String, ◌≡◌, ◌≢◌, subst, none, some, List, [], ◌∷◌, arith, All, All-imp, Option-cases, inl,
  inr,
}
use infra_replay.Schema.Value.{Fields}
use infra_replay.Schema.Event.{Event}
use infra_replay.Replay.HttpTarget.{HttpTarget, Progress, Answer}
use infra_replay.Replay.Engine.{Slot, send_all, arrive_all, gathered, run_batch}
use infra_replay.Replay.Engine.Flight.{
  AreExchanges, HasDistinctSequences, slot_events, Apart, IsFlight,
}
use infra_replay.Replay.Engine.Arrivals.{send_all-IsFlight, arrive_all-IsFlight}

-- A number that no slot holds is no event's number, and the exchanges of a flight follow one another.
gathered-ne :
    (n : ℕ) (slots : List Slot) (events : List Event)
    → gathered slots ≡ some events
    → All (λ s. All (λ o. n ≢ o.sequence) (slot_events s)) slots
    → All (λ o. n ≢ o.sequence) events
unfolding gathered
gathered-ne n [] events h q = subst (All (λ o. n ≢ o.sequence)) (some-injective _ _ h) tt
gathered-ne n (Slot.waiting w ∷ slots) events h q = absurd (none-ne-some _ h)
gathered-ne n (Slot.settled request reply ∷ slots) events h q =
    elim (Option-cases (gathered slots)) [
      | inl p ↦
          let broken : none ≡ some events = rw (p, gathered) at h in absurd (none-ne-some _ broken)
      | inr (rest, p) ↦
          let same : some (request ∷ reply ∷ rest) ≡ some events = rw (p, gathered) at h in
          subst (All (λ o. n ≢ o.sequence)) (some-injective _ _ same)
            (q.0.0, (q.0.1.0, gathered-ne n slots rest p q.1))
    ]

abbrev AreSettled : List Event → Type 0
AreSettled events = AreExchanges events × HasDistinctSequences events

gathered-AreSettled :
    (low high : ℕ) (slots : List Slot) (events : List Event)
    → gathered slots ≡ some events
    → IsFlight low high slots
    → AreSettled events
unfolding gathered
gathered-AreSettled low high [] events h q = subst AreSettled (some-injective _ _ h) (tt, tt)
gathered-AreSettled low high (Slot.waiting w ∷ slots) events h q = absurd (none-ne-some _ h)
gathered-AreSettled low high (Slot.settled request reply ∷ slots) events h q =
    elim (Option-cases (gathered slots)) [
      | inl p ↦
          let broken : none ≡ some events = rw (p, gathered) at h in absurd (none-ne-some _ broken)
      | inr (rest, p) ↦
          let same : some (request ∷ reply ∷ rest) ≡ some events = rw (p, gathered) at h in
          let (exchanges, distinct) =
            gathered-AreSettled low high slots rest p
              (record { each = q.each.1; within = q.within.1; apart = q.apart.1 }) in
          let Own : Slot → Type 0 = Apart (Slot.settled request reply) in
          subst AreSettled (some-injective _ _ same) (
            (q.each.0, exchanges),
            (
              (
                λ r. omega (arith, q.each.0.later),
                gathered-ne request.sequence slots rest p
                    (All-imp Own _ slots (λ y a. a.0) q.apart.0),
              ),
              (
                gathered-ne reply.sequence slots rest p
                    (All-imp Own _ slots (λ y a. a.1.0) q.apart.0),
                distinct,
              ),
            ),
          )
    ]

-- In whatever order the answers to a batch arrive, what the batch returns is requests and responses
-- by turns: a response names the request before it as its parent, shares its correlation id and has
-- a greater number. No two events of the batch have the same number.
pub run_batch-AreExchanges :
    (hex : ℕ → String) (time_ns : ℕ → ℕ) (target : HttpTarget) (payloads : List Fields)
    (arrivals : List (ℕ × Answer)) (p : Progress) (events : List Event) (after : Progress)
    → run_batch hex time_ns target payloads arrivals p ≡ some (events, after)
    → AreExchanges events × HasDistinctSequences events
unfolding run_batch
run_batch-AreExchanges hex time_ns target payloads arrivals p events after h =
    elim (Option-cases (send_all hex time_ns target payloads p)) [
      | inl bad ↦
          let broken : none ≡ some (events, after) = rw (bad, run_batch) at h in
          absurd (none-ne-some _ broken)
      | inr ((slots, sent), ok) ↦
          let (flight, le) = send_all-IsFlight hex time_ns target payloads p slots sent ok in
          let final = arrive_all hex time_ns target arrivals slots sent in
          let (landed, _) =
            arrive_all-IsFlight hex time_ns target arrivals slots p.sequence sent le flight in
          elim (Option-cases (gathered final.0)) [
            | inl bad ↦
                let broken : none ≡ some (events, after) = rw (ok, bad, run_batch) at h in
                absurd (none-ne-some _ broken)
            | inr (found, q) ↦
                let same : some (found, final.1) ≡ some (events, after) =
                  rw (ok, q, run_batch) at h in
                subst (λ (x : List Event × Progress). AreSettled x.0) (some-injective _ _ same)
                  (gathered-AreSettled p.sequence final.1.sequence final.0 found q landed)
          ]
    ]
