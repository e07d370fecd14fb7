-- ===== src/Replay/Engine/Arrivals.antt =====
-- A batch in flight keeps its numbers apart, whichever answer arrives next.
use mathlib.Core.Option.{some-injective, none-ne-some}
use infra_replay.Common.{
  ℕ, zero, suc, ◌≤◌, String, ◌≡◌, refl, ◌∙◌, subst, Option, none, some, List, [], ◌∷◌, arith, All,
  All-imp, All-zip, Option-cases, inl, inr,
}
use infra_replay.Common.Text.{joined, first_chars}
use infra_replay.Schema.Value.{Fields}
use infra_replay.Schema.Event.{Event, http_request}
use infra_replay.Replay.HttpTarget.{
  HttpTarget, Progress, Waiting, Answer, headers_for, new_event, send_request, receive,
}
use infra_replay.Replay.Engine.{Slot, send_all, arrive, arrive_all}
use infra_replay.Replay.Engine.Flight.{Within, Apart, IsFlight, Within-mono, above, below}

-- A request that is sent takes the next number.
abbrev Numbered : Progress → Option (Waiting × Progress) → Type 0
Numbered p none = Unit
Numbered p (some (w, now)) =
    (w.request.sequence ≡ p.sequence)
    × (w.request.event_type ≡ http_request)
    × (now.sequence ≡ suc p.sequence)

-- A slot that is apart from a waiting request stays apart from it when the reply takes a number
-- above its own.
settled-Apart :
    (low : ℕ) (w : Waiting) (request reply : Event) (x : Slot)
    → Within low reply.sequence x
    → request.sequence ≡ w.request.sequence
    → Apart x (Slot.waiting w)
    → Apart x (Slot.settled request reply)
settled-Apart low w request reply (Slot.waiting v) q same h =
    ((λ p. h.0.0 (p ∙ same), (λ p. omega arith, tt)), tt)
settled-Apart low w request reply (Slot.settled a b) q same h = (
  (λ p. h.0.0 (p ∙ same), (λ p. omega arith, tt)),
  ((λ p. h.1.0.0 (p ∙ same), (λ p. omega arith, tt)), tt),
)

module _ (hex : ℕ → String) (time_ns : ℕ → ℕ) (target : HttpTarget) where
  send_request-Numbered :
      (payload : Fields) (p : Progress) → Numbered p (send_request hex time_ns target payload p)
  unfolding send_request new_event
  send_request-Numbered payload p =
      elim (Option-cases
        (headers_for target payload (joined "corr_" (first_chars 12 (hex p.calls))))) [
          | inl bad ↦ rw (bad, send_request) tt
          | inr (headers, ok) ↦ rw (ok, send_request) (refl, refl, refl)
        ]

  -- The requests of a batch take the next numbers, one each.
  pub send_all-IsFlight :
      (payloads : List Fields) (p : Progress) (slots : List Slot) (after : Progress)
      → send_all hex time_ns target payloads p ≡ some (slots, after)
      → IsFlight p.sequence after.sequence slots × (p.sequence ≤ after.sequence)
  unfolding send_all
  send_all-IsFlight [] p slots after h =
      subst
        (λ (x : List Slot × Progress).
          IsFlight p.sequence x.1.sequence x.0 × (p.sequence ≤ x.1.sequence))
        (some-injective _ _ h) (record { each = tt; within = tt; apart = tt }, omega arith)
  send_all-IsFlight (payload ∷ payloads) p slots after h =
      elim (Option-cases (send_request hex time_ns target payload p)) [
        | inl bad ↦
            let broken : none ≡ some (slots, after) = rw (bad, send_all) at h in
            absurd (none-ne-some _ broken)
        | inr ((w, now), sent) ↦ elim (Option-cases (send_all hex time_ns target payloads now)) [
          | inl bad ↦
              let broken : none ≡ some (slots, after) = rw (sent, bad, send_all) at h in
              absurd (none-ne-some _ broken)
          | inr ((rest, final), more) ↦
              let same : some (Slot.waiting w ∷ rest, final) ≡ some (slots, after) =
                rw (sent, more, send_all) at h in
              let (number, type, next) =
                subst (Numbered p) sent (send_request-Numbered payload p) in
              let (flight, le) = send_all-IsFlight payloads now rest final more in
              subst
                (λ (x : List Slot × Progress).
                  IsFlight p.sequence x.1.sequence x.0 × (p.sequence ≤ x.1.sequence))
                (some-injective _ _ same)
                (
                  record {
                    each = (type, flight.each);
                    within = (
                      ((omega arith, omega arith), tt),
                      All-imp (Within now.sequence final.sequence)
                          (Within p.sequence final.sequence) rest
                          (λ y. Within-mono y (omega arith) (omega arith)) flight.within,
                    );
                    apart = (
                      All-imp (Within now.sequence final.sequence) (Apart (Slot.waiting w)) rest
                          (λ y q. (
                            below now.sequence final.sequence w.request.sequence y (omega arith) q,
                            tt,
                          ))
                          flight.within,
                      flight.apart,
                    );
                  },
                  omega arith,
                )
        ]
      ]

  arrive_le :
      (place : ℕ) (answer : Answer) (slots : List Slot) (p : Progress)
      → p.sequence ≤ (arrive hex time_ns target place answer slots p).1.sequence
  unfolding arrive receive new_event
  arrive_le place answer [] p = omega arith
  arrive_le zero answer (Slot.waiting w ∷ slots) p = omega arith
  arrive_le zero answer (Slot.settled request reply ∷ slots) p = omega arith
  arrive_le (suc place) answer (slot ∷ slots) p = arrive_le place answer slots p

  -- What is apart from the slots is apart from them after an answer, which takes the next number.
  arrive-Apart :
      (place : ℕ) (answer : Answer) (slots : List Slot) (p : Progress) (low : ℕ) (x : Slot)
      → Within low p.sequence x
      → All (Apart x) slots
      → All (Apart x) (arrive hex time_ns target place answer slots p).0
  unfolding arrive receive new_event
  arrive-Apart place answer [] p low x q h = tt
  arrive-Apart zero answer (Slot.waiting w ∷ slots) p low x q h = (
    settled-Apart low w (receive hex time_ns target w answer p).0.0
        (receive hex time_ns target w answer p).0.1 x q refl h.0,
    h.1,
  )
  arrive-Apart zero answer (Slot.settled request reply ∷ slots) p low x q h = h
  arrive-Apart (suc place) answer (slot ∷ slots) p low x q h =
      (h.0, arrive-Apart place answer slots p low x q h.1)

  arrive-IsFlight :
      (place : ℕ) (answer : Answer) (slots : List Slot) (low : ℕ) (p : Progress)
      → low ≤ p.sequence
      → IsFlight low p.sequence slots
      → IsFlight low
          (arrive hex time_ns target place answer slots p).1.sequence
          (arrive hex time_ns target place answer slots p).0
  unfolding arrive receive new_event
  arrive-IsFlight place answer [] low p le h = h
  arrive-IsFlight zero answer (Slot.waiting w ∷ slots) low p le h = record {
    each = (
      record {
        requested = h.each.0;
        responded = refl;
        parent = refl;
        together = refl;
        later = h.within.0.0.1;
      },
      h.each.1,
    );
    within = (
      ((omega arith, omega arith), ((le, omega arith), tt)),
      All-imp (Within low p.sequence) (Within low (suc p.sequence)) slots
          (λ y. Within-mono y (omega arith) (omega arith)) h.within.1,
    );
    apart = (
      All-imp (λ y. Within low p.sequence y × Apart (Slot.waiting w) y) _ slots
          (λ y q. (q.1.0, (above low p.sequence p.sequence y (omega arith) q.0, tt)))
          (All-zip (Within low p.sequence) (Apart (Slot.waiting w)) slots h.within.1 h.apart.0),
      h.apart.1,
    );
  }
  arrive-IsFlight zero answer (Slot.settled request reply ∷ slots) low p le h = h
  arrive-IsFlight (suc place) answer (slot ∷ slots) low p le h =
      let rest =
        arrive-IsFlight place answer slots low p le
          (record { each = h.each.1; within = h.within.1; apart = h.apart.1 }) in
      record {
        each = (h.each.0, rest.each);
        within = (
          Within-mono slot (omega arith) (arrive_le place answer slots p) h.within.0,
          rest.within,
        );
        apart = (arrive-Apart place answer slots p low slot h.within.0 h.apart.0, rest.apart);
      }

  pub arrive_all-IsFlight :
      (arrivals : List (ℕ × Answer)) (slots : List Slot) (low : ℕ) (p : Progress)
      → low ≤ p.sequence
      → IsFlight low p.sequence slots
      → IsFlight low
          (arrive_all hex time_ns target arrivals slots p).1.sequence
          (arrive_all hex time_ns target arrivals slots p).0
        × (low ≤ (arrive_all hex time_ns target arrivals slots p).1.sequence)
  unfolding arrive_all
  arrive_all-IsFlight [] slots low p le h = (h, le)
  arrive_all-IsFlight ((place, answer) ∷ arrivals) slots low p le h =
      let more = arrive_le place answer slots p in
      arrive_all-IsFlight arrivals _ low _ (omega arith)
        (arrive-IsFlight place answer slots low p le h)
