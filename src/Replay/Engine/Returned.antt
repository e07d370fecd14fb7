-- ===== src/Replay/Engine/Returned.antt =====
-- A batch returns once each of its requests has an answer.
use mathlib.Core.Option.{some-injective, none-ne-some}
use infra_replay.Common.{
  ℕ, zero, suc, ◌*◌, ◌<◌, ◌≤◌, String, ◌≡◌, refl, ap, subst, true, none, some, List, [], ◌∷◌, map,
  arith, length, contains, ◌==◌, nat_eq, ltb, Bool-cases, Option-cases, inl, inr,
}
use infra_replay.Schema.Value.{Fields}
use infra_replay.Schema.Event.{Event}
use infra_replay.Replay.HttpTarget.{HttpTarget, Progress, Answer, send_request}
use infra_replay.Replay.Engine.{Slot, send_all, arrive, arrive_all, gathered, run_batch}

-- The request in a place has its events, if there is such a place.
abbrev IsSettledAt : ℕ → List Slot → Type 0
IsSettledAt place [] = Unit
IsSettledAt zero (Slot.waiting w ∷ slots) = ⊥
IsSettledAt zero (Slot.settled request reply ∷ slots) = Unit
IsSettledAt (suc place) (slot ∷ slots) = IsSettledAt place slots

beyond : (place : ℕ) (slots : List Slot) → length slots ≤ place → IsSettledAt place slots
beyond place [] h = tt
beyond zero (slot ∷ slots) h = absurd (omega arith)
beyond (suc place) (slot ∷ slots) h = beyond place slots (omega arith)

gathered-IsSettledAt :
    (slots : List Slot)
    → ((place : ℕ) → IsSettledAt place slots)
    → (events : List Event) × (gathered slots ≡ some events) × (length events ≡ 2 * length slots)
unfolding gathered
gathered-IsSettledAt [] h = ([], refl, omega arith)
gathered-IsSettledAt (Slot.waiting w ∷ slots) h = absurd (h 0)
gathered-IsSettledAt (Slot.settled request reply ∷ slots) h =
    let (events, p, n) = gathered-IsSettledAt slots (λ place. h (suc place)) in
    (request ∷ reply ∷ events, rw (p, gathered) refl, omega arith)

module _ (hex : ℕ → String) (time_ns : ℕ → ℕ) (target : HttpTarget) where
  arrive_settles :
      (place : ℕ) (answer : Answer) (slots : List Slot) (p : Progress)
      → IsSettledAt place (arrive hex time_ns target place answer slots p).0
  unfolding arrive
  arrive_settles place answer [] p = tt
  arrive_settles zero answer (Slot.waiting w ∷ slots) p = tt
  arrive_settles zero answer (Slot.settled request reply ∷ slots) p = tt
  arrive_settles (suc place) answer (slot ∷ slots) p = arrive_settles place answer slots p

  arrive_keeps :
      (place : ℕ) (answer : Answer) (slots : List Slot) (p : Progress) (other : ℕ)
      → IsSettledAt other slots
      → IsSettledAt other (arrive hex time_ns target place answer slots p).0
  unfolding arrive
  arrive_keeps place answer [] p other h = tt
  arrive_keeps zero answer (Slot.waiting w ∷ slots) p zero h = tt
  arrive_keeps zero answer (Slot.waiting w ∷ slots) p (suc other) h = h
  arrive_keeps zero answer (Slot.settled request reply ∷ slots) p other h = h
  arrive_keeps (suc place) answer (Slot.settled request reply ∷ slots) p zero h = tt
  arrive_keeps (suc place) answer (Slot.waiting w ∷ slots) p zero h = h
  arrive_keeps (suc place) answer (slot ∷ slots) p (suc other) h =
      arrive_keeps place answer slots p other h

  arrive_all_keeps :
      (arrivals : List (ℕ × Answer)) (slots : List Slot) (p : Progress) (place : ℕ)
      → IsSettledAt place slots
      → IsSettledAt place (arrive_all hex time_ns target arrivals slots p).0
  unfolding arrive_all
  arrive_all_keeps [] slots p place h = h
  arrive_all_keeps ((i, answer) ∷ arrivals) slots p place h =
      arrive_all_keeps arrivals _ _ place (arrive_keeps i answer slots p place h)

  arrive_all_settles :
      (arrivals : List (ℕ × Answer)) (slots : List Slot) (p : Progress) (place : ℕ)
      → contains (map (λ a. a.0) arrivals) place ≡ true
      → IsSettledAt place (arrive_all hex time_ns target arrivals slots p).0
  unfolding arrive_all
  arrive_all_settles [] slots p place h = absurd (ground arith)
  arrive_all_settles ((i, answer) ∷ arrivals) slots p place h = elim (Bool-cases (i == place)) [
    | inl hit ↦ arrive_all_keeps arrivals _ _ place (
        subst (λ j. IsSettledAt j (arrive hex time_ns target i answer slots p).0)
          ((nat_eq.beq_iff i place).0 hit) (arrive_settles i answer slots p))
    | inr miss ↦ arrive_all_settles arrivals _ _ place (ground (arith, h))
  ]

  length-arrive :
      (place : ℕ) (answer : Answer) (slots : List Slot) (p : Progress)
      → length (arrive hex time_ns target place answer slots p).0 ≡ length slots
  unfolding arrive
  length-arrive place answer [] p = refl
  length-arrive zero answer (Slot.waiting w ∷ slots) p = refl
  length-arrive zero answer (Slot.settled request reply ∷ slots) p = refl
  length-arrive (suc place) answer (slot ∷ slots) p =
      omega (arith, length-arrive place answer slots p)

  length-arrive_all :
      (arrivals : List (ℕ × Answer)) (slots : List Slot) (p : Progress)
      → length (arrive_all hex time_ns target arrivals slots p).0 ≡ length slots
  unfolding arrive_all
  length-arrive_all [] slots p = refl
  length-arrive_all ((i, answer) ∷ arrivals) slots p =
      let (now, after) = arrive hex time_ns target i answer slots p in
      omega (arith, length-arrive_all arrivals now after, length-arrive i answer slots p)

  length-send_all :
      (payloads : List Fields) (p : Progress) (slots : List Slot) (sent : Progress)
      → send_all hex time_ns target payloads p ≡ some (slots, sent)
      → length slots ≡ length payloads
  unfolding send_all
  length-send_all [] p slots sent h =
      subst (λ (x : List Slot × Progress). length x.0 ≡ 0) (some-injective _ _ h) refl
  length-send_all (payload ∷ payloads) p slots sent h =
      elim (Option-cases (send_request hex time_ns target payload p)) [
        | inl bad ↦
            let broken : none ≡ some (slots, sent) = rw (bad, send_all) at h in
            absurd (none-ne-some _ broken)
        | inr ((w, now), ok) ↦ elim (Option-cases (send_all hex time_ns target payloads now)) [
          | inl bad ↦
              let broken : none ≡ some (slots, sent) = rw (ok, bad, send_all) at h in
              absurd (none-ne-some _ broken)
          | inr ((rest, final), more) ↦
              let same : some (Slot.waiting w ∷ rest, final) ≡ some (slots, sent) =
                rw (ok, more, send_all) at h in
              subst (λ (x : List Slot × Progress). length x.0 ≡ suc (length payloads))
                (some-injective _ _ same) (ap suc (length-send_all payloads now rest final more))
        ]
      ]

  -- A batch whose requests have all been sent returns twice as many events, once each place has
  -- an answer among the arrivals, in whatever order these come.
  pub run_batch_returns :
      (payloads : List Fields) (arrivals : List (ℕ × Answer)) (p : Progress) (slots : List Slot)
      (sent : Progress)
      → send_all hex time_ns target payloads p ≡ some (slots, sent)
      → ((place : ℕ) → place < length payloads → contains (map (λ a. a.0) arrivals) place ≡ true)
      → (events : List Event) × (after : Progress) × (run_batch hex time_ns target payloads arrivals
            p
          ≡ some (events, after))
        × (length events ≡ 2 * length payloads)
  unfolding run_batch
  run_batch_returns payloads arrivals p slots sent ok answered =
      let final = arrive_all hex time_ns target arrivals slots sent in
      let same = length-arrive_all arrivals slots sent in
      let all = length-send_all payloads p slots sent ok in
      let (events, found, n) = gathered-IsSettledAt final.0 (λ place.
        elim (Bool-cases (ltb place (length slots))) [
          | inl inside ↦
              arrive_all_settles arrivals slots sent place (answered place (ground arith))
          | inr outside ↦ beyond place final.0 (ground (arith, same))
        ]) in
      (events, final.1, rw (ok, found, run_batch) refl, omega arith)
