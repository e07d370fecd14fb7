-- ===== src/Container/Waited.antt =====
-- The wait for the API ends.
use infra_replay.Common.{
  All, range_from, subst, ◌<◌, ℕ, zero, suc, ◌+◌, ◌*◌, ◌≤◌, ◌≡◌, arith, Bool, true, false, ltb,
  Bool-cases, inl, inr,
}
use infra_replay.Container.{Waiting, poll, wait_for_api}

-- How the wait may end, from the m-th reading on: a poll before the deadline was answered, or the
-- deadline is over and each poll before that has failed.
abbrev pub Ends : (ℕ → ℕ) → (ℕ → Bool) → ℕ → ℕ → Waiting → Type 0
Ends clock healthy deadline m Waiting.answered = (k : ℕ) × (healthy k ≡ true) × (clock k < deadline)
Ends clock healthy deadline m Waiting.timed_out =
    (n : ℕ) × (deadline ≤ clock (m + n)) × All (λ k. healthy k ≡ false) (range_from m n)
Ends clock healthy deadline m Waiting.running = ⊥

Ends-suc :
    (clock : ℕ → ℕ) (healthy : ℕ → Bool) (deadline m : ℕ) (w : Waiting)
    → healthy m ≡ false
    → Ends clock healthy deadline (suc m) w
    → Ends clock healthy deadline m w
Ends-suc clock healthy deadline m Waiting.answered down h = h
Ends-suc clock healthy deadline m Waiting.timed_out down (n, over, all) =
    (suc n, subst (λ k. deadline ≤ clock k) (omega arith) over, (down, all))
Ends-suc clock healthy deadline m Waiting.running down h = h

-- A round sleeps for half a second, so the rounds that are left fill the time that is left.
poll-Ends :
    (clock : ℕ → ℕ) (healthy : ℕ → Bool) (deadline fuel n : ℕ)
    → ((k : ℕ) → clock (suc k) + 500 ≤ clock (suc (suc k)))
    → deadline ≤ clock (suc n) + 500 * fuel
    → Ends clock healthy deadline (suc n) (poll clock healthy deadline (suc fuel) (suc n))
unfolding poll
poll-Ends clock healthy deadline zero n step enough =
    elim (Bool-cases (ltb (clock (suc n)) deadline)) [
      | inr over ↦ rw (over, poll) (0, ground (arith, enough, over), tt)
      | inl before ↦ absurd (ground (arith, before, enough))
    ]
poll-Ends clock healthy deadline (suc fuel) n step enough =
    elim (Bool-cases (ltb (clock (suc n)) deadline)) [
      | inr over ↦ rw (over, poll) (0, ground (arith, over), tt)
      | inl before ↦ elim (Bool-cases (healthy (suc n))) [
        | inl up ↦ rw (before, up, poll) (suc n, up, ground (arith, before))
        | inr down ↦
            rw (before, down, poll)
              (Ends-suc clock healthy deadline (suc n) _ down (
                poll-Ends clock healthy deadline fuel (suc n) step (omega (arith, enough, step n))))
      ]
    ]

-- The wait is over after 121 rounds at most, if the clock does not go back and a round takes half a
-- second at least: a poll within the minute was answered, or the minute is over and every poll
-- before has failed.
pub wait_for_api-Ends :
    (clock : ℕ → ℕ) (healthy : ℕ → Bool)
    → clock 0 ≤ clock 1
    → ((k : ℕ) → clock (suc k) + 500 ≤ clock (suc (suc k)))
    → Ends clock healthy (clock 0 + 60000) 1 (wait_for_api clock healthy 121)
unfolding wait_for_api
wait_for_api-Ends clock healthy forward step =
    poll-Ends clock healthy (clock 0 + 60000) 120 0 step (omega (arith, forward))
