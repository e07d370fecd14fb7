-- ===== src/Replay/Engine/Batches.antt =====
-- The batches of a replay are its payloads, in order, none larger than the concurrency.
use infra_replay.Common.{
  ℕ, zero, suc, ◌≤◌, ◌≡◌, refl, ap, ◌∙◌, List, [], ◌∷◌, ◌++◌, arith, length, take, drop, concat,
  take-append-drop, length-take, length-drop, All,
}
use infra_replay.Replay.Engine.{batches_from, batches}

module _ {ℓ} {A : Type ℓ} where
  concat-batches_from :
      (fuel : ℕ) (xs : List A) (size : ℕ)
      → 1 ≤ size
      → length xs ≤ fuel
      → concat (batches_from fuel xs size) ≡ xs
  unfolding batches_from
  concat-batches_from fuel [] size h enough = refl
  concat-batches_from zero (x ∷ xs) size h enough = absurd (omega arith)
  concat-batches_from (suc fuel) (x ∷ xs) size h enough =
      ap (λ ys. take size (x ∷ xs) ++ ys)
        (concat-batches_from fuel (drop size (x ∷ xs)) size h
          (omega (arith, length-drop size (x ∷ xs))))
      ∙ take-append-drop size (x ∷ xs)

  batches_from-sizes :
      (fuel : ℕ) (xs : List A) (size : ℕ)
      → 1 ≤ size
      → All (λ batch. (1 ≤ length batch) × (length batch ≤ size)) (batches_from fuel xs size)
  unfolding batches_from
  batches_from-sizes fuel [] size h = tt
  batches_from-sizes zero (x ∷ xs) size h = tt
  batches_from-sizes (suc fuel) (x ∷ xs) size h = (
    (omega (arith, length-take size (x ∷ xs)), omega (arith, length-take size (x ∷ xs))),
    batches_from-sizes fuel (drop size (x ∷ xs)) size h,
  )

  -- The batches hold every payload once, in order, and each has a payload and at most `size` of
  -- them. The size is to be positive, as the caller makes it.
  pub batches-concat :
      (payloads : List A) (size : ℕ)
      → 1 ≤ size
      → (concat (batches payloads size) ≡ payloads)
        × All (λ batch. (1 ≤ length batch) × (length batch ≤ size)) (batches payloads size)
  unfolding batches
  batches-concat payloads size h = (
    concat-batches_from (length payloads) payloads size h (omega arith),
    batches_from-sizes (length payloads) payloads size h,
  )
