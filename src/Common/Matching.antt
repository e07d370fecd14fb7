-- ===== src/Common/Matching.antt =====
-- The group of a key holds the elements of that key, in their order.
use infra_replay.Common.{
  ◌≡◌, refl, sym, ap, ◌∙◌, Bool, true, false, List, [], ◌∷◌, ◌++◌, append-nil, append_assoc, arith,
  Eq, ◌==◌, if◌then◌else◌, Bool-cases, inl, inr, select,
}
use infra_replay.Common.Dict.{Dict, push, group_into, group_by}
use infra_replay.Common.Groups.{Lacks, IsGrouping, push-IsGrouping}

module _ {ℓ κ} {K : Type ℓ} {A : Type κ} ⦃e : Eq K⦄ where
  -- What stands under a key, in one group or several.
  abbrev pub matching : K → Dict K (List A) → List A
  matching r [] = []
  matching r ((k, xs) ∷ d) = if k == r then xs ++ matching r d else matching r d

  Lacks-matching : (r k : K) (d : Dict K (List A)) → Lacks k d → (k == r) ≡ true → matching r d ≡ []
  Lacks-matching r k [] h same = refl
  Lacks-matching r k ((j, xs) ∷ d) h same =
      let other : (j == r) ≡ false =
        ground (arith, e.beq_iff k r, e.beq_iff j k, e.beq_iff j r, same, h.0) in
      rw other (Lacks-matching r k d h.1 same)

  push-matching :
      (key : A → K) (d : Dict K (List A)) (x : A) (r : K)
      → IsGrouping key d
      → matching r (push d (key x) x) ≡ matching r d ++ (if key x == r then x ∷ [] else [])
  unfolding push
  push-matching key [] x r h = elim (Bool-cases (key x == r)) [
    | inl hit ↦ rw hit refl
    | inr miss ↦ rw miss refl
  ]
  push-matching key ((j, xs) ∷ d) x r h = elim (Bool-cases (j == key x)) [
    | inl here ↦
        let same : j ≡ key x = (e.beq_iff j (key x)).0 here in
        elim (Bool-cases (j == r)) [
          | inl hit ↦
              let keyed : (key x == r) ≡ true = ap (λ k. k == r) (sym same) ∙ hit in
              rw (here, hit, keyed, Lacks-matching r j d h.2 hit, append-nil, append-nil) refl
          | inr miss ↦
              let keyed : (key x == r) ≡ false = ap (λ k. k == r) (sym same) ∙ miss in
              rw (here, miss, keyed, append-nil) refl
        ]
    | inr later ↦ elim (Bool-cases (j == r)) [
      | inl hit ↦
          rw (later, hit)
            (ap (λ ys. xs ++ ys) (push-matching key d x r h.3)
              ∙ sym (append_assoc xs (matching r d) (if key x == r then x ∷ [] else [])))
      | inr miss ↦ rw (later, miss) (push-matching key d x r h.3)
    ]
  ]

  group_into-matching :
      (key : A → K) (d : Dict K (List A)) (xs : List A) (r : K)
      → IsGrouping key d
      → matching r (group_into key d xs) ≡ matching r d ++ select (λ x. key x == r) xs
  unfolding group_into
  group_into-matching key d [] r h = sym (append-nil (matching r d))
  group_into-matching key d (x ∷ xs) r h =
      group_into-matching key (push d (key x) x) xs r (push-IsGrouping key d x h)
      ∙ ap (λ ys. ys ++ select (λ y. key y == r) xs) (push-matching key d x r h)
      ∙ append_assoc (matching r d) (if key x == r then x ∷ [] else [])
          (select (λ y. key y == r) xs)
      ∙ ap (λ ys. matching r d ++ ys) (one (key x == r))
    where
      one :
          (b : Bool)
          → (if b then x ∷ [] else []) ++ select (λ y. key y == r) xs
            ≡ (if b then x ∷ select (λ y. key y == r) xs else select (λ y. key y == r) xs)
      one true = refl
      one false = refl

  pub group_by-matching :
      (key : A → K) (xs : List A) (r : K)
      → matching r (group_by key xs) ≡ select (λ x. key x == r) xs
  unfolding group_by
  group_by-matching key xs r = group_into-matching key [] xs r tt
