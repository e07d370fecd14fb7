-- ===== src/Common/Dict.antt =====
-- A Python `dict`: an association list in insertion order, with one entry for each key.
use infra_replay.Common.{
  ◌≡◌, refl, sym, ap, ◌∙◌, false, Option, none, some, List, [], ◌∷◌, ◌++◌, map, arith, Eq, ◌==◌,
  if◌then◌else◌, Bool-cases, ◌⊎◌, inl, inr, All, beq_refl,
}
use mathlib.Core.Option.{none-ne-some}

abbrev pub Dict {ℓ κ} : Type ℓ → Type κ → Type (ℓ ⊔ κ)
Dict K V = List (K × V)

module _ {ℓ κ} {K : Type ℓ} {V : Type κ} where
  abbrev pub keys : Dict K V → List K
  keys = map (λ e. e.0)

  abbrev pub values : Dict K V → List V
  values = map (λ e. e.1)

module _ {ℓ κ} {K : Type ℓ} {V : Type κ} ⦃e : Eq K⦄ where
  -- `d.get(k)`
  unfoldable pub get : Dict K V → K → Option V
  get [] k = none
  get ((j, v) ∷ d) k = if j == k then some v else get d k

  -- `d[k] = v`: a key that is there keeps its place.
  unfoldable pub set : Dict K V → K → V → Dict K V
  set [] k v = (k, v) ∷ []
  set ((j, w) ∷ d) k v = if j == k then (j, v) ∷ d else (j, w) ∷ set d k v

  -- `d.pop(k, None)` leaves this.
  unfoldable pub remove : Dict K V → K → Dict K V
  remove [] k = []
  remove ((j, w) ∷ d) k = if j == k then d else (j, w) ∷ remove d k

  pub get-set :
      (d : Dict K V) (k j : K) (v : V) → get (set d k v) j ≡ (if k == j then some v else get d j)
  unfolding get set
  get-set [] k j v = refl
  get-set ((i, w) ∷ d) k j v =
      ground (arith, get-set d k j v, e.beq_iff k j, e.beq_iff i k, e.beq_iff i j)

  pub get-set_self : (d : Dict K V) (k : K) (v : V) → get (set d k v) k ≡ some v
  get-set_self d k v = ground (arith, get-set d k k v, e.beq_iff k k)

  -- What is found after an insertion is the new value or was there before.
  pub get-set_cases :
      (d : Dict K V) (k j : K) (v w : V)
      → get (set d k v) j ≡ some w
      → ((k ≡ j) × (v ≡ w)) ⊎ (get d j ≡ some w)
  get-set_cases d k j v w p = elim (Bool-cases (k == j)) [
    | inl hit ↦ inl ((e.beq_iff k j).0 hit, ground (arith, get-set d k j v, p, hit))
    | inr miss ↦ inr (ground (arith, get-set d k j v, p, miss))
  ]

  -- A key that is not there goes to the end.
  pub set-append : (d : Dict K V) (k : K) (v : V) → get d k ≡ none → set d k v ≡ d ++ (k, v) ∷ []
  unfolding get set
  set-append [] k v h = refl
  set-append ((i, w) ∷ d) k v h = elim (Bool-cases (i == k)) [
    | inl hit ↦ absurd (ground arith)
    | inr miss ↦ rw miss (ap (◌∷◌ (i, w)) (set-append d k v (ground arith)))
  ]

  -- Each key has one entry.
  abbrev pub HasUniqueKeys : Dict K V → Type κ
  HasUniqueKeys [] = Unit
  HasUniqueKeys ((k, v) ∷ d) = (get d k ≡ none) × HasUniqueKeys d

  pub set-HasUniqueKeys :
      (d : Dict K V) (k : K) (v : V) → HasUniqueKeys d → HasUniqueKeys (set d k v)
  unfolding set get
  set-HasUniqueKeys [] k v h = (refl, tt)
  set-HasUniqueKeys ((j, w) ∷ d) k v h = elim (Bool-cases (j == k)) [
    | inl hit ↦ rw hit h
    | inr miss ↦ rw miss (
      ground (arith, get-set d k j v, e.beq_iff j k, e.beq_iff k j, h.0),
      set-HasUniqueKeys d k v h.1,
    )
  ]

  pub get-remove : (d : Dict K V) (k j : K) → (k == j) ≡ false → get (remove d k) j ≡ get d j
  unfolding get remove
  get-remove [] k j h = refl
  get-remove ((i, w) ∷ d) k j h = elim (Bool-cases (i == k)) [
    | inl hit ↦
        let other : (i == j) ≡ false = ap (λ x. x == j) ((e.beq_iff i k).0 hit) ∙ h in
        rw (hit, other) refl
    | inr miss ↦ elim (Bool-cases (i == j)) [
      | inl here ↦ rw (miss, here) refl
      | inr away ↦ rw (miss, away) (get-remove d k j h)
    ]
  ]

  get-remove_absent : (d : Dict K V) (k j : K) → get d j ≡ none → get (remove d k) j ≡ none
  unfolding get remove
  get-remove_absent [] k j h = refl
  get-remove_absent ((i, w) ∷ d) k j h = elim (Bool-cases (i == j)) [
    | inl here ↦ absurd (none-ne-some _ (sym (rw here at h)))
    | inr away ↦ elim (Bool-cases (i == k)) [
      | inl hit ↦ rw hit (rw away at h)
      | inr miss ↦ rw (miss, away) (get-remove_absent d k j (rw away at h))
    ]
  ]

  pub get-remove_self : (d : Dict K V) (k : K) → HasUniqueKeys d → get (remove d k) k ≡ none
  unfolding get remove
  get-remove_self [] k h = refl
  get-remove_self ((i, w) ∷ d) k h = elim (Bool-cases (i == k)) [
    | inl hit ↦ rw hit (ap (get d) (sym ((e.beq_iff i k).0 hit)) ∙ h.0)
    | inr miss ↦ rw (miss, miss) (get-remove_self d k h.1)
  ]

  pub remove-HasUniqueKeys : (d : Dict K V) (k : K) → HasUniqueKeys d → HasUniqueKeys (remove d k)
  unfolding remove
  remove-HasUniqueKeys [] k h = tt
  remove-HasUniqueKeys ((i, w) ∷ d) k h = elim (Bool-cases (i == k)) [
    | inl hit ↦ rw hit h.1
    | inr miss ↦ rw miss (get-remove_absent d k i h.0, remove-HasUniqueKeys d k h.1)
  ]

  AllFound-cons :
      (g d : Dict K V) (k : K) (v : V)
      → get d k ≡ none
      → All (λ x. get g x.0 ≡ some x.1) d
      → All (λ x. get ((k, v) ∷ g) x.0 ≡ some x.1) d
  unfolding get
  AllFound-cons g [] k v h a = tt
  AllFound-cons g ((j, w) ∷ d) k v h a =
      (ground (arith, e.beq_iff k j, e.beq_iff j k, a.0), AllFound-cons g d k v (ground arith) a.1)

  -- Each entry is the one that its key finds.
  pub AllFound_self : (d : Dict K V) → HasUniqueKeys d → All (λ x. get d x.0 ≡ some x.1) d
  unfolding get
  AllFound_self [] h = tt
  AllFound_self ((k, v) ∷ d) h = (rw (beq_refl k), AllFound-cons d d k v h.0 (AllFound_self d h.1))

-- `groups.setdefault(k, []).append(x)`, over a list.
module _ {ℓ κ} {K : Type ℓ} {A : Type κ} ⦃e : Eq K⦄ where
  unfoldable pub push : Dict K (List A) → K → A → Dict K (List A)
  push [] k x = (k, x ∷ []) ∷ []
  push ((j, xs) ∷ d) k x = if j == k then (j, xs ++ x ∷ []) ∷ d else (j, xs) ∷ push d k x

  unfoldable pub group_into : (A → K) → Dict K (List A) → List A → Dict K (List A)
  unfolding push
  group_into key d [] = d
  group_into key d (x ∷ xs) = group_into key (push d (key x) x) xs

  unfoldable pub group_by : (A → K) → List A → Dict K (List A)
  unfolding group_into
  group_by key xs = group_into key [] xs
