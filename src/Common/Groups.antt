-- ===== src/Common/Groups.antt =====
-- What grouping by a key keeps: every element, once, under its own key. And what has been grouped
-- once is grouped again as it stands.
use mathlib.Core.List.{perm_middle}
use mathlib.Core.List.Perm
use infra_replay.Common.{
  ◌≡◌, refl, sym, ap, ◌∙◌, ◌≢◌, false, List, [], ◌∷◌, ◌++◌, arith, append_assoc, append-nil, Perm,
  concat, Eq, ◌==◌, Bool-cases, inl, inr, All, All-append,
}
use infra_replay.Common.Dict.{Dict, values, push, group_into, group_by}

module _ {ℓ κ} {K : Type ℓ} {A : Type κ} ⦃e : Eq K⦄ where
  push-perm :
      (d : Dict K (List A)) (k : K) (x : A)
      → Perm (concat (values (push d k x))) (x ∷ concat (values d))
  unfolding push
  push-perm [] k x = Perm.rfl
  push-perm ((j, xs) ∷ d) k x = elim (Bool-cases (j == k)) [
    | inl hit ↦ rw (hit, append_assoc) (perm_middle xs (concat (values d)))
    | inr miss ↦ rw miss (Perm.trans (Perm.append_left xs (push-perm d k x)) (perm_middle xs _))
  ]

  group_into-perm :
      (key : A → K) (d : Dict K (List A)) (xs : List A)
      → Perm (concat (values (group_into key d xs))) (xs ++ concat (values d))
  unfolding group_into
  group_into-perm key d [] = Perm.rfl
  group_into-perm key d (x ∷ xs) =
      Perm.trans (group_into-perm key (push d (key x) x) xs)
        (Perm.trans (Perm.append_left xs (push-perm d (key x) x)) (perm_middle xs _))

  -- Nothing is lost, and nothing appears twice.
  pub group_by-perm : (key : A → K) (xs : List A) → Perm (concat (values (group_by key xs))) xs
  unfolding group_by
  group_by-perm key xs = rw append-nil at (group_into-perm key [] xs)

  -- No group has the key.
  abbrev pub Lacks : K → Dict K (List A) → Type 0
  Lacks k [] = Unit
  Lacks k ((j, _) ∷ d) = ((j == k) ≡ false) × Lacks k d

  -- Each group holds elements of its key, and at least one; no two groups have the same key.
  abbrev pub IsGrouping : (A → K) → Dict K (List A) → Type (ℓ ⊔ κ)
  IsGrouping key [] = Unit
  IsGrouping key ((k, xs) ∷ d) = All (λ x. key x ≡ k) xs × (xs ≢ []) × Lacks k d × IsGrouping key d

  push-Lacks :
      (d : Dict K (List A)) (j k : K) (x : A) → Lacks j d → (k == j) ≡ false → Lacks j (push d k x)
  unfolding push
  push-Lacks [] j k x h ne = (ne, tt)
  push-Lacks ((i, xs) ∷ d) j k x h ne = elim (Bool-cases (i == k)) [
    | inl hit ↦ rw hit h
    | inr miss ↦ rw miss (h.0, push-Lacks d j k x h.1 ne)
  ]

  pub push-IsGrouping :
      (key : A → K) (d : Dict K (List A)) (x : A)
      → IsGrouping key d
      → IsGrouping key (push d (key x) x)
  unfolding push
  push-IsGrouping key [] x h = ((refl, tt), (λ p. cc), tt, tt)
  push-IsGrouping key ((j, xs) ∷ d) x h = elim (Bool-cases (j == key x)) [
    | inl hit ↦ rw hit (
      All-append (λ y. key y ≡ j) xs (x ∷ []) h.0 (sym ((e.beq_iff j (key x)).0 hit), tt),
      snoc-ne-nil xs,
      h.2,
      h.3,
    )
    | inr miss ↦ rw miss (
      h.0,
      h.1,
      push-Lacks d j (key x) x h.2 (ground (arith, e.beq_iff j (key x), e.beq_iff (key x) j)),
      push-IsGrouping key d x h.3,
    )
  ]
    where
      snoc-ne-nil : (ys : List A) → ys ++ x ∷ [] ≢ []
      snoc-ne-nil [] = λ p. cc
      snoc-ne-nil (y ∷ ys) = λ p. cc

  group_into-IsGrouping :
      (key : A → K) (d : Dict K (List A)) (xs : List A)
      → IsGrouping key d
      → IsGrouping key (group_into key d xs)
  unfolding group_into
  group_into-IsGrouping key d [] h = h
  group_into-IsGrouping key d (x ∷ xs) h =
      group_into-IsGrouping key (push d (key x) x) xs (push-IsGrouping key d x h)

  pub group_by-IsGrouping : (key : A → K) (xs : List A) → IsGrouping key (group_by key xs)
  unfolding group_by
  group_by-IsGrouping key xs = group_into-IsGrouping key [] xs tt

  push_new : (d : Dict K (List A)) (k : K) (x : A) → Lacks k d → push d k x ≡ d ++ (k, x ∷ []) ∷ []
  unfolding push
  push_new [] k x h = refl
  push_new ((j, xs) ∷ d) k x h = rw (h.0) (ap (◌∷◌ (j, xs)) (push_new d k x h.1))

  push_last :
      (d : Dict K (List A)) (k : K) (xs : List A) (x : A)
      → Lacks k d
      → push (d ++ (k, xs) ∷ []) k x ≡ d ++ (k, xs ++ x ∷ []) ∷ []
  unfolding push
  push_last [] k xs x h = rw ((e.beq_iff k k).1 refl)
  push_last ((j, ys) ∷ d) k xs x h = rw (h.0) (ap (◌∷◌ (j, ys)) (push_last d k xs x h.1))

  module _ (key : A → K) where
    -- The rest of a group goes to its end.
    group_into_last :
        (d : Dict K (List A)) (k : K) (xs ys rest : List A)
        → Lacks k d
        → All (λ y. key y ≡ k) ys
        → group_into key (d ++ (k, xs) ∷ []) (ys ++ rest)
          ≡ group_into key (d ++ (k, xs ++ ys) ∷ []) rest
    unfolding group_into
    group_into_last d k xs [] rest h all = rw append-nil
    group_into_last d k xs (y ∷ ys) rest h all =
        ap (λ j. group_into key (push (d ++ (k, xs) ∷ []) j y) (ys ++ rest)) all.0
        ∙ (ap (λ d'. group_into key d' (ys ++ rest)) (push_last d k xs y h)
            ∙ (group_into_last d k (xs ++ y ∷ []) ys rest h all.1 ∙ rw append_assoc))

    Lacks-append :
        (j : K) (d : Dict K (List A)) (k : K) (xs : List A)
        → Lacks j d
        → (k == j) ≡ false
        → Lacks j (d ++ (k, xs) ∷ [])
    Lacks-append j [] k xs h ne = (ne, tt)
    Lacks-append j ((i, ys) ∷ d) k xs h ne = (h.0, Lacks-append j d k xs h.1 ne)

    abbrev AllLacked : Dict K (List A) → Dict K (List A) → Type 0
    AllLacked d [] = Unit
    AllLacked d ((k, _) ∷ g) = Lacks k d × AllLacked d g

    AllLacked-append :
        (d : Dict K (List A)) (k : K) (xs : List A) (g : Dict K (List A))
        → AllLacked d g
        → Lacks k g
        → AllLacked (d ++ (k, xs) ∷ []) g
    AllLacked-append d k xs [] h ne = tt
    AllLacked-append d k xs ((j, ys) ∷ g) h ne = (
      Lacks-append j d k xs h.0 (ground (arith, ne.0, e.beq_iff j k, e.beq_iff k j)),
      AllLacked-append d k xs g h.1 ne.1,
    )

    AllLacked-nil : (g : Dict K (List A)) → AllLacked [] g
    AllLacked-nil [] = tt
    AllLacked-nil (x ∷ g) = (tt, AllLacked-nil g)

    group_into_grouped :
        (d g : Dict K (List A))
        → IsGrouping key g
        → AllLacked d g
        → group_into key d (concat (values g)) ≡ d ++ g
    unfolding group_into
    group_into_grouped d [] h lacked = sym (append-nil d)
    group_into_grouped d ((k, []) ∷ g) h lacked = absurd (h.1 refl)
    group_into_grouped d ((k, x ∷ xs) ∷ g) h lacked =
        ap (λ j. group_into key (push d j x) (xs ++ concat (values g))) h.0.0
        ∙ (ap (λ d'. group_into key d' (xs ++ concat (values g))) (push_new d k x lacked.0)
            ∙ (group_into_last d k (x ∷ []) xs (concat (values g)) lacked.0 h.0.1
                ∙ (group_into_grouped (d ++ (k, x ∷ xs) ∷ []) g h.3
                      (AllLacked-append d k (x ∷ xs) g lacked.1 h.2)
                    ∙ append_assoc d ((k, x ∷ xs) ∷ []) g)))

    -- Grouping the groups, laid end to end, gives the same groups.
    pub group_by_grouped :
        (g : Dict K (List A)) → IsGrouping key g → group_by key (concat (values g)) ≡ g
    unfolding group_by
    group_by_grouped g h = group_into_grouped [] g h (AllLacked-nil g)
