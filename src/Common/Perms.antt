-- ===== src/Common/Perms.antt =====
-- Rearrangements of lists of lists, and what they keep.
use mathlib.Core.List.{Permᴰ, Perm-prop, perm_append_comm, length as unary_length}
use mathlib.Core.List.Perm
use mathlib.Core.Logic.{∥∥₁_elim}
use native.Mathlib.Bridge.{from_ℕ}
use infra_replay.Common.{
  ◌≡◌, refl, sym, ap, ◌∙◌, List, [], ◌∷◌, ◌++◌, map, append_assoc, Perm, length, concat,
}

module _ {ℓ} {A : Type ℓ} where
  length-unary : (xs : List A) → length xs ≡ from_ℕ (unary_length xs)
  length-unary [] = refl
  length-unary (x ∷ xs) = ap Prim.Native.Nat.suc (length-unary xs)

  pub length-perm : {xs ys : List A} → Perm xs ys → length xs ≡ length ys
  length-perm {xs} {ys} p = length-unary xs ∙ (ap from_ℕ (Perm.length-eq p) ∙ sym (length-unary ys))

  concat-permᴰ : {xss yss : List (List A)} → Permᴰ xss yss → Perm (concat xss) (concat yss)
  concat-permᴰ Permᴰ.nil = Perm.rfl
  concat-permᴰ (Permᴰ.cons {b = ys} e p) = rw e (Perm.append_left ys (concat-permᴰ p))
  concat-permᴰ (Permᴰ.swap {a' = xs} {b' = ys} {l = l} e f) =
      rw (e, f, ← append_assoc, ← append_assoc)
        (Perm.append_right (concat l) (perm_append_comm ys xs))
  concat-permᴰ (Permᴰ.trans p q) = Perm.trans (concat-permᴰ p) (concat-permᴰ q)

  pub concat-perm : {xss yss : List (List A)} → Perm xss yss → Perm (concat xss) (concat yss)
  concat-perm p = ∥∥₁_elim p Perm-prop concat-permᴰ

  pub concat-map-perm :
      (f : List A → List A) (xss : List (List A))
      → ((xs : List A) → Perm (f xs) xs)
      → Perm (concat (map f xss)) (concat xss)
  concat-map-perm f [] h = Perm.rfl
  concat-map-perm f (xs ∷ xss) h = Perm.append (h xs) (concat-map-perm f xss h)

module _ {A : Type 0} where
  abbrev swapped : (x b w : List A) → Perm (x ++ (b ++ w)) (b ++ (x ++ w))
  swapped x b w =
      rw (← append_assoc x b w, ← append_assoc b x w) (Perm.append_right w (perm_append_comm x b))

  -- A part that moves from a middle to the front.
  pub moved_first-perm :
      (p x b m y z : List A)
      → Perm (p ++ ((x ++ ((b ++ m) ++ y)) ++ z)) ((p ++ b) ++ ((x ++ (m ++ y)) ++ z))
  moved_first-perm p x b m y z =
      rw
        (
          append_assoc p b ((x ++ (m ++ y)) ++ z),
          append_assoc x (m ++ y) z,
          append_assoc x ((b ++ m) ++ y) z,
          append_assoc b m y,
          append_assoc b (m ++ y) z,
        )
        (Perm.append_left p (swapped x b ((m ++ y) ++ z)))

  -- A part that moves from one middle to the next.
  pub moved_on-perm :
      (p x d y u q : List A)
      → Perm (p ++ ((x ++ (d ++ y)) ++ (u ++ q))) (p ++ ((x ++ y) ++ ((u ++ d) ++ q)))
  moved_on-perm p x d y u q =
      rw
        (
          append_assoc x (d ++ y) (u ++ q),
          append_assoc x y ((u ++ d) ++ q),
          append_assoc d y (u ++ q),
          append_assoc u d q,
          ← append_assoc y u q,
          ← append_assoc y u (d ++ q),
        )
        (Perm.append_left p (Perm.append_left x (Perm.symm (swapped (y ++ u) d q))))
