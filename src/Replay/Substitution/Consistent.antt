-- ===== src/Replay/Substitution/Consistent.antt =====
-- One value has one replacement over all the payloads of a run.
use mathlib.Core.List.{Forall₂}
use infra_replay.Common.{
  ℕ, String, ◌≡◌, refl, sym, Bool, true, false, none, some, List, [], ◌∷◌, arith, string_eq,
  Bool-cases, Option-cases, inl, inr,
}
use infra_replay.Common.Dict.{Dict, get, get-set, get-set_self}
use infra_replay.Schema.Value.{
  ℤ, Value, null, bool, int, str, arr, obj, Items, nil, cons, Fields, end, field,
}
use infra_replay.Replay.Substitution.{
  Memory, Substitution, remember, is_plain, swap, walk, walk_items, walk_fields, is_idle, is_nil,
  is_off, apply, apply_all,
}

-- What has been generated stays as it is.
abbrev pub Extends : Dict String String → Dict String String → Type 0
Extends g h = (k v : String) → get g k ≡ some v → get h k ≡ some v

module _ (e : Substitution) (g : Dict String String) where
  -- `b` stands where `a` stood, when `g` is what the run has generated: a mapped string is the
  -- mapping's, a plain one is kept, and any other has the one replacement that `g` holds for it.
  pub data IsSwapped : String → String → Type 0 where
    mapped : (a b : String) → get e.mapping a ≡ some b → IsSwapped a b
    kept : (a : String) → get e.mapping a ≡ none → is_plain e a ≡ true → IsSwapped a a
    renamed :
        (a b : String)
        → get e.mapping a ≡ none
        → is_plain e a ≡ false
        → get g a ≡ some b
        → IsSwapped a b

  mutual
    pub data IsWalked : Value → Value → Type 0 where
      at_null : IsWalked null null
      at_bool : (b : Bool) → IsWalked (bool b) (bool b)
      at_int : (n : ℤ) → IsWalked (int n) (int n)
      at_str : {a b : String} → IsSwapped a b → IsWalked (str a) (str b)
      at_arr : {xs ys : Items} → ItemsWalked xs ys → IsWalked (arr xs) (arr ys)
      at_obj : {xs ys : Fields} → FieldsWalked xs ys → IsWalked (obj xs) (obj ys)

    pub data ItemsWalked : Items → Items → Type 0 where
      at_nil : ItemsWalked nil nil
      at_cons :
          {v w : Value} {xs ys : Items}
          → IsWalked v w
          → ItemsWalked xs ys
          → ItemsWalked (cons v xs) (cons w ys)

    pub data FieldsWalked : Fields → Fields → Type 0 where
      at_end : FieldsWalked end end
      at_field :
          (k : String) {v w : Value} {xs ys : Fields}
          → IsWalked v w
          → FieldsWalked xs ys
          → FieldsWalked (field k v xs) (field k w ys)

module _ (e : Substitution) {g h : Dict String String} (ext : Extends g h) where
  IsSwapped-Extends : {a b : String} → IsSwapped e g a b → IsSwapped e h a b
  IsSwapped-Extends (IsSwapped.mapped a b p) = IsSwapped.mapped a b p
  IsSwapped-Extends (IsSwapped.kept a p q) = IsSwapped.kept a p q
  IsSwapped-Extends (IsSwapped.renamed a b p q r) = IsSwapped.renamed a b p q (ext a b r)

  mutual
    IsWalked-Extends : {v w : Value} → IsWalked e g v w → IsWalked e h v w
    IsWalked-Extends IsWalked.at_null = IsWalked.at_null
    IsWalked-Extends (IsWalked.at_bool b) = IsWalked.at_bool b
    IsWalked-Extends (IsWalked.at_int n) = IsWalked.at_int n
    IsWalked-Extends (IsWalked.at_str s) = IsWalked.at_str (IsSwapped-Extends s)
    IsWalked-Extends (IsWalked.at_arr x) = IsWalked.at_arr (ItemsWalked-Extends x)
    IsWalked-Extends (IsWalked.at_obj x) = IsWalked.at_obj (FieldsWalked-Extends x)

    ItemsWalked-Extends : {xs ys : Items} → ItemsWalked e g xs ys → ItemsWalked e h xs ys
    ItemsWalked-Extends ItemsWalked.at_nil = ItemsWalked.at_nil
    ItemsWalked-Extends (ItemsWalked.at_cons v xs) =
        ItemsWalked.at_cons (IsWalked-Extends v) (ItemsWalked-Extends xs)

    pub FieldsWalked-Extends : {xs ys : Fields} → FieldsWalked e g xs ys → FieldsWalked e h xs ys
    FieldsWalked-Extends FieldsWalked.at_end = FieldsWalked.at_end
    FieldsWalked-Extends (FieldsWalked.at_field k v xs) =
        FieldsWalked.at_field k (IsWalked-Extends v) (FieldsWalked-Extends xs)

module _ (uuid4 : ℕ → String) where
  remember-Extends :
      (value : String) (m : Memory)
      → Extends m.generated (remember uuid4 value m).1.generated
        × (get (remember uuid4 value m).1.generated value ≡ some (remember uuid4 value m).0)
  unfolding remember
  remember-Extends value m = elim (Option-cases (get m.generated value)) [
    | inl absent ↦
        rw (absent, remember)
          (
            (λ k v p. ground (
              arith,
              get-set m.generated value k (uuid4 m.calls),
              string_eq.beq_iff value k,
              absent,
              p,
            )),
            get-set_self m.generated value (uuid4 m.calls),
          )
    | inr (old, p) ↦ rw (p, remember) (λ k v q. q, p)
  ]

  module _ (e : Substitution) where
    swap-IsSwapped :
        (value : String) (m : Memory)
        → Extends m.generated (swap uuid4 e value m).1.generated
          × IsSwapped e (swap uuid4 e value m).1.generated value (swap uuid4 e value m).0
    unfolding swap
    swap-IsSwapped value m = elim (Option-cases (get e.mapping value)) [
      | inr (new, p) ↦ rw (p, swap) (λ k v q. q, IsSwapped.mapped value new p)
      | inl p ↦ elim (Bool-cases (is_plain e value)) [
        | inl q ↦ rw (p, q, swap) (λ k v r. r, IsSwapped.kept value p q)
        | inr q ↦
            let (ext, found) = remember-Extends value m in
            rw (p, q, swap) (ext, IsSwapped.renamed value _ p q found)
      ]
    ]

    mutual
      unfolding walk

      walk-IsWalked :
          (v : Value) (m : Memory)
          → Extends m.generated (walk uuid4 e v m).1.generated
            × IsWalked e (walk uuid4 e v m).1.generated v (walk uuid4 e v m).0
      walk-IsWalked (obj fs) m =
          let (ext, h) = walk_fields-FieldsWalked fs m in (ext, IsWalked.at_obj h)
      walk-IsWalked (arr xs) m =
          let (ext, h) = walk_items-ItemsWalked xs m in (ext, IsWalked.at_arr h)
      walk-IsWalked (str s) m = let (ext, h) = swap-IsSwapped s m in (ext, IsWalked.at_str h)
      walk-IsWalked null m = (λ k v p. p, IsWalked.at_null)
      walk-IsWalked (bool b) m = (λ k v p. p, IsWalked.at_bool b)
      walk-IsWalked (int n) m = (λ k v p. p, IsWalked.at_int n)

      walk_items-ItemsWalked :
          (xs : Items) (m : Memory)
          → Extends m.generated (walk_items uuid4 e xs m).1.generated
            × ItemsWalked e (walk_items uuid4 e xs m).1.generated xs (walk_items uuid4 e xs m).0
      walk_items-ItemsWalked nil m = (λ k v p. p, ItemsWalked.at_nil)
      walk_items-ItemsWalked (cons v xs) m =
          let (ext, h) = walk-IsWalked v m in
          let (more, hs) = walk_items-ItemsWalked xs (walk uuid4 e v m).1 in
          (λ k w p. more k w (ext k w p), ItemsWalked.at_cons (IsWalked-Extends e more h) hs)

      walk_fields-FieldsWalked :
          (fs : Fields) (m : Memory)
          → Extends m.generated (walk_fields uuid4 e fs m).1.generated
            × FieldsWalked e (walk_fields uuid4 e fs m).1.generated fs (walk_fields uuid4 e fs m).0
      walk_fields-FieldsWalked end m = (λ k v p. p, FieldsWalked.at_end)
      walk_fields-FieldsWalked (field k v fs) m =
          let (ext, h) = walk-IsWalked v m in
          let (more, hs) = walk_fields-FieldsWalked fs (walk uuid4 e v m).1 in
          (λ j w p. more j w (ext j w p), FieldsWalked.at_field k (IsWalked-Extends e more h) hs)

    no_mapping : (d : Dict String String) (k : String) → is_nil d ≡ true → get d k ≡ none
    unfolding get
    no_mapping [] k p = refl
    no_mapping (x ∷ d) k p = absurd (ground arith)

    swap_idle : is_idle e ≡ true → (value : String) (m : Memory) → swap uuid4 e value m ≡ (value, m)
    unfolding swap is_plain
    swap_idle p value m =
        let unmapped : is_nil e.mapping ≡ true = ground (arith, p) in
        let manual : is_off e.auto ≡ true = ground (arith, p) in
        rw (no_mapping e.mapping value unmapped, manual, swap) refl

    mutual
      unfolding walk

      walk_idle : (v : Value) (m : Memory) → is_idle e ≡ true → walk uuid4 e v m ≡ (v, m)
      walk_idle (obj fs) m p = rw (walk_fields_idle fs m p, walk) refl
      walk_idle (arr xs) m p = rw (walk_items_idle xs m p, walk) refl
      walk_idle (str s) m p = rw (swap_idle p s m, walk) refl
      walk_idle null m p = refl
      walk_idle (bool b) m p = refl
      walk_idle (int n) m p = refl

      walk_items_idle :
          (xs : Items) (m : Memory) → is_idle e ≡ true → walk_items uuid4 e xs m ≡ (xs, m)
      walk_items_idle nil m p = refl
      walk_items_idle (cons v xs) m p =
          rw (walk_idle v m p, walk_items_idle xs m p, walk_items) refl

      walk_fields_idle :
          (fs : Fields) (m : Memory) → is_idle e ≡ true → walk_fields uuid4 e fs m ≡ (fs, m)
      walk_fields_idle end m p = refl
      walk_fields_idle (field k v fs) m p =
          rw (walk_idle v m p, walk_fields_idle fs m p, walk_fields) refl

    -- `apply` is the walk over the payload: where it hands the payload back as it is, with no
    -- mapping and no automatic ids, the walk would change nothing and draw nothing.
    pub apply-walk_fields :
        (payload : Fields) (m : Memory) → apply uuid4 e payload m ≡ walk_fields uuid4 e payload m
    unfolding apply
    apply-walk_fields payload m = elim (Bool-cases (is_idle e)) [
      | inl p ↦ rw p (sym (walk_fields_idle payload m p))
      | inr p ↦ rw p
    ]

    apply_all-Extends :
        (payloads : List Fields) (m : Memory)
        → Extends m.generated (apply_all uuid4 e payloads m).1.generated
    unfolding apply_all
    apply_all-Extends [] m = λ k v p. p
    apply_all-Extends (payload ∷ payloads) m =
        let now = (walk_fields uuid4 e payload m).1 in
        rw (apply-walk_fields payload m, apply_all)
          (λ k v p.
            apply_all-Extends payloads now k v ((walk_fields-FieldsWalked payload m).0 k v p))

    -- Over the payloads of a run, each string has one replacement: a mapped string the mapping's, a
    -- string that is not UUID-shaped (or any, with automatic ids off) itself, and a UUID-shaped one
    -- the replacement that the run's final memory holds for it, in every payload. The keys and the
    -- shape of a payload stay.
    pub apply_all-FieldsWalked :
        (payloads : List Fields) (m : Memory)
        → Forall₂
            (FieldsWalked e (apply_all uuid4 e payloads m).1.generated)
            payloads
            (apply_all uuid4 e payloads m).0
    unfolding apply_all
    apply_all-FieldsWalked [] m = Forall₂.nil
    apply_all-FieldsWalked (payload ∷ payloads) m =
        let now = (walk_fields uuid4 e payload m).1 in
        rw (apply-walk_fields payload m, apply_all)
          (Forall₂.cons
            (FieldsWalked-Extends e (apply_all-Extends payloads now)
              (walk_fields-FieldsWalked payload m).1)
            (apply_all-FieldsWalked payloads now))
