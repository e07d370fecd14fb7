-- ===== src/Replay/Substitution/Distinct.antt =====
-- Two UUIDs of a run never share a replacement, as long as `uuid4` never repeats itself.
use infra_replay.Common.{
  ℕ, ◌<◌, String, ◌≡◌, ◌≢◌, sym, ap, ◌∙◌, Bool, Option, some, List, [], ◌∷◌, arith, nat_eq,
  string_eq, Bool-cases, Option-cases, inl, inr,
}
use infra_replay.Common.Dict.{Dict, get, get-set_cases}
use infra_replay.Schema.Value.{
  Value, null, bool, int, str, arr, obj, Items, nil, cons, Fields, end, field,
}
use infra_replay.Replay.Substitution.{
  AutoMode, Memory, Substitution, remember, is_plain, swap, walk, walk_items, walk_fields, is_idle,
  apply, apply_all, new_substitution,
}

module _ (uuid4 : ℕ → String) where
  -- The replacements have been drawn, and no two strings share one.
  pub record IsFresh (m : Memory) : Type 0 where
    pub drawn :
        (k v : String) → get m.generated k ≡ some v → (i : ℕ) × (i < m.calls) × (v ≡ uuid4 i)
    pub distinct :
        (j k v : String) → get m.generated j ≡ some v → get m.generated k ≡ some v → j ≡ k

  -- What `remember` keeps, a run keeps.
  module _ (P : Memory → Type 0)
      (keeps : (value : String) (m : Memory) → P m → P (remember uuid4 value m).1)
      (e : Substitution) where
    swap_keeps : (value : String) (m : Memory) → P m → P (swap uuid4 e value m).1
    unfolding swap
    swap_keeps value m h = elim (Option-cases (get e.mapping value)) [
      | inr (new, p) ↦ rw (p, swap) h
      | inl p ↦ elim (Bool-cases (is_plain e value)) [
        | inl q ↦ rw (p, q, swap) h
        | inr q ↦ rw (p, q, swap) (keeps value m h)
      ]
    ]

    mutual
      unfolding walk

      walk_keeps : (v : Value) (m : Memory) → P m → P (walk uuid4 e v m).1
      walk_keeps (obj fs) m h = walk_fields_keeps fs m h
      walk_keeps (arr xs) m h = walk_items_keeps xs m h
      walk_keeps (str s) m h = swap_keeps s m h
      walk_keeps null m h = h
      walk_keeps (bool b) m h = h
      walk_keeps (int n) m h = h

      walk_items_keeps : (xs : Items) (m : Memory) → P m → P (walk_items uuid4 e xs m).1
      walk_items_keeps nil m h = h
      walk_items_keeps (cons v xs) m h = walk_items_keeps xs (walk uuid4 e v m).1 (walk_keeps v m h)

      walk_fields_keeps : (fs : Fields) (m : Memory) → P m → P (walk_fields uuid4 e fs m).1
      walk_fields_keeps end m h = h
      walk_fields_keeps (field k v fs) m h =
          walk_fields_keeps fs (walk uuid4 e v m).1 (walk_keeps v m h)

    apply_keeps : (payload : Fields) (m : Memory) → P m → P (apply uuid4 e payload m).1
    unfolding apply
    apply_keeps payload m h = elim (Bool-cases (is_idle e)) [
      | inl p ↦ rw p h
      | inr p ↦ rw p (walk_fields_keeps payload m h)
    ]

    apply_all_keeps :
        (payloads : List Fields) (m : Memory) → P m → P (apply_all uuid4 e payloads m).1
    unfolding apply_all
    apply_all_keeps [] m h = h
    apply_all_keeps (payload ∷ payloads) m h =
        apply_all_keeps payloads (apply uuid4 e payload m).1 (apply_keeps payload m h)

  -- The memory after the payloads of a run.
  abbrev pub sent :
      (ℕ → Bool)
      → (ℕ → String)
      → (ℕ → String)
      → Option (Dict String String)
      → AutoMode
      → ℕ
      → List Fields
      → Memory
  sent other_word now_iso now_ns mapping auto calls payloads =
      let (e, m) = new_substitution other_word uuid4 now_iso now_ns mapping auto calls in
      (apply_all uuid4 e payloads m).1

  module _ (inj : (i j : ℕ) → uuid4 i ≡ uuid4 j → i ≡ j) where
    -- A value that has been drawn is not the next one.
    not_next :
        (m : Memory) → IsFresh m → (k v : String) → get m.generated k ≡ some v → v ≢ uuid4 m.calls
    not_next m h k v p q =
        let (i, lt, same) = h.drawn k v p in
        let again : i ≡ m.calls = inj i m.calls (sym same ∙ q) in omega arith

    remember-IsFresh :
        (value : String) (m : Memory) → IsFresh m → IsFresh (remember uuid4 value m).1
    unfolding remember
    remember-IsFresh value m h = elim (Option-cases (get m.generated value)) [
      | inr (old, p) ↦
          rw (p, remember)
            (record {
              drawn = λ k v q. let (i, lt, same) = h.drawn k v q in (i, omega arith, same);
              distinct = h.distinct;
            })
      | inl absent ↦
          rw (absent, remember)
            (record {
              drawn = λ k v q. elim (get-set_cases m.generated value k (uuid4 m.calls) v q) [
                | inl (same, new) ↦ (m.calls, omega arith, sym new)
                | inr old ↦ let (i, lt, from) = h.drawn k v old in (i, omega arith, from)
              ];
              distinct = λ j k v p q. elim (get-set_cases m.generated value j (uuid4 m.calls) v p) [
                | inl (same, new) ↦ elim (get-set_cases m.generated value k (uuid4 m.calls) v q) [
                  | inl (again, _) ↦ sym same ∙ again
                  | inr old ↦ absurd (not_next m h k v old (sym new))
                ]
                | inr old ↦ elim (get-set_cases m.generated value k (uuid4 m.calls) v q) [
                  | inl (_, new) ↦ absurd (not_next m h j v old (sym new))
                  | inr older ↦ h.distinct j k v old older
                ]
              ];
            })
    ]

    new_substitution-IsFresh :
        (other_word : ℕ → Bool) (now_iso now_ns : ℕ → String)
        (mapping : Option (Dict String String)) (auto : AutoMode) (calls : ℕ)
        → IsFresh (new_substitution other_word uuid4 now_iso now_ns mapping auto calls).1
    unfolding new_substitution get
    new_substitution-IsFresh other_word now_iso now_ns mapping auto calls = record {
      drawn = λ k v p. cc;
      distinct = λ j k v p q. cc;
    }

    -- Two strings never share a replacement in the memory of a run, from the mapping's expansion to
    -- the last payload, if no two calls of `uuid4` give the same value.
    pub apply_all-distinct :
        (other_word : ℕ → Bool) (now_iso now_ns : ℕ → String)
        (mapping : Option (Dict String String)) (auto : AutoMode) (calls : ℕ)
        (payloads : List Fields) (j k v w : String)
        → j ≢ k
        → get (sent other_word now_iso now_ns mapping auto calls payloads).generated j ≡ some v
        → get (sent other_word now_iso now_ns mapping auto calls payloads).generated k ≡ some w
        → v ≢ w
    apply_all-distinct other_word now_iso now_ns mapping auto calls payloads j k v w ne p q same =
        let (e, m) = new_substitution other_word uuid4 now_iso now_ns mapping auto calls in
        let held =
          apply_all_keeps IsFresh remember-IsFresh e payloads m
            (new_substitution-IsFresh other_word now_iso now_ns mapping auto calls) in
        ne (held.distinct j k v p (q ∙ ap some (sym same)))
