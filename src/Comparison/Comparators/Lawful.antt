-- ===== src/Comparison/Comparators/Lawful.antt =====
-- The built-in comparators keep to the contract, and find nothing where nothing changed.
use mathlib.Core.Option.{some-injective}
use infra_replay.Common.{
  ℕ, String, ◌≡◌, ◌≢◌, refl, ap₂, ◌∙◌, subst, Bool, true, false, ◌&&◌, List, arith, Bool-cases, inl,
  inr, string_eq,
}
use infra_replay.Schema.Value.{
  Value, null, bool, int, str, arr, obj, Items, nil, cons, Fields, end, field, has_key, get_value,
  value_beq,
}
use infra_replay.Schema.Value.Equality.{
  HasDicts, ItemsHaveDicts, IsDict, value_beq_refl, get_value-HasDicts,
}
use infra_replay.Schema.Event.{Event, http_request, http_response, pg_query, pg_result}
use infra_replay.Schema.Result.{ComparisonResult, ComparisonCategory}
use infra_replay.Comparison.Normalize.{is_stable, normalize, normalize_items, normalize_fields}
use infra_replay.Comparison.Engine.Contract.{IsVerdict, IsLawful}
use infra_replay.Comparison.Comparators.{
  result_for, conclude, http_compare, postgres_compare, builtin_comparator,
}
use infra_replay.Comparison.Comparators.Verdicts.{
  verdict, http_compare-category, postgres_compare-category,
}

original-conclude :
    (r : ComparisonResult) (d : Fields) → (conclude r d).original_event_id ≡ r.original_event_id
unfolding conclude
original-conclude r end = refl
original-conclude r (field k v fs) = refl

replayed-conclude :
    (r : ComparisonResult) (d : Fields) → (conclude r d).replayed_event_id ≡ r.replayed_event_id
unfolding conclude
replayed-conclude r end = refl
replayed-conclude r (field k v fs) = refl

verdict-ne-missing : (a b : Bool) → verdict a b ≢ ComparisonCategory.missing
verdict-ne-missing a b = ground arith

verdict-ne-new : (a b : Bool) → verdict a b ≢ ComparisonCategory.new
verdict-ne-new a b = ground arith

module _ (ignore_fields : List String) (other_digit : ℕ → Bool) where
  http_compare-IsVerdict : IsVerdict (http_compare ignore_fields other_digit)
  unfolding http_compare
  http_compare-IsVerdict = record {
    original = λ a b. elim (Bool-cases (has_key b.payload "error")) [
      | inl p ↦ rw p
      | inr p ↦ rw p (original-conclude (result_for http_response a b) _)
    ];
    replayed = λ a b. elim (Bool-cases (has_key b.payload "error")) [
      | inl p ↦ rw p
      | inr p ↦ rw p (replayed-conclude (result_for http_response a b) _)
    ];
    not_missing =
        λ a b. rw (http_compare-category ignore_fields other_digit a b) (verdict-ne-missing _ _);
    not_new = λ a b. rw (http_compare-category ignore_fields other_digit a b) (verdict-ne-new _ _);
  }

  postgres_compare-IsVerdict : IsVerdict (postgres_compare ignore_fields other_digit)
  unfolding postgres_compare
  postgres_compare-IsVerdict = record {
    original = λ a b. elim (Bool-cases (has_key b.payload "error")) [
      | inl p ↦ rw p
      | inr p ↦ rw p (original-conclude (result_for pg_result a b) _)
    ];
    replayed = λ a b. elim (Bool-cases (has_key b.payload "error")) [
      | inl p ↦ rw p
      | inr p ↦ rw p (replayed-conclude (result_for pg_result a b) _)
    ];
    not_missing = λ a b.
        rw (postgres_compare-category ignore_fields other_digit a b) (verdict-ne-missing _ _);
    not_new =
        λ a b. rw (postgres_compare-category ignore_fields other_digit a b) (verdict-ne-new _ _);
  }

  -- Each built-in comparator names both events in its row, and its verdict is neither MISSING nor
  -- NEW, as the comparison requires of the comparators it is given.
  pub builtin_comparator-IsLawful : IsLawful (builtin_comparator ignore_fields other_digit)
  unfolding builtin_comparator
  builtin_comparator-IsLawful http_request c p = cc
  builtin_comparator-IsLawful http_response c p =
      subst IsVerdict (some-injective _ _ p) http_compare-IsVerdict
  builtin_comparator-IsLawful pg_query c p = cc
  builtin_comparator-IsLawful pg_result c p =
      subst IsVerdict (some-injective _ _ p) postgres_compare-IsVerdict

  has_key-normalize_fields :
      (fs : Fields) (k : String)
      → has_key fs k ≡ false
      → has_key (normalize_fields ignore_fields other_digit fs) k ≡ false
  unfolding normalize_fields has_key
  has_key-normalize_fields end k h = refl
  has_key-normalize_fields (field j v fs) k h =
      let rest = has_key-normalize_fields fs k (ground arith) in
      elim (Bool-cases (is_stable ignore_fields other_digit j)) [
        | inl kept ↦ rw kept (ground (arith, rest))
        | inr dropped ↦ rw dropped rest
      ]

  mutual
    unfolding normalize normalize_items normalize_fields

    normalize-HasDicts : (v : Value) → HasDicts v → HasDicts (normalize ignore_fields other_digit v)
    normalize-HasDicts (obj fs) h = normalize_fields-IsDict fs h
    normalize-HasDicts (arr xs) h = normalize_items-HaveDicts xs h
    normalize-HasDicts null h = tt
    normalize-HasDicts (bool b) h = tt
    normalize-HasDicts (int n) h = tt
    normalize-HasDicts (str s) h = tt

    normalize_items-HaveDicts :
        (xs : Items)
        → ItemsHaveDicts xs
        → ItemsHaveDicts (normalize_items ignore_fields other_digit xs)
    normalize_items-HaveDicts nil h = tt
    normalize_items-HaveDicts (cons v xs) h =
        (normalize-HasDicts v h.0, normalize_items-HaveDicts xs h.1)

    normalize_fields-IsDict :
        (fs : Fields) → IsDict fs → IsDict (normalize_fields ignore_fields other_digit fs)
    normalize_fields-IsDict end h = tt
    normalize_fields-IsDict (field k v fs) h =
        let inside = normalize-HasDicts v h.1 in
        let rest = normalize_fields-IsDict fs h.2 in
        elim (Bool-cases (is_stable ignore_fields other_digit k)) [
          | inl kept ↦ rw kept (has_key-normalize_fields fs k h.0, inside, rest)
          | inr dropped ↦ rw dropped rest
        ]

  -- Equal payloads agree under every key.
  agrees-same :
      (a b : Fields) (key : String)
      → a ≡ b
      → IsDict a
      → value_beq
          (normalize ignore_fields other_digit (get_value a key))
          (normalize ignore_fields other_digit (get_value b key))
        ≡ true
  agrees-same a b key p h =
      subst
        (λ (c : Fields).
          value_beq (normalize ignore_fields other_digit (get_value a key))
            (normalize ignore_fields other_digit (get_value c key))
          ≡ true)
        p (value_beq_refl _ (normalize-HasDicts (get_value a key) (get_value-HasDicts a key h)))

  -- A replayed event whose payload is the original's, with no error in it, is a MATCH for both
  -- comparators. The payload is to be a dict in which each key stands once, at every depth.
  pub compare_same :
      (original replayed : Event)
      → original.payload ≡ replayed.payload
      → IsDict original.payload
      → has_key replayed.payload "error" ≡ false
      → ((http_compare ignore_fields other_digit original replayed).category
          ≡ ComparisonCategory.match)
        × ((postgres_compare ignore_fields other_digit original replayed).category
            ≡ ComparisonCategory.match)
  compare_same original replayed p h answered = (
    http_compare-category ignore_fields other_digit original replayed
        ∙ ap₂ verdict answered (
            ap₂ ◌&&◌ (status original.payload replayed.payload p h)
              (agrees-same original.payload replayed.payload "body" p h)),
    postgres_compare-category ignore_fields other_digit original replayed
        ∙ ap₂ verdict answered (
            ap₂ ◌&&◌ (agrees-same original.payload replayed.payload "rows_affected" p h)
              (agrees-same original.payload replayed.payload "rows" p h)),
  )
    where
      status :
          (a b : Fields)
          → a ≡ b
          → IsDict a
          → value_beq (get_value a "status") (get_value b "status") ≡ true
      status a b q d =
          subst (λ (c : Fields). value_beq (get_value a "status") (get_value c "status") ≡ true) q
            (value_beq_refl _ (get_value-HasDicts a "status" d))
