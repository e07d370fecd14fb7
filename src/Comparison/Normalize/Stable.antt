-- ===== src/Comparison/Normalize/Stable.antt =====
-- What has been normalised once is left as it is.
use infra_replay.Common.{
  ℕ, String, ◌≡◌, refl, sym, ◌∙◌, ◌⊎◌, ap, ap₂, Bool, List, Bool-cases, inl, inr,
}
use infra_replay.Common.Text.{codes}
use infra_replay.Schema.Value.{
  Value, null, bool, int, str, arr, obj, Items, nil, cons, Fields, end, field,
}
use infra_replay.Comparison.Normalize.{
  uuid, timestamp, id, matches_uuid, matches_timestamp, matches_prefixed_id, placeholder, is_stable,
  normalize, normalize_items, normalize_fields,
}

module _ (ignore_fields : List String) (other_digit : ℕ → Bool) where
  placeholder-uuid : placeholder ignore_fields other_digit uuid ≡ uuid
  unfolding placeholder
  placeholder-uuid = refl

  placeholder-timestamp : placeholder ignore_fields other_digit timestamp ≡ timestamp
  unfolding placeholder
  placeholder-timestamp = refl

  placeholder-id : placeholder ignore_fields other_digit id ≡ id
  unfolding placeholder
  placeholder-id = refl

  placeholder_cases :
      (s : String)
      → (placeholder ignore_fields other_digit s ≡ uuid)
        ⊎ (placeholder ignore_fields other_digit s ≡ timestamp)
        ⊎ (placeholder ignore_fields other_digit s ≡ id)
        ⊎ (placeholder ignore_fields other_digit s ≡ s)
  unfolding placeholder
  placeholder_cases s = elim (Bool-cases (matches_uuid (codes s))) [
    | inl u ↦ inl (rw u)
    | inr not_u ↦ elim (Bool-cases (matches_timestamp ignore_fields other_digit (codes s))) [
      | inl t ↦ inr (inl (rw (not_u, t)))
      | inr not_t ↦ elim (Bool-cases (matches_prefixed_id (codes s))) [
        | inl i ↦ inr (inr (inl (rw (not_u, not_t, i))))
        | inr not_i ↦ inr (inr (inr (rw (not_u, not_t, not_i))))
      ]
    ]
  ]

  placeholder_idem :
      (s : String)
      → placeholder ignore_fields other_digit (placeholder ignore_fields other_digit s)
        ≡ placeholder ignore_fields other_digit s
  placeholder_idem s = elim (placeholder_cases s) [
    | inl e ↦ ap again e ∙ (placeholder-uuid ∙ sym e)
    | inr (inl e) ↦ ap again e ∙ (placeholder-timestamp ∙ sym e)
    | inr (inr (inl e)) ↦ ap again e ∙ (placeholder-id ∙ sym e)
    | inr (inr (inr e)) ↦ ap again e
  ]
    where
      again : String → String
      again = placeholder ignore_fields other_digit

  abbrev pub norm : Value → Value
  norm = normalize ignore_fields other_digit

  mutual
    unfolding normalize normalize_items normalize_fields

    normalize_again : (v : Value) → norm (norm v) ≡ norm v
    normalize_again (obj fs) = ap obj (normalize_fields_again fs)
    normalize_again (arr xs) = ap arr (normalize_items_again xs)
    normalize_again (str s) = ap str (placeholder_idem s)
    normalize_again null = refl
    normalize_again (bool b) = refl
    normalize_again (int n) = refl

    normalize_items_again :
        (xs : Items)
        → normalize_items ignore_fields other_digit (normalize_items ignore_fields other_digit xs)
          ≡ normalize_items ignore_fields other_digit xs
    normalize_items_again nil = refl
    normalize_items_again (cons v xs) = ap₂ cons (normalize_again v) (normalize_items_again xs)

    normalize_fields_again :
        (fs : Fields)
        → normalize_fields ignore_fields other_digit (normalize_fields ignore_fields other_digit fs)
          ≡ normalize_fields ignore_fields other_digit fs
    normalize_fields_again end = refl
    normalize_fields_again (field k v fs) =
        let inside = normalize_again v in
        let rest = normalize_fields_again fs in
        elim (Bool-cases (is_stable ignore_fields other_digit k)) [
          | inl kept ↦ rw kept (rw kept (ap₂ (field k) inside rest))
          | inr dropped ↦ rw dropped rest
        ]

  -- Normalising twice is normalising once, whatever the configuration: the placeholders are not
  -- rewritten again, and no key that was kept is dropped the second time.
  pub normalize_idem : (v : Value) → norm (norm v) ≡ norm v
  normalize_idem = normalize_again
