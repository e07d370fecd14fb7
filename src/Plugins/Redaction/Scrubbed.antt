-- ===== src/Plugins/Redaction/Scrubbed.antt =====
-- What redaction removes, and what it leaves alone.
use infra_replay.Common.{◌≡◌, refl, sym, ap, ap₂, subst, ◌↔◌, true, Bool-cases, inl, inr}
use infra_replay.Schema.Value.{
  Value, null, bool, int, str, arr, obj, Items, nil, cons, Fields, end, field,
}
use infra_replay.Schema.Event.{Event}
use infra_replay.Plugins.Redaction.{
  redacted, is_sensitive, scrub, scrub_items, scrub_fields, redact,
}

-- No sensitive key holds anything but the mask, at any depth.
abbrev mutual
  pub IsScrubbed : Value → Type 0
  IsScrubbed (arr xs) = ItemsScrubbed xs
  IsScrubbed (obj fs) = FieldsScrubbed fs
  IsScrubbed null = Unit
  IsScrubbed (bool b) = Unit
  IsScrubbed (int n) = Unit
  IsScrubbed (str s) = Unit

  pub ItemsScrubbed : Items → Type 0
  ItemsScrubbed nil = Unit
  ItemsScrubbed (cons v xs) = IsScrubbed v × ItemsScrubbed xs

  pub FieldsScrubbed : Fields → Type 0
  FieldsScrubbed end = Unit
  FieldsScrubbed (field k v fs) =
      (is_sensitive k ≡ true → v ≡ str redacted) × IsScrubbed v × FieldsScrubbed fs

mutual
  unfolding scrub scrub_items scrub_fields

  scrub-IsScrubbed : (v : Value) → IsScrubbed (scrub v)
  scrub-IsScrubbed (arr xs) = scrub_items-scrubbed xs
  scrub-IsScrubbed (obj fs) = scrub_fields-scrubbed fs
  scrub-IsScrubbed null = tt
  scrub-IsScrubbed (bool b) = tt
  scrub-IsScrubbed (int n) = tt
  scrub-IsScrubbed (str s) = tt

  scrub_items-scrubbed : (xs : Items) → ItemsScrubbed (scrub_items xs)
  scrub_items-scrubbed nil = tt
  scrub_items-scrubbed (cons v xs) = (scrub-IsScrubbed v, scrub_items-scrubbed xs)

  scrub_fields-scrubbed : (fs : Fields) → FieldsScrubbed (scrub_fields fs)
  scrub_fields-scrubbed end = tt
  scrub_fields-scrubbed (field k v fs) =
      let rest = scrub_fields-scrubbed fs in
      let inside = scrub-IsScrubbed v in
      elim (Bool-cases (is_sensitive k)) [
        | inl hit ↦ rw hit ((λ _. refl), tt, rest)
        | inr miss ↦ rw miss ((λ h. cc), inside, rest)
      ]

mutual
  unfolding scrub scrub_items scrub_fields

  scrub_fixed : (v : Value) → IsScrubbed v → scrub v ≡ v
  scrub_fixed (arr xs) h = ap arr (scrub_items_fixed xs h)
  scrub_fixed (obj fs) h = ap obj (scrub_fields_fixed fs h)
  scrub_fixed null h = refl
  scrub_fixed (bool b) h = refl
  scrub_fixed (int n) h = refl
  scrub_fixed (str s) h = refl

  scrub_items_fixed : (xs : Items) → ItemsScrubbed xs → scrub_items xs ≡ xs
  scrub_items_fixed nil h = refl
  scrub_items_fixed (cons v xs) h = ap₂ cons (scrub_fixed v h.0) (scrub_items_fixed xs h.1)

  scrub_fields_fixed : (fs : Fields) → FieldsScrubbed fs → scrub_fields fs ≡ fs
  scrub_fields_fixed end h = refl
  scrub_fields_fixed (field k v fs) h =
      let rest = scrub_fields_fixed fs h.2 in
      let inside = scrub_fixed v h.1 in
      elim (Bool-cases (is_sensitive k)) [
        | inl hit ↦ rw hit (ap₂ (field k) (sym (h.0 hit)) rest)
        | inr miss ↦ rw miss (ap₂ (field k) inside rest)
      ]

-- The payload of a redacted event holds nothing but the mask under a sensitive key, at any depth.
pub redact-scrubbed : (event : Event) → FieldsScrubbed (redact event).payload
unfolding redact
redact-scrubbed event = scrub_fields-scrubbed event.payload

-- Redaction leaves an event as it is exactly when its payload holds nothing but the mask under a
-- sensitive key, at any depth.
redact-eq_iff : (event : Event) → (redact event ≡ event) ↔ FieldsScrubbed event.payload
unfolding redact
redact-eq_iff event = (
  λ p. subst (λ (e : Event). FieldsScrubbed e.payload) p (redact-scrubbed event),
  λ h. ap (λ fs. record event { payload = fs }) (scrub_fields_fixed event.payload h),
)

-- The payload of a redacted event holds nothing but the mask under a sensitive key, at any depth, and
-- redaction leaves exactly the events as they are of which this holds already.
pub redact-scrubs :
    (event : Event)
    → FieldsScrubbed (redact event).payload
      × ((redact event ≡ event) ↔ FieldsScrubbed event.payload)
redact-scrubs event = (redact-scrubbed event, redact-eq_iff event)
