-- ===== src/Schema/Migrations/Ended.antt =====
-- Where each migration raises the version, the upgrade ends.
use infra_replay.Common.{
  ℕ, zero, suc, ◌+◌, ◌-◌, ◌≤◌, ◌<◌, ◌≡◌, refl, sym, ap, ◌∙◌, Bool, true, false, none, some, arith,
  ltb, Option-cases, Bool-cases, inl, inr,
}
use mathlib.Core.Option.{none-ne-some, some-injective}
use infra_replay.Common.Dict.{Dict, get}
use infra_replay.Schema.Value.{ℤ, Value, Fields, find, int_eq}
use infra_replay.Schema.Migrations.{
  Migration, as_number, is_older, Upgrade, version_of, upgrade_from, upgrade,
}

-- `a < b`
abbrev pub is_less : ℤ → ℤ → Bool
is_less (ℤ.pos m) (ℤ.pos n) = ltb m n
is_less (ℤ.pos m) (ℤ.negsuc n) = false
is_less (ℤ.negsuc m) (ℤ.pos n) = true
is_less (ℤ.negsuc m) (ℤ.negsuc n) = ltb n m

-- How many versions are missing.
abbrev pub missing : ℕ → ℤ → ℕ
missing to_version (ℤ.pos n) = to_version - n
missing to_version (ℤ.negsuc n) = to_version + suc n

missing-is_less :
    (to_version : ℕ) (a b : ℤ)
    → is_less a b ≡ true
    → is_older a to_version ≡ true
    → suc (missing to_version b) ≤ missing to_version a
missing-is_less to_version (ℤ.pos m) (ℤ.pos n) less older = ground (arith, less, older)
missing-is_less to_version (ℤ.pos m) (ℤ.negsuc n) less older = absurd (ground arith)
missing-is_less to_version (ℤ.negsuc m) (ℤ.pos n) less older = omega arith
missing-is_less to_version (ℤ.negsuc m) (ℤ.negsuc n) less older = ground (arith, less)

older-missing : (to_version : ℕ) (a : ℤ) → is_older a to_version ≡ true → 0 < missing to_version a
older-missing to_version (ℤ.pos m) older = ground (arith, older)
older-missing to_version (ℤ.negsuc m) older = omega arith

-- Each migration answers with a dict of a greater version.
abbrev pub RaiseVersions : Dict ℤ Migration → Type 0
RaiseVersions migrations =
    (n : ℤ) (migrate : Migration) (raw : Fields)
    → get migrations n ≡ some migrate
    → (v : Value) × (m : ℤ) × (find (migrate raw) "schema_version" ≡ some v)
      × (as_number v ≡ some m)
      × (is_less n m ≡ true)

-- The ways the upgrade of a dict may end.
abbrev pub Ends : Dict ℤ Migration → ℕ → Value → Upgrade → Type 0
Ends migrations to_version version (Upgrade.upgraded after) =
    (n : ℤ) × (as_number (version_of after) ≡ some n) × (is_older n to_version ≡ false)
Ends migrations to_version version (Upgrade.no_migration n) =
    (get migrations n ≡ none) × (is_older n to_version ≡ true)
Ends migrations to_version version Upgrade.type_error = as_number version ≡ none
Ends migrations to_version version Upgrade.key_error = ⊥
Ends migrations to_version version Upgrade.running = ⊥

Ends-number :
    (migrations : Dict ℤ Migration) (to_version : ℕ) (v : Value) (m : ℤ) (version : Value)
    (u : Upgrade)
    → as_number v ≡ some m
    → Ends migrations to_version v u
    → Ends migrations to_version version u
Ends-number migrations to_version v m version (Upgrade.upgraded after) numbered h = h
Ends-number migrations to_version v m version (Upgrade.no_migration n) numbered h = h
Ends-number migrations to_version v m version Upgrade.type_error numbered h =
    absurd (none-ne-some _ (sym h ∙ numbered))
Ends-number migrations to_version v m version Upgrade.key_error numbered h = h
Ends-number migrations to_version v m version Upgrade.running numbered h = h

module _ (migrations : Dict ℤ Migration) (to_version : ℕ) (raises : RaiseVersions migrations) where
  upgrade_from-Ends :
      (fuel : ℕ) (raw : Fields) (version : Value)
      → version_of raw ≡ version
      → ((n : ℤ) → as_number version ≡ some n → missing to_version n ≤ fuel)
      → Ends migrations to_version version (upgrade_from migrations to_version fuel raw version)
  unfolding upgrade_from version_of
  upgrade_from-Ends zero raw version own enough = elim (Option-cases (as_number version)) [
    | inl wrong ↦ rw (wrong, upgrade_from) wrong
    | inr (n, number) ↦ elim (Bool-cases (is_older n to_version)) [
      | inl older ↦ absurd (omega (arith, enough n number, older-missing to_version n older))
      | inr reached ↦ rw (number, reached, upgrade_from) (n, ap as_number own ∙ number, reached)
    ]
  ]
  upgrade_from-Ends (suc fuel) raw version own enough = elim (Option-cases (as_number version)) [
    | inl wrong ↦ rw (wrong, upgrade_from) wrong
    | inr (n, number) ↦ elim (Bool-cases (is_older n to_version)) [
      | inr reached ↦ rw (number, reached, upgrade_from) (n, ap as_number own ∙ number, reached)
      | inl older ↦ elim (Option-cases (get migrations n)) [
        | inl unknown ↦ rw (number, older, unknown, upgrade_from) (unknown, older)
        | inr (migrate, known) ↦
            let (v, m, found, numbered, less) = raises n migrate raw known in
            let within : (k : ℤ) → as_number v ≡ some k → missing to_version k ≤ fuel = λ k p.
              omega (
                arith,
                enough n number,
                missing-is_less to_version n m less older,
                ap (missing to_version) (some-injective _ _ (sym numbered ∙ p)),
              ) in
            rw (number, older, known, found, upgrade_from)
              (Ends-number migrations to_version v m version _ numbered
                (upgrade_from-Ends fuel (migrate raw) v (rw (found, version_of) refl) within))
      ]
    ]
  ]

  -- Where each registered migration raises the version, the loop ends, after as many rounds at most as
  -- versions are missing, and never for want of a version: it answers a dict that has reached the
  -- version asked for, or stops at an older version that has no migration, or refuses a version that
  -- is no number.
  pub upgrade-Ends :
      (fuel : ℕ) (raw : Fields)
      → ((n : ℤ) → as_number (version_of raw) ≡ some n → missing to_version n ≤ fuel)
      → Ends migrations to_version (version_of raw) (upgrade migrations to_version fuel raw)
  unfolding upgrade
  upgrade-Ends fuel raw enough = upgrade_from-Ends fuel raw (version_of raw) refl enough
