-- ===== src/Schema/Migrations.antt =====
-- The upgrade of stored payloads: infrareplay/schema/migrations.py. A migration is a function from a
-- dict to a dict; the registry maps the version that it upgrades from to it.

pub mod Ended
use infra_replay.Common.{
  ℕ, zero, suc, ◌+◌, ◌-◌, String, Bool, true, false, Option, none, some, ltb, if◌then◌else◌,
}
use infra_replay.Common.Dict.{Dict, get, set}
use infra_replay.Schema.Value.{ℤ, Value, bool, int, Fields, find, bool_int, int_eq}

abbrev pub Migration : Type 0
Migration = Fields → Fields

-- `register`
unfoldable pub register : ℤ → Migration → Dict ℤ Migration → Dict ℤ Migration
unfolding set
register from_version migrate migrations = set migrations from_version migrate

-- What `<` and the registry make of a version: True is 1, and anything but a number raises.
abbrev pub as_number : Value → Option ℤ
as_number (int n) = some n
as_number (bool b) = some (bool_int b)
as_number v = none

-- `version < to_version`
abbrev pub is_older : ℤ → ℕ → Bool
is_older (ℤ.pos n) to_version = ltb n to_version
is_older (ℤ.negsuc n) to_version = true

-- The ways `upgrade` ends; `running` is the loop that has used its fuel.
pub data Upgrade : Type 0 where
  upgraded : Fields → Upgrade
  no_migration : ℤ → Upgrade
  type_error : Upgrade
  key_error : Upgrade
  running : Upgrade

-- `raw.get("schema_version", 1)`
unfoldable pub version_of : Fields → Value
unfolding find
version_of raw = elim (find raw "schema_version") [ none ↦ int (ℤ.pos 1) | some v ↦ v ]

module _ (migrations : Dict ℤ Migration) (to_version : ℕ) where
  -- The loop of `upgrade`, at a version.
  unfoldable pub upgrade_from : ℕ → Fields → Value → Upgrade
  unfolding get find
  upgrade_from zero raw version = elim (as_number version) [
    | none ↦ Upgrade.type_error
    | some n ↦ if is_older n to_version then Upgrade.running else Upgrade.upgraded raw
  ]
  upgrade_from (suc fuel) raw version = elim (as_number version) [
    | none ↦ Upgrade.type_error
    | some n ↦ elim (is_older n to_version) [
      | false ↦ Upgrade.upgraded raw
      | true ↦ elim (get migrations n) [
        | none ↦ Upgrade.no_migration n
        | some migrate ↦ elim (find (migrate raw) "schema_version") [
          | none ↦ Upgrade.key_error
          | some v ↦ upgrade_from fuel (migrate raw) v
        ]
      ]
    ]
  ]

  -- `upgrade`
  unfoldable pub upgrade : ℕ → Fields → Upgrade
  unfolding version_of upgrade_from
  upgrade fuel raw = upgrade_from fuel raw (version_of raw)
