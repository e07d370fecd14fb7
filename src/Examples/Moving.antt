-- ===== src/Examples/Moving.antt =====
-- A recording exported, and imported where its id is taken; a dict upgraded.
use infra_replay.Common.{
  ◌≡◌, refl, arith, ◌∙◌, sym, ap, Option, none, some, List, [], ◌∷◌, map, ◌==◌, find_first,
  string_eq, Bool-cases, inl, inr,
}
use mathlib.Core.Option.{none-ne-some, some-injective}
use infra_replay.Common.Dict.{Dict, get}
use infra_replay.Schema.Value.{ℤ, Value, Items, Fields, find, set_field, find-set_field, int_eq}
use infra_replay.Schema.Event.{Event, Recording}
use infra_replay.Schema.Migrations.{Migration, register, version_of, upgrade}
use infra_replay.Schema.Migrations.Ended.{RaiseVersions, Ends, is_less, missing, upgrade-Ends}
use infra_replay.Recording.Database.{db_after}
use infra_replay.Recording.Service.{start_recording, append_events, finish_recording}
use infra_replay.Recording.Portable.Bundle.{Parsed, build_bundle, parse_bundle}
use infra_replay.Recording.Portable.Bundle.RoundTrip.{parse_bundle-build_bundle}
use infra_replay.Recording.Transfer.{import_parsed, list_projects}
use infra_replay.Examples.{arrived}
use infra_replay.Examples.Storing.{dashes, in_order, blob_at, bundled, finished}

-- Version 0 is upgraded to version 1.
abbrev to_one : Migration
to_one raw = set_field raw "schema_version" (Value.int (ℤ.pos 1))

abbrev migrations : Dict ℤ Migration
migrations = register (ℤ.pos 0) to_one []

migrations-RaiseVersions : RaiseVersions migrations
unfolding register get
migrations-RaiseVersions n migrate raw p = elim (Bool-cases (ℤ.pos 0 == n)) [
  | inl zeroth ↦
      let same : to_one ≡ migrate = some-injective _ _ (rw zeroth at p) in
      (
        Value.int (ℤ.pos 1),
        ℤ.pos 1,
        ap (λ (f : Migration). find (f raw) "schema_version") (sym same)
            ∙ find-set_field raw "schema_version" "schema_version" (Value.int (ℤ.pos 1)),
        refl,
        ap (λ k. is_less k (ℤ.pos 1)) (sym ((int_eq.beq_iff (ℤ.pos 0) n).0 zeroth)),
      )
  | inr other ↦ absurd (none-ne-some _ (rw other at p))
]

abbrev old : Fields
old = Fields.field "schema_version" (Value.int (ℤ.pos 0)) Fields.end

upgrade-Ends_example : Ends migrations 1 (version_of old) (upgrade migrations 1 1 old)
unfolding version_of find
upgrade-Ends_example =
    upgrade-Ends migrations 1 migrations-RaiseVersions 1 old
      (λ n p. omega (arith, ap (missing 1) (some-injective _ _ p)))

-- Dumps that tell the events apart by their ids.
abbrev pub dump_event : Event → Fields
dump_event e =
    Fields.field "schema_version" (Value.int (ℤ.pos e.schema_version))
      (Fields.field "event_id" (Value.str e.event_id) Fields.end)

abbrev pub dump_recording : Recording → Fields
dump_recording r = Fields.field "recording_id" (Value.str r.recording_id) Fields.end

abbrev pub validate_event : Fields → Option Event
validate_event (Fields.field k v (Fields.field j (Value.str id) fs)) =
    find_first (λ e. e.event_id == id) arrived
validate_event fs = none

abbrev pub validate_recording : Fields → List Event → Option Recording
validate_recording fs events = some (record bundled { events = events })

parse_bundle-build_bundle_example :
    parse_bundle migrations 0 validate_event validate_recording
      (build_bundle dump_event dump_recording "2026-01-01" bundled)
    ≡ Parsed.parsed bundled
unfolding find
parse_bundle-build_bundle_example =
    parse_bundle-build_bundle dump_event dump_recording migrations 0 validate_event
      validate_recording "2026-01-01" bundled
      (
        record { read_back = refl; dumped_version = refl; current = omega arith },
        (
          record { read_back = refl; dumped_version = refl; current = omega arith },
          (
            record { read_back = refl; dumped_version = refl; current = omega arith },
            (record { read_back = refl; dumped_version = refl; current = omega arith }, tt),
          ),
        ),
      )
      refl

-- An event of an old version, with no migration for it, ends the import with an exception that is no
-- BundleError.
old_version_escapes :
    parse_bundle [] 1 validate_event validate_recording (
      Fields.field "bundle_version"
        (Value.int (ℤ.pos 1))
        (Fields.field "events" (Value.arr (Items.cons (Value.obj old) Items.nil)) Fields.end))
    ≡ Parsed.other_error
unfolding parse_bundle
old_version_escapes = refl

imported_anew :
    map
      (λ r. r.recording_id)
      (db_after (import_parsed in_order blob_at dashes bundled "" 9 finished)).recordings
    ≡ "r1" ∷ "rec_" ∷ []
unfolding import_parsed start_recording append_events finish_recording
imported_anew = refl

projects_after :
    map
      (λ p. p.recordings)
      (list_projects (db_after (import_parsed in_order blob_at dashes bundled "" 9 finished)))
    ≡ 2 ∷ []
unfolding list_projects import_parsed start_recording append_events finish_recording
projects_after = refl
