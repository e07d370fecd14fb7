-- ===== src/Recording/Portable/Bundle.antt =====
-- A recording as one document: build_bundle and parse_bundle of infrareplay/recording/portable.py.
-- `dump_event` and `dump_recording` are pydantic's model_dump in JSON mode, the second without the
-- events; `validate_event` and `validate_recording` are the models' constructors, which answer none
-- where they raise a ValidationError or a TypeError.
pub mod RoundTrip
use infra_replay.Common.{
  ℕ, String, Bool, true, false, Option, none, some, List, [], ◌∷◌, ltb, if◌then◌else◌,
}
use infra_replay.Common.Dict.{Dict}
use infra_replay.Schema.Value.{
  ℤ, Value, null, bool, int, str, arr, obj, Items, nil, cons, Fields, end, field, find, get_value,
}
use infra_replay.Schema.Event.{Event, Recording}
use infra_replay.Schema.Migrations.{Migration, Upgrade, as_number, is_older, version_of, upgrade}

abbrev pub bundle_version : ℕ
bundle_version = 1

abbrev pub schema_version : ℕ
schema_version = 1

-- How `parse_bundle` ends: with a recording, with a BundleError, with an exception that it does not
-- turn into one, or not at all, as an upgrade does not end.
pub data Parsed {ℓ} (A : Type ℓ) : Type ℓ where
  parsed : A → Parsed A
  bundle_error : Parsed A
  other_error : Parsed A
  unfinished : Parsed A

abbrev pub and_then {ℓ κ} : {A : Type ℓ} {B : Type κ} → Parsed A → (A → Parsed B) → Parsed B
and_then (Parsed.parsed a) f = f a
and_then Parsed.bundle_error f = Parsed.bundle_error
and_then Parsed.other_error f = Parsed.other_error
and_then Parsed.unfinished f = Parsed.unfinished

-- What the `except` makes of an upgrade: a KeyError and a TypeError are turned into a BundleError, and
-- the ValueError of a missing migration is not.
abbrev upgraded_dict : Upgrade → Parsed Fields
upgraded_dict (Upgrade.upgraded after) = Parsed.parsed after
upgraded_dict (Upgrade.no_migration n) = Parsed.other_error
upgraded_dict Upgrade.type_error = Parsed.bundle_error
upgraded_dict Upgrade.key_error = Parsed.bundle_error
upgraded_dict Upgrade.running = Parsed.unfinished

-- An answer of a constructor.
abbrev validated {ℓ} : {A : Type ℓ} → Option A → Parsed A
validated none = Parsed.bundle_error
validated (some a) = Parsed.parsed a

module _ (dump_event : Event → Fields) (dump_recording : Recording → Fields) where
  unfoldable pub dump_events : List Event → Items
  dump_events [] = nil
  dump_events (e ∷ events) = cons (obj (dump_event e)) (dump_events events)

  -- `build_bundle`, at the time `now`.
  unfoldable pub build_bundle : String → Recording → Fields
  unfolding dump_events
  build_bundle now recording = field "bundle_version" (int (ℤ.pos bundle_version)) (
      field "schema_version" (int (ℤ.pos schema_version)) (
        field "exported_at" (str now) (
          field "recording" (obj (dump_recording recording))
            (field "events" (arr (dump_events recording.events)) end))))

module _ (migrations : Dict ℤ Migration) (fuel : ℕ) (validate_event : Fields → Option Event)
    (validate_recording : Fields → List Event → Option Recording) where
  -- `_upgraded`
  unfoldable pub upgraded : Fields → Parsed Fields
  unfolding version_of upgrade
  upgraded raw = elim (as_number (version_of raw)) [
    | none ↦ Parsed.bundle_error
    | some n ↦
        if is_older n schema_version
        then upgraded_dict (upgrade migrations schema_version fuel raw)
        else Parsed.parsed raw
  ]

  -- The events of a document: anything but a dict has no `get`, which is an AttributeError.
  unfoldable pub parse_events : Items → Parsed (List Event)
  unfolding upgraded
  parse_events nil = Parsed.parsed []
  parse_events (cons (obj raw) items) = and_then (upgraded raw) (λ now.
      and_then (validated (validate_event now))
        (λ event. and_then (parse_events items) (λ events. Parsed.parsed (event ∷ events))))
  parse_events (cons v items) = Parsed.other_error

  -- `doc.get("events", [])`, iterated over: a dict or a text that is not empty yields texts.
  unfoldable pub events_in : Option Value → Parsed (List Event)
  unfolding parse_events
  events_in none = Parsed.parsed []
  events_in (some (arr items)) = parse_events items
  events_in (some (obj end)) = Parsed.parsed []
  events_in (some (obj (field k v fs))) = Parsed.other_error
  events_in (some (str String.[])) = Parsed.parsed []
  events_in (some (str (String.◌∷◌ c s))) = Parsed.other_error
  events_in (some v) = Parsed.bundle_error

  -- `Recording(**doc["recording"], events=events)`
  unfoldable pub recording_in : Option Value → List Event → Parsed Recording
  recording_in (some (obj raw)) events = validated (validate_recording raw events)
  recording_in v events = Parsed.bundle_error

  -- `parse_bundle`: the comparison of a version that is no number raises a TypeError.
  unfoldable pub parse_bundle : Fields → Parsed Recording
  unfolding find get_value events_in recording_in
  parse_bundle doc = elim (get_value doc "bundle_version") [
    | null ↦ Parsed.bundle_error
    | int (ℤ.pos n) ↦ if ltb bundle_version n then Parsed.bundle_error else body
    | int (ℤ.negsuc n) ↦ body
    | bool b ↦ body
    | str s ↦ Parsed.other_error
    | arr xs ↦ Parsed.other_error
    | obj fs ↦ Parsed.other_error
  ]
    where
      body : Parsed Recording
      body = and_then (events_in (find doc "events")) (recording_in (find doc "recording"))
