-- ===== src/Recording/Portable/Bundle/RoundTrip.antt =====
-- What is built is parsed again.
use infra_replay.Common.{
  ℕ, ◌≤◌, String, ◌≡◌, refl, false, Option, some, List, [], ◌∷◌, arith, ltb, All,
}
use infra_replay.Common.Dict.{Dict}
use infra_replay.Schema.Value.{ℤ, int, Fields, find, get_value}
use infra_replay.Schema.Event.{Event, Recording}
use infra_replay.Schema.Migrations.{Migration, version_of}
use infra_replay.Recording.Portable.Bundle.{
  Parsed, schema_version, dump_events, build_bundle, upgraded, parse_events, events_in,
  recording_in, parse_bundle,
}

module _ (dump_event : Event → Fields) (dump_recording : Recording → Fields)
    (migrations : Dict ℤ Migration) (fuel : ℕ) (validate_event : Fields → Option Event)
    (validate_recording : Fields → List Event → Option Recording) where
  -- The event is dumped with its version, a current one, and read back as it was.
  pub record IsDumped (e : Event) : Type 0 where
    pub read_back : validate_event (dump_event e) ≡ some e
    pub dumped_version : find (dump_event e) "schema_version" ≡ some (int (ℤ.pos e.schema_version))
    pub current : schema_version ≤ e.schema_version

  upgraded-dump_event :
      (e : Event)
      → IsDumped e
      → upgraded migrations fuel validate_event validate_recording (dump_event e)
        ≡ Parsed.parsed (dump_event e)
  unfolding upgraded version_of
  upgraded-dump_event e h =
      let current : ltb e.schema_version schema_version ≡ false = ground (arith, h.current) in
      rw (h.dumped_version, upgraded) (rw (current, upgraded) refl)

  parse_events-dump_events :
      (events : List Event)
      → All IsDumped events
      → parse_events migrations fuel validate_event validate_recording
          (dump_events dump_event dump_recording events)
        ≡ Parsed.parsed events
  unfolding parse_events dump_events
  parse_events-dump_events [] h = refl
  parse_events-dump_events (e ∷ events) h =
      rw
        (
          upgraded-dump_event e h.0,
          h.0.read_back,
          parse_events-dump_events events h.1,
          parse_events,
        )
        refl

  -- A bundle that is built is parsed as the recording it was built from, if pydantic reads back what
  -- it has dumped and no event has a version older than the schema's.
  pub parse_bundle-build_bundle :
      (now : String) (recording : Recording)
      → All IsDumped recording.events
      → validate_recording (dump_recording recording) recording.events ≡ some recording
      → parse_bundle migrations fuel validate_event validate_recording
          (build_bundle dump_event dump_recording now recording)
        ≡ Parsed.parsed recording
  unfolding parse_bundle build_bundle find get_value events_in recording_in
  parse_bundle-build_bundle now recording dumped whole =
      rw (parse_events-dump_events recording.events dumped, whole, parse_bundle, recording_in) refl
