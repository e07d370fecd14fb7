-- ===== src/Recording/Portable.antt =====
-- Fresh ids for an imported recording: infrareplay/recording/portable.py. `hex` answers the n-th
-- call of `uuid4().hex`.
pub mod Bundle
pub mod Rekeyed
use infra_replay.Common.{ℕ, suc, String, Option, none, some, List, [], ◌∷◌, map, string_eq}
use infra_replay.Common.Text.{joined, first_chars}
use infra_replay.Common.Dict.{Dict, get, set}
use infra_replay.Schema.Event.{Event, Recording}

abbrev pub rekeyed_parent : Dict String String → Option String → Option String
rekeyed_parent renamed none = none
rekeyed_parent renamed (some id) = get renamed id

-- `renamed[event_id]`, which is there for each event of the recording.
abbrev pub rekeyed_id : Dict String String → String → String
rekeyed_id renamed id = elim (get renamed id) [ none ↦ id | some new ↦ new ]

unfoldable pub rekey_event : Dict String String → String → Event → Event
unfolding get
rekey_event renamed recording_id event = record event {
  recording_id = recording_id;
  event_id = rekeyed_id renamed event.event_id;
  parent_event_id = rekeyed_parent renamed event.parent_event_id;
}

module _ (hex : ℕ → String) where
  unfoldable pub renamed_from : ℕ → Dict String String → List Event → Dict String String
  unfolding set
  renamed_from calls d [] = d
  renamed_from calls d (event ∷ events) =
      renamed_from (suc calls) (set d event.event_id (joined "evt_" (first_chars 12 (hex calls))))
        events

  -- `rekey`
  unfoldable pub rekey : Recording → Recording
  unfolding renamed_from rekey_event
  rekey recording =
      let id = joined "rec_" (first_chars 12 (hex 0)) in
      let renamed = renamed_from 1 [] recording.events in
      record recording { recording_id = id; events = map (rekey_event renamed id) recording.events }
