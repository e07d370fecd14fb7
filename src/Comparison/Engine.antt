-- ===== src/Comparison/Engine.antt =====
-- infrareplay/comparison/engine.py: walk an original recording against its replay.
pub mod Contract
pub mod Rows
pub mod Accounted
pub mod Replayed
pub mod Faithful
use infra_replay.Common.{
  String, Bool, true, false, Option, none, some, List, [], ◌∷◌, ◌++◌, contains, ◌==◌, string_eq,
  if◌then◌else◌,
}
use infra_replay.Common.Dict.{Dict, get, set}
use infra_replay.Schema.Value.{Fields, end}
use infra_replay.Schema.Event.{Event, EventType}
use infra_replay.Schema.Result.{ComparisonResult, ComparisonCategory}

-- A comparator class, instantiated: its `compare`.
abbrev pub Comparator : Type 0
Comparator = Event → Event → ComparisonResult

-- `{e.event_id: e for e in events}`
unfoldable pub by_id : Dict String Event → List Event → Dict String Event
unfolding set
by_id d [] = d
by_id d (e ∷ events) = by_id (set d e.event_id e) events

unfoldable pub first_recording_id : List Event → String
first_recording_id [] = ""
first_recording_id (e ∷ _) = e.recording_id

-- `replay_by_id.get(replay_eid) if replay_eid else None`
unfoldable pub partner : Dict String Event → Dict String String → Event → Option Event
unfolding get
partner replay_by_id links src = elim (get links src.event_id) [
  | none ↦ none
  | some replay_eid ↦ if replay_eid == "" then none else get replay_by_id replay_eid
]

unfoldable pub missing_row : String → Event → ComparisonResult
missing_row replay_id src = record {
  replay_recording_id = replay_id;
  original_event_id = some src.event_id;
  replayed_event_id = none;
  event_type = src.event_type;
  category = ComparisonCategory.missing;
  diff = end;
}

unfoldable pub new_row : String → Event → ComparisonResult
new_row replay_id event = record {
  replay_recording_id = replay_id;
  original_event_id = none;
  replayed_event_id = some event.event_id;
  event_type = event.event_type;
  category = ComparisonCategory.new;
  diff = end;
}

-- `comparator_for` is the registry's lookup.
module _ (comparator_for : EventType → Option Comparator) where
  -- The first loop, with the rows and the consumed ids that it adds.
  unfoldable pub walk :
      String → (Event → Option Event) → List Event → List ComparisonResult × List String
  unfolding missing_row
  walk replay_id find_partner [] = ([], [])
  walk replay_id find_partner (src ∷ rest) =
      let (results, consumed) = walk replay_id find_partner rest in
      elim (comparator_for src.event_type) [
        | none ↦ (results, consumed)
        | some compare ↦ elim (find_partner src) [
          | none ↦ (missing_row replay_id src ∷ results, consumed)
          | some replay_event ↦
              (compare src replay_event ∷ results, replay_event.event_id ∷ consumed)
        ]
      ]

  -- The second loop.
  unfoldable pub leftovers : String → List String → List Event → List ComparisonResult
  unfolding new_row
  leftovers replay_id consumed [] = []
  leftovers replay_id consumed (event ∷ rest) =
      let results = leftovers replay_id consumed rest in
      if contains consumed event.event_id then results else elim (comparator_for event.event_type) [
        | none ↦ results
        | some _ ↦ new_row replay_id event ∷ results
      ]

  unfoldable pub compare_run : List Event → List Event → Dict String String → List ComparisonResult
  unfolding by_id first_recording_id partner walk leftovers
  compare_run original replayed links =
      let replay_id = first_recording_id replayed in
      let (results, consumed) = walk replay_id (partner (by_id [] replayed) links) original in
      results ++ leftovers replay_id consumed replayed
