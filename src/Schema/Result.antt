-- ===== src/Schema/Result.antt =====
-- infrareplay/schema/comparison.py
use infra_replay.Common.{String, Option}
use infra_replay.Schema.Value.{Fields}
use infra_replay.Schema.Event.{EventType}

pub data ComparisonCategory : Type 0 where
  match different missing new error : ComparisonCategory

-- `event_type` holds the value of a member of the enum, which stands here itself.
pub record ComparisonResult : Type 0 where
  pub replay_recording_id : String
  pub original_event_id : Option String
  pub replayed_event_id : Option String
  pub event_type : EventType
  pub category : ComparisonCategory
  pub diff : Fields
