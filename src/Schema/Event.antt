-- ===== src/Schema/Event.antt =====
-- infrareplay/schema/event.py and recording.py
use infra_replay.Common.{ℕ, String, ◌≡◌, ◌↔◌, Bool, true, Option, List, arith, Eq, ◌==◌, nat_eq}
use infra_replay.Schema.Value.{Fields}

pub data EventType : Type 0 where
  http_request http_response pg_query pg_result : EventType

-- The place of a member in the enum, by which members are told apart.
abbrev pub type_index : EventType → ℕ
type_index http_request = 0
type_index http_response = 1
type_index pg_query = 2
type_index pg_result = 3

-- `EventType(...).value`
abbrev pub type_value : EventType → String
type_value http_request = "http.request"
type_value http_response = "http.response"
type_value pg_query = "postgres.query"
type_value pg_result = "postgres.result"

abbrev pub type_beq : EventType → EventType → Bool
type_beq a b = type_index a == type_index b

pub type_beq_iff : (a b : EventType) → (type_beq a b ≡ true) ↔ (a ≡ b)
type_beq_iff a b = ground arith

instance abbrev pub type_eq : Eq EventType
type_eq = record { beq = type_beq; beq_iff = type_beq_iff }

-- Counters and clock readings are natural numbers.
pub record Event : Type 0 where
  pub schema_version : ℕ
  pub recording_id : String
  pub event_id : String
  pub parent_event_id : Option String
  pub sequence : ℕ
  pub timestamp_ns : ℕ
  pub duration_ns : ℕ
  pub event_type : EventType
  pub service : String
  pub correlation_id : String
  pub trace_id : Option String
  pub span_id : Option String
  pub payload : Fields

pub data RecordingKind : Type 0 where
  capture replay : RecordingKind

pub data RecordingStatus : Type 0 where
  creating recording completed failed : RecordingStatus

-- `created_at` is a clock reading.
pub record Recording : Type 0 where
  pub schema_version : ℕ
  pub recording_id : String
  pub project : String
  pub kind : RecordingKind
  pub status : RecordingStatus
  pub title : String
  pub capture_plugin : String
  pub source_recording_id : Option String
  pub target : Option String
  pub created_at : ℕ
  pub events : List Event
