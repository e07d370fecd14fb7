-- ===== src/Plugins/PostgresCapture.antt =====
-- The capture of SQL inside the application: infrareplay/plugins/postgres_capture/plugin.py, and the
-- context of a request, infrareplay/capture/context.py.
-- `hex` and `time_ns` answer the n-th call of `uuid4().hex` and of the clock, which does not go back.
use infra_replay.Common.{
  ℕ, suc, ◌+◌, ◌-◌, String, Bool, ◌&&◌, ◌||◌, Option, none, some, List, [], ◌∷◌, ◌++◌, map, leb,
  ◌==◌, nat_eq, string_eq, if◌then◌else◌,
}
use Prim.Native.Char.{code}
use infra_replay.Common.Text.{joined, first_chars}
use infra_replay.Common.Dict.{Dict, get, set, remove}
use infra_replay.Schema.Value.{
  ℤ, Value, null, bool, int, str, arr, Items, nil, cons, Fields, end, field,
}
use infra_replay.Schema.Event.{Event, EventType, pg_query, pg_result}

pub record CaptureContext : Type 0 where
  pub recording_id : String
  pub correlation_id : String

-- The characters that `strip` takes off.
abbrev is_space : ℕ → Bool
is_space c =
    (leb 0x9 c && leb c 0xd)
    || (leb 0x1c c && leb c 0x20)
    || (c == 0x85)
    || (c == 0xa0)
    || (c == 0x1680)
    || (leb 0x2000 c && leb c 0x200a)
    || (c == 0x2028)
    || (c == 0x2029)
    || (c == 0x202f)
    || (c == 0x205f)
    || (c == 0x3000)

unfoldable pub strip_left : String → String
strip_left String.[] = String.[]
strip_left (String.◌∷◌ c s) =
    let rest = strip_left s in if is_space (code c) then rest else String.◌∷◌ c s

unfoldable pub strip_right : String → String
strip_right String.[] = String.[]
strip_right (String.◌∷◌ c s) =
    let rest = strip_right s in
    if (rest == "") && is_space (code c) then String.[] else String.◌∷◌ c rest

-- A parameter of a statement: a str, int, bool or None as it is, any other object by its `str`.
pub data Param : Type 0 where
  plain : Value → Param
  object : String → Param

pub data Parameters : Type 0 where
  absent : Parameters
  by_name : Dict String Param → Parameters
  by_place : List Param → Parameters

abbrev jsonable_one : Param → Value
jsonable_one (Param.plain v) = v
jsonable_one (Param.object text) = str text

unfoldable pub jsonable_all : List Param → Items
jsonable_all [] = nil
jsonable_all (p ∷ ps) = cons (jsonable_one p) (jsonable_all ps)

-- `_jsonable`
unfoldable pub jsonable : Parameters → Items
unfolding jsonable_all
jsonable Parameters.absent = nil
jsonable (Parameters.by_name d) = jsonable_all (map (λ e. e.1) d)
jsonable (Parameters.by_place ps) = jsonable_all ps

-- A cursor's `rowcount`, or none if it has no such attribute, and whether it has a description.
pub record Cursor : Type 0 where
  pub rowcount : Option ℤ
  pub returns_rows : Bool

abbrev row_count : Option ℤ → Value
row_count none = null
row_count (some (ℤ.negsuc n)) = if n == 0 then null else int (ℤ.negsuc n)
row_count (some n) = int n

-- `_result_payload`
unfoldable pub result_payload : Cursor → Fields
result_payload cursor =
    field "rows_affected" (row_count cursor.rowcount)
      (field "returns_rows" (bool cursor.returns_rows) end)

-- A PostgresCapturePlugin that listens: its counter, its queue, the start that each connection's
-- `info` holds, and the calls of `uuid4` and the clock. The sentinel on the queue is none.
pub record Listener : Type 0 where
  pub service : String
  pub sequence : ℕ
  pub queue : List (Option Event)
  pub starts : Dict ℕ ℕ
  pub calls : ℕ

-- `conn.info.pop(_START_KEY, now)`
abbrev start_or : Option ℕ → ℕ → ℕ
start_or none now = now
start_or (some t) now = t

module _ (hex : ℕ → String) (time_ns : ℕ → ℕ) where
  -- `_event`
  unfoldable pub sql_event :
      EventType → Fields → CaptureContext → ℕ → ℕ → Option String → Listener → Event × Listener
  sql_event event_type payload active timestamp_ns duration_ns parent l = (
    record {
      schema_version = 1;
      recording_id = active.recording_id;
      event_id = joined "evt_" (first_chars 12 (hex l.calls));
      parent_event_id = parent;
      sequence = l.sequence;
      timestamp_ns = timestamp_ns;
      duration_ns = duration_ns;
      event_type = event_type;
      service = l.service;
      correlation_id = active.correlation_id;
      trace_id = none;
      span_id = none;
      payload = payload;
    },
    record l { sequence = suc l.sequence; calls = suc l.calls },
  )

  -- `_before`
  unfoldable pub before_execute : ℕ → Listener → Listener
  unfolding set
  before_execute conn l = record l {
    starts = set l.starts conn (time_ns l.calls);
    calls = suc l.calls;
  }

  -- `_after`, in the context of a request or none.
  unfoldable pub after_execute :
      ℕ → String → Parameters → Cursor → Option CaptureContext → Listener → Listener
  unfolding get remove sql_event strip_left strip_right jsonable result_payload
  after_execute conn statement parameters cursor none l = l
  after_execute conn statement parameters cursor (some active) l =
      let started = start_or (get l.starts conn) (time_ns l.calls) in
      let elapsed = time_ns (suc l.calls) - started in
      let now : Listener = record l { starts = remove l.starts conn; calls = suc (suc l.calls) } in
      let (query, asked) =
        sql_event pg_query
          (field "sql" (str (strip_left (strip_right statement)))
            (field "params" (arr (jsonable parameters)) end))
          active started elapsed none now in
      let (result, answered) =
        sql_event pg_result (result_payload cursor) active (started + elapsed) 0
          (some query.event_id) asked in
      record answered { queue = (l.queue ++ some query ∷ []) ++ some result ∷ [] }
