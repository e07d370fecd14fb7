-- ===== src/Recording/Correlate.antt =====
-- infrareplay/recording/correlate.py: merge a stream of several producers into one causal order.
pub mod Requests
pub mod Sequence
pub mod Links
pub mod Payloads
use infra_replay.Common.{
  ℕ, zero, suc, String, Bool, true, false, ◌&&◌, ◌||◌, Option, none, some, List, [], ◌∷◌, map,
  concat, find_first, Eq, ◌==◌, nat_eq, string_eq, ltb, leb, if◌then◌else◌,
}
use infra_replay.Common.Dict.{values, group_by}
use infra_replay.Common.Sort.{sorted}
use infra_replay.Schema.Event.{Event, EventType, http_request, pg_query, pg_result, type_eq}

-- The sort key `(e.timestamp_ns, e.sequence)`, compared as Python compares tuples.
unfoldable pub event_le : Event → Event → Bool
event_le a b =
    ltb a.timestamp_ns b.timestamp_ns
    || ((a.timestamp_ns == b.timestamp_ns) && leb a.sequence b.sequence)

-- The key of a group is that of its first event. No group is empty.
unfoldable pub group_le : List Event → List Event → Bool
unfolding event_le
group_le (a ∷ _) (b ∷ _) = event_le a b
group_le [] _ = true
group_le (a ∷ _) [] = false

unfoldable pub groups : List Event → List (List Event)
unfolding group_by sorted event_le group_le
groups events =
    sorted group_le (map (sorted event_le) (values (group_by (λ e. e.correlation_id) events)))

-- `a or b`, where `a` may be `None` or empty.
unfoldable pub or_else : Option String → Option String → Option String
or_else none b = b
or_else (some s) b = if s == "" then b else some s

-- `e.event_id if e else None`
abbrev pub event_id_of : Option Event → Option String
event_id_of none = none
event_id_of (some e) = some e.event_id

abbrev is_some : Option Event → Bool
is_some none = false
is_some (some e) = true

unfoldable pub parent_for : Event → Option Event → Option Event → Option String
parent_for event root last_query =
    if event.event_type == http_request
    then none
    else if (event.event_type == pg_result) && is_some last_query
    then event_id_of last_query
    else event_id_of root

-- `last_query` after an event.
abbrev pub next_query : Option Event → Event → Option Event
next_query last_query event = if event.event_type == pg_query then some event else last_query

-- The loop of `_link`, over the rest of the group.
unfoldable pub link_from : Option Event → Option Event → List Event → List Event
unfolding or_else parent_for
link_from root last_query [] = []
link_from root last_query (event ∷ rest) =
    record event {
      parent_event_id = or_else event.parent_event_id (parent_for event root last_query);
    }
    ∷ link_from root (next_query last_query event) rest

unfoldable pub link : List Event → List Event
unfolding link_from
link group = link_from (find_first (λ e. e.event_type == http_request) group) none group

-- The numbering of the outer loop, from `sequence` on.
unfoldable pub number_from : ℕ → List Event → List Event
number_from sequence [] = []
number_from sequence (event ∷ rest) =
    record event { sequence = sequence } ∷ number_from (suc sequence) rest

unfoldable pub correlate : List Event → List Event
unfolding groups link number_from
correlate events = number_from 0 (concat (map link (groups events)))
