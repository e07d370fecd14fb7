-- ===== src/Replay/Linking.antt =====
-- infrareplay/replay/linking.py: pair an original event stream with a replayed one, by position.
pub mod Signatures
pub mod Reproduced
use infra_replay.Common.{
  ℕ, ◌+◌, String, Bool, Option, none, some, List, [], ◌∷◌, length, leb, Eq, nat_eq, string_eq,
  pair_eq,
}
use infra_replay.Common.Dict.{Dict, get, set}
use infra_replay.Common.Sort.{sorted}
use infra_replay.Schema.Event.{Event, EventType, type_eq}

-- A request group by its index, and an event type.
abbrev pub Slot : Type 0
Slot = ℕ × EventType

-- `_Signature`: the slot, and which event of the slot it is.
abbrev pub Signature : Type 0
Signature = Slot × ℕ

abbrev pub sequence_le : Event → Event → Bool
sequence_le a b = leb a.sequence b.sequence

abbrev pub get_or : Option ℕ → ℕ → ℕ
get_or none n = n
get_or (some m) n = m

-- `d.setdefault(k, v)`: the dict after it.
abbrev pub set_default : Dict String ℕ → String → ℕ → Dict String ℕ
set_default d k v = elim (get d k) [ none ↦ set d k v | some _ ↦ d ]

-- The loop of `_signatures`.
unfoldable pub sign :
    Dict String ℕ → Dict Slot ℕ → Dict Signature String → List Event → Dict Signature String
unfolding get set
sign group_index seen signatures [] = signatures
sign group_index seen signatures (event ∷ rest) =
    let group = get_or (get group_index event.correlation_id) (length group_index) in
    let slot : Slot = (group, event.event_type) in
    let occurrence = get_or (get seen slot) 0 in
    sign (set_default group_index event.correlation_id (length group_index))
      (set seen slot (occurrence + 1)) (set signatures (slot, occurrence) event.event_id) rest

unfoldable pub signatures : List Event → Dict Signature String
unfolding sign sorted
signatures events = sign [] [] [] (sorted sequence_le events)

-- The loop of `link_streams`.
unfoldable pub link_from :
    Dict Signature String → Dict String String → Dict Signature String → Dict String String
unfolding get set
link_from replay_by_sig links [] = links
link_from replay_by_sig links ((signature, event_id) ∷ rest) =
    link_from replay_by_sig
      (elim (get replay_by_sig signature) [
        | none ↦ links
        | some partner ↦ set links event_id partner
      ])
      rest

unfoldable pub link_streams : List Event → List Event → Dict String String
unfolding signatures link_from
link_streams original replayed = link_from (signatures replayed) [] (signatures original)
