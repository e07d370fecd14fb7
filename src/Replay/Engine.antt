-- ===== src/Replay/Engine.antt =====
-- Replaying a recording: infrareplay/replay/engine.py.
-- `asyncio.gather` puts the requests of a batch in flight in their order, and the client answers
-- them in any: an arrival names the place of a request in its batch.
pub mod Batches
pub mod Flight
pub mod Arrivals
pub mod Gather
pub mod Returned
use infra_replay.Common.{
  ℕ, zero, suc, String, Bool, true, false, ◌&&◌, Option, none, some, List, [], ◌∷◌, ◌++◌, map,
  select, any_of, length, take, drop, ◌==◌, nat_eq, if◌then◌else◌,
}
use infra_replay.Common.Text.{codes, lower, has_substring}
use infra_replay.Schema.Value.{Fields}
use infra_replay.Schema.Event.{Event, EventType, http_request, type_eq}
use infra_replay.Replay.HttpTarget.{HttpTarget, Progress, Waiting, Answer, send_request, receive}

pub data SafetyMode : Type 0 where
  safe unsafe : SafetyMode

abbrev pub prod_target_markers : List String
prod_target_markers = "prod" ∷ "production" ∷ "live" ∷ []

-- `_looks_like_prod`
unfoldable pub looks_like_prod : String → Bool
unfolding lower has_substring
looks_like_prod target =
    any_of (λ marker. has_substring (lower (codes target)) (codes marker)) prod_target_markers

-- `ensure_safe`: false where it raises.
unfoldable pub ensure_safe : String → SafetyMode → Bool
unfolding looks_like_prod
ensure_safe target SafetyMode.safe = elim (looks_like_prod target) [ true ↦ false | false ↦ true ]
ensure_safe target SafetyMode.unsafe = true

-- `_batches`, on fuel: each batch takes a payload, so the number of payloads is enough.
unfoldable pub batches_from {ℓ} : {A : Type ℓ} → ℕ → List A → ℕ → List (List A)
batches_from fuel [] size = []
batches_from zero (x ∷ xs) size = []
batches_from (suc fuel) (x ∷ xs) size =
    take size (x ∷ xs) ∷ batches_from fuel (drop size (x ∷ xs)) size

unfoldable pub batches {ℓ} : {A : Type ℓ} → List A → ℕ → List (List A)
unfolding batches_from
batches payloads size = batches_from (length payloads) payloads size

-- A request of a batch: in flight, or with the pair of events that `send` returns.
pub data Slot : Type 0 where
  waiting : Waiting → Slot
  settled : Event → Event → Slot

-- What `gather` returns once every request has its answer; none before.
unfoldable pub gathered : List Slot → Option (List Event)
gathered [] = some []
gathered (Slot.waiting w ∷ slots) = none
gathered (Slot.settled request reply ∷ slots) = elim (gathered slots) [
  | none ↦ none
  | some events ↦ some (request ∷ reply ∷ events)
]

module _ (hex : ℕ → String) (time_ns : ℕ → ℕ) (target : HttpTarget) where
  -- Each `send` of a batch up to its call of the client, in the order of the batch.
  unfoldable pub send_all : List Fields → Progress → Option (List Slot × Progress)
  unfolding send_request
  send_all [] p = some ([], p)
  send_all (payload ∷ payloads) p = elim (send_request hex time_ns target payload p) [
    | none ↦ none
    | some (w, now) ↦ elim (send_all payloads now) [
      | none ↦ none
      | some (slots, after) ↦ some (Slot.waiting w ∷ slots, after)
    ]
  ]

  -- The client answers the request in a place.
  unfoldable pub arrive : ℕ → Answer → List Slot → Progress → List Slot × Progress
  unfolding receive
  arrive place answer [] p = ([], p)
  arrive zero answer (Slot.waiting w ∷ slots) p =
      let ((request, reply), after) = receive hex time_ns target w answer p in
      (Slot.settled request reply ∷ slots, after)
  arrive zero answer (Slot.settled request reply ∷ slots) p =
      (Slot.settled request reply ∷ slots, p)
  arrive (suc place) answer (slot ∷ slots) p =
      let (rest, after) = arrive place answer slots p in (slot ∷ rest, after)

  unfoldable pub arrive_all : List (ℕ × Answer) → List Slot → Progress → List Slot × Progress
  unfolding arrive
  arrive_all [] slots p = (slots, p)
  arrive_all ((place, answer) ∷ arrivals) slots p =
      let (now, after) = arrive place answer slots p in arrive_all arrivals now after

  -- A batch from its payloads to its events.
  unfoldable pub run_batch :
      List Fields → List (ℕ × Answer) → Progress → Option (List Event × Progress)
  unfolding send_all arrive_all gathered
  run_batch payloads arrivals p = elim (send_all payloads p) [
    | none ↦ none
    | some (slots, sent) ↦
        let (final, after) = arrive_all arrivals slots sent in
        elim (gathered final) [ none ↦ none | some events ↦ some (events, after) ]
  ]
