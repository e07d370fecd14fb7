-- ===== src/Replay/Engine/Flight.antt =====
-- The numbers of the events of a batch that is in flight.
use infra_replay.Common.{ℕ, ◌≤◌, ◌<◌, ◌≡◌, ◌≢◌, some, List, [], ◌∷◌, arith, All}
use infra_replay.Schema.Event.{Event, http_request, http_response}
use infra_replay.Replay.Engine.{Slot}

-- The events in a list, two by two, are a request and the response to it, which came later.
pub record IsExchange (request reply : Event) : Type 0 where
  pub requested : request.event_type ≡ http_request
  pub responded : reply.event_type ≡ http_response
  pub parent : reply.parent_event_id ≡ some request.event_id
  pub together : reply.correlation_id ≡ request.correlation_id
  pub later : request.sequence < reply.sequence

abbrev pub AreExchanges : List Event → Type 0
AreExchanges [] = Unit
AreExchanges (request ∷ []) = ⊥
AreExchanges (request ∷ reply ∷ events) = IsExchange request reply × AreExchanges events

abbrev pub HasDistinctSequences : List Event → Type 0
HasDistinctSequences [] = Unit
HasDistinctSequences (e ∷ es) = All (λ o. e.sequence ≢ o.sequence) es × HasDistinctSequences es

-- The events that a slot holds.
abbrev pub slot_events : Slot → List Event
slot_events (Slot.waiting w) = w.request ∷ []
slot_events (Slot.settled request reply) = request ∷ reply ∷ []

abbrev pub IsSlot : Slot → Type 0
IsSlot (Slot.waiting w) = w.request.event_type ≡ http_request
IsSlot (Slot.settled request reply) = IsExchange request reply

-- The numbers of a slot are between `low` and `high`, the numbers of two slots are not the same.
abbrev pub Within : ℕ → ℕ → Slot → Type 0
Within low high slot = All (λ e. (low ≤ e.sequence) × (e.sequence < high)) (slot_events slot)

abbrev pub Apart : Slot → Slot → Type 0
Apart a b = All (λ e. All (λ o. e.sequence ≢ o.sequence) (slot_events b)) (slot_events a)

abbrev pub AreApart : List Slot → Type 0
AreApart [] = Unit
AreApart (slot ∷ slots) = All (Apart slot) slots × AreApart slots

pub record IsFlight (low high : ℕ) (slots : List Slot) : Type 0 where
  pub each : All IsSlot slots
  pub within : All (Within low high) slots
  pub apart : AreApart slots

pub Within-mono :
    {low low' high high' : ℕ} (slot : Slot)
    → low' ≤ low
    → high ≤ high'
    → Within low high slot
    → Within low' high' slot
Within-mono (Slot.waiting w) p q h = ((omega arith, omega arith), tt)
Within-mono (Slot.settled request reply) p q h =
    ((omega arith, omega arith), ((omega arith, omega arith), tt))

-- A number at or above the bound is apart from a slot, and so is a slot from one that begins there.
pub above :
    (low high n : ℕ) (slot : Slot)
    → high ≤ n
    → Within low high slot
    → All (λ o. n ≢ o.sequence) (slot_events slot)
above low high n (Slot.waiting w) le h = (λ p. omega arith, tt)
above low high n (Slot.settled request reply) le h = (λ p. omega arith, (λ p. omega arith, tt))

pub below :
    (low high n : ℕ) (slot : Slot)
    → n < low
    → Within low high slot
    → All (λ o. n ≢ o.sequence) (slot_events slot)
below low high n (Slot.waiting w) lt h = (λ p. omega arith, tt)
below low high n (Slot.settled request reply) lt h = (λ p. omega arith, (λ p. omega arith, tt))
