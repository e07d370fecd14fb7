-- ===== src/Comparison/Engine/Contract.antt =====
-- The contract of the registered comparators, and the rounds of the comparison's first loop.
use infra_replay.Common.{
  String, ◌≡◌, ◌≢◌, Bool, true, false, Option, none, some, List, ◌∷◌, contains, string_eq,
  Bool-cases, inl, inr,
}
use infra_replay.Schema.Event.{Event, EventType}
use infra_replay.Schema.Result.{ComparisonCategory}
use infra_replay.Comparison.Engine.{Comparator, missing_row, new_row, walk, leftovers}

-- What a comparator's row says: the two events, and a verdict on them.
pub record IsVerdict (compare : Comparator) : Type 0 where
  pub original : (a b : Event) → (compare a b).original_event_id ≡ some a.event_id
  pub replayed : (a b : Event) → (compare a b).replayed_event_id ≡ some b.event_id
  pub not_missing : (a b : Event) → (compare a b).category ≢ ComparisonCategory.missing
  pub not_new : (a b : Event) → (compare a b).category ≢ ComparisonCategory.new

-- The contract of the registered comparators.
abbrev pub IsLawful : (EventType → Option Comparator) → Type 0
IsLawful comparator_for = (t : EventType) (c : Comparator) → comparator_for t ≡ some c → IsVerdict c

abbrev pub is_some {ℓ} : {A : Type ℓ} → Option A → Bool
is_some none = false
is_some (some a) = true

module _ (comparator_for : EventType → Option Comparator) where
  -- Whether the comparison has anything to say of an event.
  abbrev pub is_compared : Event → Bool
  is_compared e = is_some (comparator_for e.event_type)

  -- The three ways of a round of the first loop.
  module _ (replay_id : String) (find_partner : Event → Option Event) (src : Event)
      (rest : List Event) where
    pub walk_skip :
        comparator_for src.event_type ≡ none
        → walk comparator_for replay_id find_partner (src ∷ rest)
          ≡ walk comparator_for replay_id find_partner rest
    unfolding walk
    walk_skip p = rw (p, walk)

    pub walk_missing :
        (c : Comparator)
        → comparator_for src.event_type ≡ some c
        → find_partner src ≡ none
        → walk comparator_for replay_id find_partner (src ∷ rest) ≡ (
          missing_row replay_id src ∷ (walk comparator_for replay_id find_partner rest).0,
          (walk comparator_for replay_id find_partner rest).1,
        )
    unfolding walk
    walk_missing c p q = rw (p, q, walk)

    pub walk_pair :
        (c : Comparator) (o : Event)
        → comparator_for src.event_type ≡ some c
        → find_partner src ≡ some o
        → walk comparator_for replay_id find_partner (src ∷ rest) ≡ (
          c src o ∷ (walk comparator_for replay_id find_partner rest).0,
          o.event_id ∷ (walk comparator_for replay_id find_partner rest).1,
        )
    unfolding walk
    walk_pair c o p q = rw (p, q, walk)

  -- The three ways of a round of the second loop.
  module _ (replay_id : String) (consumed : List String) (e : Event) (rest : List Event) where
    pub leftovers_old :
        contains consumed e.event_id ≡ true
        → leftovers comparator_for replay_id consumed (e ∷ rest)
          ≡ leftovers comparator_for replay_id consumed rest
    unfolding leftovers
    leftovers_old p = rw p

    pub leftovers_skip :
        comparator_for e.event_type ≡ none
        → leftovers comparator_for replay_id consumed (e ∷ rest)
          ≡ leftovers comparator_for replay_id consumed rest
    unfolding leftovers
    leftovers_skip p = elim (Bool-cases (contains consumed e.event_id)) [
      | inl old ↦ rw old
      | inr fresh ↦ rw (fresh, p)
    ]

    pub leftovers_new :
        (c : Comparator)
        → contains consumed e.event_id ≡ false
        → comparator_for e.event_type ≡ some c
        → leftovers comparator_for replay_id consumed (e ∷ rest)
          ≡ new_row replay_id e ∷ leftovers comparator_for replay_id consumed rest
    unfolding leftovers
    leftovers_new c p q = rw (p, q)
