-- ===== src/Plugins/HttpCapture/Following.antt =====
-- Streams in which each response follows its request, durations aside.
use infra_replay.Common.{
  Some, ℕ, zero, suc, ◌+◌, ◌≤◌, ◌≡◌, refl, ap, ◌⊎◌, inl, inr, Option, none, some, List, [], ◌∷◌,
  ◌++◌, append-nil, append_assoc, map, arith, length, take, range_from,
}
use mathlib.Core.Option.{none-ne-some, some-injective}
use infra_replay.Schema.Event.{Event, EventType}
use infra_replay.Plugins.HttpCapture.{set_duration}

-- `events[place]`
unfoldable pub event_at : List Event → ℕ → Option Event
event_at [] place = none
event_at (e ∷ events) zero = some e
event_at (e ∷ events) (suc place) = event_at events place

-- The event, whatever its duration.
abbrev pub undated : Event → Event
undated e = record e { duration_ns = 0 }

-- A request without a parent, or the response to one of the requests that were seen.
abbrev pub Follows : List Event → Event → Type 0
Follows seen e =
    ((e.event_type ≡ EventType.http_request) × (e.parent_event_id ≡ none))
    ⊎ ((e.event_type ≡ EventType.http_response)
        × Some
            (λ r.
              (r.event_type ≡ EventType.http_request)
              × (e.parent_event_id ≡ some r.event_id)
              × (e.correlation_id ≡ r.correlation_id))
            seen)

abbrev pub AreFollowing : List Event → List Event → Type 0
AreFollowing seen [] = Unit
AreFollowing seen (e ∷ events) = Follows seen e × AreFollowing (seen ++ e ∷ []) events

pub map-undated-set_duration :
    (place elapsed : ℕ) (events : List Event)
    → map undated (set_duration place elapsed events) ≡ map undated events
unfolding set_duration
map-undated-set_duration zero elapsed [] = refl
map-undated-set_duration (suc place) elapsed [] = refl
map-undated-set_duration zero elapsed (e ∷ events) = refl
map-undated-set_duration (suc place) elapsed (e ∷ events) =
    ap (◌∷◌ (undated e)) (map-undated-set_duration place elapsed events)

module _ {A : Type 0} (P : A → Type 0) where
  pub Some-append_left : (xs ys : List A) → Some P xs → Some P (xs ++ ys)
  Some-append_left [] ys q = elim q [ ]
  Some-append_left (x ∷ xs) ys (inl p) = inl p
  Some-append_left (x ∷ xs) ys (inr p) = inr (Some-append_left xs ys p)

  pub Some-snoc : (xs : List A) (x : A) → P x → Some P (xs ++ x ∷ [])
  Some-snoc [] x p = inl p
  Some-snoc (y ∷ xs) x p = inr (Some-snoc xs x p)

  pub Some-imp : (Q : A → Type 0) (xs : List A) → ((x : A) → P x → Q x) → Some P xs → Some Q xs
  Some-imp Q [] f q = elim q [ ]
  Some-imp Q (x ∷ xs) f (inl p) = inl (f x p)
  Some-imp Q (x ∷ xs) f (inr p) = inr (Some-imp Q xs f p)

pub AreFollowing-snoc :
    (seen events : List Event) (e : Event)
    → AreFollowing seen events
    → Follows (seen ++ events) e
    → AreFollowing seen (events ++ e ∷ [])
AreFollowing-snoc seen [] e h f = (rw append-nil at f, tt)
AreFollowing-snoc seen (d ∷ events) e h f = (
  h.0,
  AreFollowing-snoc (seen ++ d ∷ []) events e h.1 (rw (append_assoc seen (d ∷ []) events) f),
)

pub AreFollowing-take :
    (n : ℕ) (seen events : List Event)
    → AreFollowing seen events
    → AreFollowing seen (take n events)
AreFollowing-take zero seen events h = tt
AreFollowing-take (suc n) seen [] h = tt
AreFollowing-take (suc n) seen (e ∷ events) h =
    (h.0, AreFollowing-take n (seen ++ e ∷ []) events h.1)

pub range_from-snoc :
    (start n : ℕ) → range_from start n ++ (start + n) ∷ [] ≡ range_from start (suc n)
range_from-snoc start zero = ap (λ k. k ∷ []) (omega arith)
range_from-snoc start (suc n) =
    let more : start + suc n ≡ suc start + n = omega arith in
    rw more (ap (◌∷◌ start) (range_from-snoc (suc start) n))

pub range_from-take : (start n k : ℕ) → n ≤ k → take n (range_from start k) ≡ range_from start n
range_from-take start zero k h = refl
range_from-take start (suc n) zero h = absurd (omega arith)
range_from-take start (suc n) (suc k) h =
    ap (◌∷◌ start) (range_from-take (suc start) n k (omega arith))

pub map-take :
    {A B : Type 0} (f : A → B) (n : ℕ) (xs : List A) → map f (take n xs) ≡ take n (map f xs)
map-take f zero xs = refl
map-take f (suc n) [] = refl
map-take f (suc n) (x ∷ xs) = ap (◌∷◌ (f x)) (map-take f n xs)

pub take-snoc :
    {A : Type 0} (n : ℕ) (xs : List A) (x : A) → n ≤ length xs → take n (xs ++ x ∷ []) ≡ take n xs
take-snoc zero xs x h = refl
take-snoc (suc n) [] x h = absurd (omega arith)
take-snoc (suc n) (y ∷ xs) x h = ap (◌∷◌ y) (take-snoc n xs x (omega arith))

-- The next of the first events.
pub take-event_at :
    (n : ℕ) (events : List Event) (e : Event)
    → event_at events n ≡ some e
    → (take (suc n) (map undated events) ≡ take n (map undated events) ++ undated e ∷ [])
      × (suc n ≤ length (map undated events))
unfolding event_at
take-event_at n [] e h = absurd (none-ne-some _ h)
take-event_at zero (d ∷ events) e h = (ap (λ k. undated k ∷ []) (some-injective _ _ h), omega arith)
take-event_at (suc n) (d ∷ events) e h =
    let (same, within) = take-event_at n events e h in
    (ap (◌∷◌ (undated d)) same, omega (arith, within))
