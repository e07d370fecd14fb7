-- ===== src/Plugins/HttpCapture/Holding.antt =====
-- What holds of the events that the proxy has emitted, and of those that have been stored.
use infra_replay.Common.{
  Some, ℕ, suc, ◌+◌, ◌≤◌, ◌≡◌, sym, ap, ap₂, ◌∙◌, List, [], ◌∷◌, ◌++◌, map, map-append, arith,
  length, length-append, take, range_from, All, All-imp, subst,
}
use infra_replay.Schema.Event.{Event, EventType}
use infra_replay.Plugins.HttpCapture.{Open}
use infra_replay.Plugins.HttpCapture.Following.{
  undated, Follows, AreFollowing, Some-append_left, AreFollowing-snoc, range_from-snoc, take-snoc,
}

abbrev pub IsRequestOf : Open → Event → Type 0
IsRequestOf o r =
    (r.event_type ≡ EventType.http_request)
    × (r.event_id ≡ o.event_id)
    × (r.correlation_id ≡ o.correlation_id)

-- What holds of a capture, in terms of its events without their durations, which change.
pub record Holds (events : List Event) (sequence : ℕ) (in_flight : List Open) (taken : ℕ)
    (stored : List Event) : Type 0 where
  pub counted : sequence ≡ length events
  pub numbered : map (λ e. e.sequence) events ≡ range_from 0 (length events)
  pub linked : AreFollowing [] events
  pub opens : All (λ o. Some (IsRequestOf o) events) in_flight
  pub copied : map undated stored ≡ take taken events
  pub within : taken ≤ length events

zero_add : (n : ℕ) → n ≡ 0 + n
zero_add n = omega arith

-- One more event, which follows those before.
snoc-Holds :
    (events : List Event) (e : Event) (sequence : ℕ) (in_flight more : List Open) (taken : ℕ)
    (stored : List Event)
    → Holds events sequence in_flight taken stored
    → e.sequence ≡ sequence
    → Follows events e
    → All (λ o. Some (IsRequestOf o) (events ++ e ∷ [])) more
    → Holds (events ++ e ∷ []) (suc sequence) more taken stored
snoc-Holds events e sequence in_flight more taken stored h at follows opens = record {
  counted = omega (arith, h.counted, length-append events (e ∷ []));
  numbered =
      map-append (λ x. x.sequence) events (e ∷ [])
      ∙ ap₂ (λ ns n. ns ++ n ∷ []) h.numbered (at ∙ h.counted ∙ zero_add (length events))
      ∙ range_from-snoc 0 (length events)
      ∙ ap (range_from 0) {x = suc (length events)} (omega (arith, length-append events (e ∷ [])));
  linked = AreFollowing-snoc [] events e h.linked follows;
  opens = opens;
  copied = h.copied ∙ sym (take-snoc taken events e h.within);
  within = omega (arith, h.within, length-append events (e ∷ []));
}

-- The same, of the objects that are emitted.
pub emit-Holds :
    (before now : List Event) (e : Event) (sequence : ℕ) (in_flight more : List Open) (taken : ℕ)
    (stored : List Event)
    → Holds (map undated before) sequence in_flight taken stored
    → map undated now ≡ map undated before
    → e.sequence ≡ sequence
    → Follows (map undated before) (undated e)
    → All (λ o. Some (IsRequestOf o) (map undated before ++ undated e ∷ [])) more
    → Holds (map undated (now ++ e ∷ [])) (suc sequence) more taken stored
emit-Holds before now e sequence in_flight more taken stored h same at follows opens =
    subst (λ es. Holds es (suc sequence) more taken stored)
      (sym (map-append undated now (e ∷ []) ∙ ap (λ es. es ++ undated e ∷ []) same))
      (snoc-Holds (map undated before) (undated e) sequence in_flight more taken stored h at follows
        opens)

pub keeps_open :
    (events : List Event) (e : Event) (in_flight : List Open)
    → All (λ o. Some (IsRequestOf o) events) in_flight
    → All (λ o. Some (IsRequestOf o) (events ++ e ∷ [])) in_flight
keeps_open events e in_flight =
    All-imp _ _ in_flight (λ o. Some-append_left (IsRequestOf o) events (e ∷ []))
