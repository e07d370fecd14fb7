-- ===== src/Recording/Portable/Rekeyed.antt =====
-- Fresh ids keep the links between the events of a recording.
use infra_replay.Common.{
  ℕ, suc, String, ◌≡◌, refl, ap, ◌∙◌, none, some, List, [], ◌∷◌, map, All, All-imp, Bool-cases,
  ◌==◌, string_eq, inl, inr,
}
use infra_replay.Common.Text.{joined, first_chars}
use infra_replay.Common.Dict.{Dict, get, set, get-set, get-set_self}
use infra_replay.Schema.Event.{Event, Recording}
use infra_replay.Recording.Portable.{rekeyed_parent, rekeyed_id, rekey_event, renamed_from, rekey}

-- The dict has the id.
abbrev IsNamed : Dict String String → String → Type 0
IsNamed d id = (new : String) × (get d id ≡ some new)

set-IsNamed : (d : Dict String String) (k v id : String) → IsNamed d id → IsNamed (set d k v) id
set-IsNamed d k v id (new, p) = elim (Bool-cases (k == id)) [
  | inl hit ↦ (v, get-set d k id v ∙ rw hit)
  | inr miss ↦ (new, get-set d k id v ∙ rw miss p)
]

rekeyed_id-IsNamed :
    (d : Dict String String) (id : String) → IsNamed d id → get d id ≡ some (rekeyed_id d id)
rekeyed_id-IsNamed d id (new, p) = rw (p, rekeyed_id) refl

module _ (hex : ℕ → String) where
  renamed_from_keeps :
      (calls : ℕ) (d : Dict String String) (events : List Event) (id : String)
      → IsNamed d id
      → IsNamed (renamed_from hex calls d events) id
  unfolding renamed_from
  renamed_from_keeps calls d [] id h = h
  renamed_from_keeps calls d (e ∷ events) id h =
      renamed_from_keeps (suc calls) _ events id (set-IsNamed d e.event_id _ id h)

  renamed_from-IsNamed :
      (calls : ℕ) (d : Dict String String) (events : List Event)
      → All (λ e. IsNamed (renamed_from hex calls d events) e.event_id) events
  unfolding renamed_from
  renamed_from-IsNamed calls d [] = tt
  renamed_from-IsNamed calls d (e ∷ events) = (
    renamed_from_keeps (suc calls) _ events e.event_id (_, get-set_self d e.event_id _),
    renamed_from-IsNamed (suc calls) _ events,
  )

  abbrev pub renamed_in : Recording → Event → Event
  renamed_in recording =
      rekey_event (renamed_from hex 1 [] recording.events) (joined "rec_" (first_chars 12 (hex 0)))

  -- The events of the re-keyed recording are those of the recording, renamed one by one. Where the
  -- parent of an event is an event of the recording, its new parent is that event, renamed; an
  -- event with no parent gets none.
  pub rekey-renamed_in :
      (recording : Recording)
      → ((rekey hex recording).events ≡ map (renamed_in recording) recording.events)
        × All
            (λ p.
              (e : Event)
              → e.parent_event_id ≡ some p.event_id
              → (renamed_in recording e).parent_event_id ≡ some (renamed_in recording p).event_id)
            recording.events
        × ((e : Event) → e.parent_event_id ≡ none → (renamed_in recording e).parent_event_id ≡ none)
  unfolding rekey rekey_event
  rekey-renamed_in recording = (
    refl,
    All-imp (λ p. IsNamed renamed p.event_id) _ recording.events
        (λ p named e linked.
          ap (rekeyed_parent renamed) linked ∙ rekeyed_id-IsNamed renamed p.event_id named)
        (renamed_from-IsNamed 1 [] recording.events),
    λ e none_there. rw none_there,
  )
    where
      renamed : Dict String String
      renamed = renamed_from hex 1 [] recording.events
