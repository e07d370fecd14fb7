-- ===== src/Recording/Correlate/Payloads.antt =====
-- `correlate` changes no payload.
use infra_replay.Common.{
  ℕ, suc, String, Option, List, [], ◌∷◌, map, concat, All, All-append, ◌==◌, string_eq, Bool-cases,
  inl, inr,
}
use infra_replay.Common.Dict.{Dict, values, push, group_into, group_by}
use infra_replay.Common.Sort.{sorted, All-sorted}
use infra_replay.Schema.Value.{Fields}
use infra_replay.Schema.Event.{Event, type_eq}
use infra_replay.Recording.Correlate.{
  event_le, group_le, groups, next_query, link_from, link, number_from, correlate,
}

module _ (Q : Fields → Type 0) where
  abbrev Keeps : List Event → Type 0
  Keeps = All (λ e. Q e.payload)

  push-Keeps :
      (d : Dict String (List Event)) (c : String) (e : Event)
      → All Keeps (values d)
      → Q e.payload
      → All Keeps (values (push d c e))
  unfolding push
  push-Keeps [] c e h q = ((q, tt), tt)
  push-Keeps ((j, xs) ∷ d) c e h q = elim (Bool-cases (j == c)) [
    | inl hit ↦ rw hit (All-append (λ e. Q e.payload) xs (e ∷ []) h.0 (q, tt), h.1)
    | inr miss ↦ rw miss (h.0, push-Keeps d c e h.1 q)
  ]

  group_into-Keeps :
      (d : Dict String (List Event)) (events : List Event)
      → All Keeps (values d)
      → Keeps events
      → All Keeps (values (group_into (λ e. e.correlation_id) d events))
  unfolding group_into
  group_into-Keeps d [] h q = h
  group_into-Keeps d (e ∷ events) h q =
      group_into-Keeps (push d e.correlation_id e) events (push-Keeps d e.correlation_id e h q.0)
        q.1

  map-sorted-Keeps : (gs : List (List Event)) → All Keeps gs → All Keeps (map (sorted event_le) gs)
  map-sorted-Keeps [] h = tt
  map-sorted-Keeps (g ∷ gs) h =
      (All-sorted event_le (λ e. Q e.payload) g h.0, map-sorted-Keeps gs h.1)

  link_from-Keeps :
      (root last_query : Option Event) (events : List Event)
      → Keeps events
      → Keeps (link_from root last_query events)
  unfolding link_from
  link_from-Keeps root last_query [] h = tt
  link_from-Keeps root last_query (e ∷ events) h =
      (h.0, link_from-Keeps root (next_query last_query e) events h.1)

  concat-link-Keeps : (gs : List (List Event)) → All Keeps gs → Keeps (concat (map link gs))
  unfolding link
  concat-link-Keeps [] h = tt
  concat-link-Keeps (g ∷ gs) h =
      All-append (λ e. Q e.payload) (link g) (concat (map link gs)) (link_from-Keeps _ _ g h.0)
        (concat-link-Keeps gs h.1)

  number_from-Keeps : (n : ℕ) (events : List Event) → Keeps events → Keeps (number_from n events)
  unfolding number_from
  number_from-Keeps n [] h = tt
  number_from-Keeps n (e ∷ events) h = (h.0, number_from-Keeps (suc n) events h.1)

  -- What holds of every payload that `correlate` is given holds of every payload it returns.
  pub correlate-Keeps : (events : List Event) → Keeps events → Keeps (correlate events)
  unfolding correlate groups group_by
  correlate-Keeps events h =
      let found = values (group_by (λ (e : Event). e.correlation_id) events) in
      number_from-Keeps 0 (concat (map link (groups events))) (
        concat-link-Keeps (groups events) (
          All-sorted group_le Keeps (map (sorted event_le) found)
            (map-sorted-Keeps found (group_into-Keeps [] events tt h))))
