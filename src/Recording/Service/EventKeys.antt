-- ===== src/Recording/Service/EventKeys.antt =====
-- The primary key of the events, over each write to their table.
use mathlib.Core.Option.{some-injective, none-ne-some}
use infra_replay.Common.{
  String, ◌≡◌, refl, ap, subst, ◌∙◌, false, none, some, List, [], ◌∷◌, ◌++◌, arith, ◌==◌, string_eq,
  Bool-cases, Option-cases, inl, inr,
}
use infra_replay.Common.Dict.{Dict}
use infra_replay.Schema.Event.{Event}
use infra_replay.Recording.Database.{EventRow, find_event, update_event, insert_events}
use infra_replay.Recording.Service.{relink, link_rows}

-- No later row has the id of an earlier one.
abbrev pub HasEventKeys : List EventRow → Type 0
HasEventKeys [] = Unit
HasEventKeys (r ∷ rows) = (find_event rows r.event_id ≡ none) × HasEventKeys rows

find_event-snoc :
    (rows : List EventRow) (r : EventRow) (id : String)
    → find_event rows id ≡ none
    → (r.event_id == id) ≡ false
    → find_event (rows ++ r ∷ []) id ≡ none
unfolding find_event
find_event-snoc [] r id h q = rw q
find_event-snoc (s ∷ rows) r id h q = elim (Bool-cases (s.event_id == id)) [
  | inl hit ↦ absurd (ground arith)
  | inr miss ↦ rw miss (find_event-snoc rows r id (ground arith) q)
]

snoc-HasEventKeys :
    (rows : List EventRow) (r : EventRow)
    → HasEventKeys rows
    → find_event rows r.event_id ≡ none
    → HasEventKeys (rows ++ r ∷ [])
unfolding find_event
snoc-HasEventKeys [] r h q = (refl, tt)
snoc-HasEventKeys (s ∷ rows) r h q = (
  find_event-snoc rows r s.event_id h.0 (
      ground (
        arith,
        q,
        string_eq.beq_iff s.event_id r.event_id,
        string_eq.beq_iff r.event_id s.event_id,
      )),
  snoc-HasEventKeys rows r h.1 (ground (arith, q)),
)

pub insert_events-HasEventKeys :
    (table rows after : List EventRow)
    → HasEventKeys table
    → insert_events table rows ≡ some after
    → HasEventKeys after
unfolding insert_events
insert_events-HasEventKeys table [] after h p = subst HasEventKeys (some-injective _ _ p) h
insert_events-HasEventKeys table (r ∷ rows) after h p =
    elim (Option-cases (find_event table r.event_id)) [
      | inl fresh ↦
          let p' : insert_events (table ++ r ∷ []) rows ≡ some after =
            rw (fresh, insert_events) at p in
          insert_events-HasEventKeys (table ++ r ∷ []) rows after
            (snoc-HasEventKeys table r h fresh) p'
      | inr (old, taken) ↦
          let p' : none ≡ some after = rw (taken, insert_events) at p in absurd (none-ne-some _ p')
    ]

module _ (f : EventRow → EventRow) (id : String)
    (keeps : (r : EventRow) → (f r).event_id ≡ r.event_id) where
  find_event-update :
      (rows : List EventRow) (j : String)
      → find_event rows j ≡ none
      → find_event (update_event f id rows) j ≡ none
  unfolding find_event update_event
  find_event-update [] j h = refl
  find_event-update (r ∷ rows) j h = elim (Bool-cases (r.event_id == j)) [
    | inl found ↦ absurd (ground arith)
    | inr other ↦ elim (Bool-cases (r.event_id == id)) [
      | inl hit ↦
          let same : ((f r).event_id == j) ≡ false = ap (λ x. x == j) (keeps r) ∙ other in
          rw (hit, same) (ground arith)
      | inr miss ↦ rw (miss, other) (find_event-update rows j (ground arith))
    ]
  ]

  update_event-HasEventKeys :
      (rows : List EventRow) → HasEventKeys rows → HasEventKeys (update_event f id rows)
  unfolding update_event
  update_event-HasEventKeys [] h = tt
  update_event-HasEventKeys (r ∷ rows) h = elim (Bool-cases (r.event_id == id)) [
    | inl hit ↦ rw (hit, keeps r) h
    | inr miss ↦ rw miss (find_event-update rows r.event_id h.0, update_event-HasEventKeys rows h.1)
  ]

pub relink-HasEventKeys :
    (events : List Event) (rows : List EventRow)
    → HasEventKeys rows
    → HasEventKeys (relink events rows)
unfolding relink
relink-HasEventKeys [] rows h = h
relink-HasEventKeys (e ∷ events) rows h =
    relink-HasEventKeys events _ (update_event-HasEventKeys _ e.event_id (λ r. refl) rows h)

pub link_rows-HasEventKeys :
    (links : Dict String String) (rows : List EventRow)
    → HasEventKeys rows
    → HasEventKeys (link_rows links rows)
unfolding link_rows
link_rows-HasEventKeys [] rows h = h
link_rows-HasEventKeys (x ∷ links) rows h =
    link_rows-HasEventKeys links _ (update_event-HasEventKeys _ x.1 (λ r. refl) rows h)
