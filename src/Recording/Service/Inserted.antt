-- ===== src/Recording/Service/Inserted.antt =====
-- What an insert of rows does, whether their ids are free or not.
use infra_replay.Common.{
  String, ◌≡◌, refl, sym, ap, ◌∙◌, subst, none, some, List, [], ◌∷◌, ◌++◌, append-nil, append_assoc,
  Some, ◌==◌, string_eq, Option-cases, Bool-cases, inl, inr,
}
use mathlib.Core.Option.{none-ne-some, some-injective}
use infra_replay.Recording.Database.{EventRow, find_event, insert_events}

pub insert_events-append :
    (table rows after : List EventRow)
    → insert_events table rows ≡ some after
    → after ≡ table ++ rows
unfolding insert_events
insert_events-append table [] after h = sym (some-injective _ _ h) ∙ sym (append-nil table)
insert_events-append table (r ∷ rows) after h = elim (Option-cases (find_event table r.event_id)) [
  | inl fresh ↦
      insert_events-append (table ++ r ∷ []) rows after (rw (fresh, insert_events) at h)
      ∙ append_assoc table (r ∷ []) rows
  | inr (old, taken) ↦
      let broken : none ≡ some after = rw (taken, insert_events) at h in
      absurd (none-ne-some _ broken)
]

-- One of the rows has the id of a row of the table, or of one of the rows before it.
abbrev pub HasTaken : List EventRow → List EventRow → Type 0
HasTaken table rows =
    (before : List EventRow) × (row : EventRow) × (after : List EventRow) × (rows
      ≡ before ++ row ∷ after)
    × Some (λ r. r.event_id ≡ row.event_id) (table ++ before)

find_event-Some :
    (table : List EventRow) (id : String) (row : EventRow)
    → find_event table id ≡ some row
    → Some (λ r. r.event_id ≡ id) table
unfolding find_event
find_event-Some [] id row found = absurd (none-ne-some _ found)
find_event-Some (r ∷ table) id row found = elim (Bool-cases (r.event_id == id)) [
  | inl hit ↦ inl ((string_eq.beq_iff r.event_id id).0 hit)
  | inr miss ↦ inr (find_event-Some table id row (rw (miss, find_event) at found))
]

pub insert_events-HasTaken :
    (table rows : List EventRow) → insert_events table rows ≡ none → HasTaken table rows
unfolding insert_events
insert_events-HasTaken table [] refused = absurd (none-ne-some _ (sym refused))
insert_events-HasTaken table (r ∷ rows) refused =
    elim (Option-cases (find_event table r.event_id)) [
      | inr (old, taken) ↦
          ([], r, rows, refl, rw (append-nil table) (find_event-Some table r.event_id old taken))
      | inl fresh ↦
          let (before, row, after, shape, same) =
            insert_events-HasTaken (table ++ r ∷ []) rows (rw (fresh, insert_events) at refused) in
          (
            r ∷ before,
            row,
            after,
            ap (◌∷◌ r) shape,
            subst (Some (λ q. q.event_id ≡ row.event_id)) (append_assoc table (r ∷ []) before) same,
          )
    ]
