-- ===== src/Recording/Service/Appended.antt =====
-- What append_events does without links, on both branches.
use infra_replay.Common.{
  ◌≡◌, refl, sym, ap, ◌∙◌, subst, none, List, [], ◌∷◌, ◌++◌, append-nil, map, Option-cases, inl,
  inr, string_eq,
}
use infra_replay.Common.Dict.{get}
use infra_replay.Schema.Event.{Event}
use infra_replay.Plugins.Redaction.{redact}
use infra_replay.Recording.Database.{EventRow, Db, Error, Outcome, insert_events}
use infra_replay.Recording.Service.{event_to_row, append_events}
use infra_replay.Recording.Service.Inserted.{HasTaken, insert_events-append, insert_events-HasTaken}

-- The rows of events: each is redacted, and replays none.
abbrev pub rows_in : List Event → List EventRow
rows_in events = map (λ e. event_to_row (redact e) none) events

-- The rows as the code makes them, one pass after the other.
abbrev made : List Event → List EventRow
made events = map (λ clean. event_to_row clean (get [] clean.event_id)) (map redact events)

made-rows_in : (events : List Event) → made events ≡ rows_in events
unfolding get
made-rows_in [] = refl
made-rows_in (e ∷ events) = ap (λ rows. event_to_row (redact e) none ∷ rows) (made-rows_in events)

-- The rows are at the end of the table; or an id is taken, and nothing has changed.
abbrev pub Appends : List Event → Db → Outcome (List Event) → Type 0
Appends events db (Outcome.done stored to) = to ≡ record db { events = db.events ++ rows_in events }
Appends events db (Outcome.raised e to) =
    (to ≡ db) × (e ≡ Error.integrity_error) × HasTaken db.events (rows_in events)

pub append_events-Appends :
    (events : List Event) (db : Db) → Appends events db (append_events events [] db)
unfolding append_events
append_events-Appends [] db =
    ap (λ table. record db { events = table }) (sym (append-nil db.events))
append_events-Appends (event ∷ events) db =
    elim (Option-cases (insert_events db.events (made (event ∷ events)))) [
      | inl taken ↦
          rw (taken, append_events)
            (
              refl,
              refl,
              subst (HasTaken db.events) (made-rows_in (event ∷ events))
                  (insert_events-HasTaken db.events (made (event ∷ events)) taken),
            )
      | inr (table, p) ↦
          rw (p, append_events)
            (ap (λ (t : List EventRow). record db { events = t })
              (insert_events-append db.events (made (event ∷ events)) table p
                ∙ ap (λ rows. db.events ++ rows) (made-rows_in (event ∷ events))))
    ]
