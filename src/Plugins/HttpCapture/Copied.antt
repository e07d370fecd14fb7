-- ===== src/Plugins/HttpCapture/Copied.antt =====
-- What the storing task does with one event, and what a stored copy keeps of it.
use infra_replay.Common.{
  Some, ℕ, zero, suc, String, ◌≡◌, refl, sym, ap, subst, ◌⊎◌, inl, inr, none, some, List, [], ◌∷◌,
  ◌++◌, append-nil, map, map-append, arith, length, length-append,
}
use mathlib.Core.Option.{none-ne-some, some-injective}
use infra_replay.Schema.Event.{Event}
use infra_replay.Plugins.Redaction.{redact}
use infra_replay.Recording.Database.{EventRow, Db, Error, Outcome-cases, done, raised}
use infra_replay.Recording.Service.{append_events, row_to_event, event_to_row}
use infra_replay.Recording.Service.Inserted.{HasTaken}
use infra_replay.Recording.Service.Appended.{rows_in, Appends, append_events-Appends}
use infra_replay.Capture.{pump}
use infra_replay.Plugins.HttpCapture.Following.{event_at, undated, Follows, AreFollowing}

abbrev pub IsTaken : String → List EventRow → Type 0
IsTaken id table = Some (λ r. r.event_id ≡ id) table

HasTaken-one :
    (table : List EventRow) (r : EventRow) → HasTaken table (r ∷ []) → IsTaken r.event_id table
HasTaken-one table r ([], row, after, shape, same) =
    let first : r ≡ row = ap (λ rows. elim rows [ [] ↦ r | s ∷ more ↦ s ]) shape in
    subst (λ (q : EventRow). IsTaken q.event_id table) (sym first) (rw (append-nil table) at same)
HasTaken-one table r (b ∷ before, row, after, shape, same) =
    absurd (omega (arith, ap length shape, length-append before (row ∷ after)))

-- The task stores a copy of the event, or raises since its id is taken.
pub pump-one :
    (recording_id : String) (event : Event) (db : Db)
    → (pump recording_id (event ∷ []) db
        ≡ (none, record db { events = db.events ++ rows_in (event ∷ []) }))
      ⊎ ((pump recording_id (event ∷ []) db ≡ (some Error.integrity_error, db))
          × IsTaken event.event_id db.events)
unfolding pump redact event_to_row
pump-one recording_id event db =
    let appends = append_events-Appends (event ∷ []) db in
    elim (Outcome-cases (append_events (event ∷ []) [] db)) [
      | inl (e, after, p) ↦
          let refused : Appends (event ∷ []) db (raised e after) =
            subst (Appends (event ∷ []) db) p appends in
          inr (
            rw (p, refused.0, refused.1, pump) refl,
            HasTaken-one db.events (event_to_row (redact event) none) refused.2,
          )
      | inr (stored, after, p) ↦
          let grown : Appends (event ∷ []) db (done stored after) =
            subst (Appends (event ∷ []) db) p appends in
          inl (rw (p, grown, pump) refl)
    ]

-- What is read back of a row, durations aside, is the event, redacted.
pub undated-rows_in :
    (events : List Event)
    → map (λ r. undated (row_to_event r)) (rows_in events) ≡ map redact (map undated events)
unfolding row_to_event event_to_row redact
undated-rows_in [] = refl
undated-rows_in (e ∷ events) = ap (λ es. redact (undated e) ∷ es) (undated-rows_in events)

pub rows_in-append : (xs ys : List Event) → rows_in (xs ++ ys) ≡ rows_in xs ++ rows_in ys
rows_in-append xs ys = map-append (λ e. event_to_row (redact e) none) xs ys

Some-map :
    {A B : Type 0} (P : B → Type 0) (f : A → B) (xs : List A)
    → Some (λ x. P (f x)) xs
    → Some P (map f xs)
Some-map P f [] q = elim q [ ]
Some-map P f (x ∷ xs) (inl p) = inl p
Some-map P f (x ∷ xs) (inr p) = inr (Some-map P f xs p)

Follows-redact :
    (seen : List Event) (e : Event) → Follows seen e → Follows (map redact seen) (redact e)
unfolding redact
Follows-redact seen e (inl asked) = inl asked
Follows-redact seen e (inr (answered, from)) = inr (answered, Some-map _ redact seen from)

-- Redaction keeps the links.
pub AreFollowing-redact :
    (seen events : List Event)
    → AreFollowing seen events
    → AreFollowing (map redact seen) (map redact events)
AreFollowing-redact seen [] h = tt
AreFollowing-redact seen (e ∷ events) h = (
  Follows-redact seen e h.0,
  subst (λ before. AreFollowing before (map redact events)) (map-append redact seen (e ∷ []))
      (AreFollowing-redact (seen ++ e ∷ []) events h.1),
)

pub event_at-append :
    (events more : List Event) (place : ℕ) (e : Event)
    → event_at events place ≡ some e
    → event_at (events ++ more) place ≡ some e
unfolding event_at
event_at-append [] more place e found = absurd (none-ne-some _ found)
event_at-append (d ∷ events) more zero e found = found
event_at-append (d ∷ events) more (suc place) e found = event_at-append events more place e found

pub event_at-undated :
    (events : List Event) (place : ℕ) (e : Event)
    → event_at events place ≡ some e
    → event_at (map undated events) place ≡ some (undated e)
unfolding event_at
event_at-undated [] place e found = absurd (none-ne-some _ found)
event_at-undated (d ∷ events) zero e found = ap (λ x. some (undated x)) (some-injective _ _ found)
event_at-undated (d ∷ events) (suc place) e found = event_at-undated events place e found
