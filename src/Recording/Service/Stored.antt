-- ===== src/Recording/Service/Stored.antt =====
-- What holds of the tables after any sequence of the service's calls.
use mathlib.Core.Option.{some-injective, none-ne-some}
use infra_replay.Common.{
  ℕ, String, ◌≡◌, subst, Option, none, some, List, [], ◌∷◌, ◌++◌, map, All, All-append, All-map,
  All-of_forall, ◌==◌, string_eq, Bool-cases, Option-cases, inl, inr,
}
use infra_replay.Common.Dict.{Dict, get, set, values}
use infra_replay.Schema.Event.{Event}
use infra_replay.Schema.Result.{ComparisonResult}
use infra_replay.Plugins.Redaction.{redact}
use infra_replay.Plugins.Redaction.Scrubbed.{FieldsScrubbed, redact-scrubbed}
use infra_replay.Recording.Correlate.{correlate}
use infra_replay.Recording.Correlate.Payloads.{correlate-Keeps}
use infra_replay.Recording.Database.{
  EventRow, Snapshot, Db, db_after, find_recording, find_event, update_event, insert_events,
}
use infra_replay.Recording.Service.{
  Start, row_to_event, event_to_row, chosen_id, start_recording, append_events, fail_recording,
  relink, link_rows, link_replay_events, save_comparison, rows_of, events_for, finish_recording,
  snapshot_key,
}

-- The service's calls, and the tables that each leaves, whether it returns or raises.
module _ (by_sequence : List EventRow → List EventRow) (put_blob : String → Option String) where
  pub data Step : Db → Db → Type 0 where
    start :
        (s : Start) (hex : String) (now : ℕ) (db : Db)
        → Step db (db_after (start_recording s hex now db))
    append :
        (events : List Event) (links : Dict String String) (db : Db)
        → Step db (db_after (append_events events links db))
    fail : (id reason : String) (db : Db) → Step db (db_after (fail_recording id reason db))
    finish :
        (id : String) (db : Db) → Step db (db_after (finish_recording by_sequence put_blob id db))
    link : (links : Dict String String) (db : Db) → Step db (db_after (link_replay_events links db))
    save :
        (id : String) (results : List ComparisonResult) (db : Db)
        → Step db (db_after (save_comparison id results db))

  pub data Reach (from : Db) : Db → Type 0 where
    here : Reach from from
    next : {mid to : Db} → Reach from mid → Step mid to → Reach from to

abbrev pub empty_db : Db
empty_db = record { recordings = []; events = []; comparisons = []; blobs = [] }

abbrev IsClean : EventRow → Type 0
IsClean row = FieldsScrubbed row.payload

abbrev IsSafe : Snapshot → Type 0
IsSafe s = All (λ e. FieldsScrubbed e.payload) s.events

-- No table and no snapshot holds a sensitive value.
pub record IsScrubbed (db : Db) : Type 0 where
  pub rows : All IsClean db.events
  pub snapshots : All IsSafe (values db.blobs)

update_event-All :
    (P : EventRow → Type 0) (f : EventRow → EventRow) (id : String) (rows : List EventRow)
    → ((r : EventRow) → P r → P (f r))
    → All P rows
    → All P (update_event f id rows)
unfolding update_event
update_event-All P f id [] keeps h = tt
update_event-All P f id (r ∷ rows) keeps h = elim (Bool-cases (r.event_id == id)) [
  | inl hit ↦ rw hit (keeps r h.0, h.1)
  | inr miss ↦ rw miss (h.0, update_event-All P f id rows keeps h.1)
]

insert_events-All :
    (P : EventRow → Type 0) (table rows after : List EventRow)
    → All P table
    → All P rows
    → insert_events table rows ≡ some after
    → All P after
unfolding insert_events
insert_events-All P table [] after h q p = subst (All P) (some-injective _ _ p) h
insert_events-All P table (r ∷ rows) after h q p =
    elim (Option-cases (find_event table r.event_id)) [
      | inl fresh ↦
          let p' : insert_events (table ++ r ∷ []) rows ≡ some after =
            rw (fresh, insert_events) at p in
          insert_events-All P (table ++ r ∷ []) rows after (All-append P table (r ∷ []) h (q.0, tt))
            q.1 p'
      | inr (old, taken) ↦
          let p' : none ≡ some after = rw (taken, insert_events) at p in absurd (none-ne-some _ p')
    ]

relink-IsClean :
    (events : List Event) (rows : List EventRow)
    → All IsClean rows
    → All IsClean (relink events rows)
unfolding relink
relink-IsClean [] rows h = h
relink-IsClean (e ∷ events) rows h =
    relink-IsClean events _ (update_event-All IsClean _ e.event_id rows (λ r q. q) h)

link_rows-IsClean :
    (links : Dict String String) (rows : List EventRow)
    → All IsClean rows
    → All IsClean (link_rows links rows)
unfolding link_rows
link_rows-IsClean [] rows h = h
link_rows-IsClean (x ∷ links) rows h =
    link_rows-IsClean links _ (update_event-All IsClean _ x.1 rows (λ r q. q) h)

rows_of-All :
    (P : EventRow → Type 0) (id : String) (rows : List EventRow)
    → All P rows
    → All P (rows_of id rows)
unfolding rows_of
rows_of-All P id [] h = tt
rows_of-All P id (r ∷ rows) h = elim (Bool-cases (r.recording_id == id)) [
  | inl hit ↦ rw hit (h.0, rows_of-All P id rows h.1)
  | inr miss ↦ rw miss (rows_of-All P id rows h.1)
]

values-set :
    (P : Snapshot → Type 0) (d : Dict String Snapshot) (k : String) (s : Snapshot)
    → All P (values d)
    → P s
    → All P (values (set d k s))
unfolding set
values-set P [] k s h q = (q, tt)
values-set P ((j, w) ∷ d) k s h q = elim (Bool-cases (j == k)) [
  | inl hit ↦ rw hit (q, h.1)
  | inr miss ↦ rw miss (h.0, values-set P d k s h.1 q)
]

module _ (by_sequence : List EventRow → List EventRow) (put_blob : String → Option String)
    (answers : (P : EventRow → Type 0) (rows : List EventRow)
      → All P rows
      → All P (by_sequence rows)) where
  events_for-IsClean :
      (id : String) (db : Db)
      → IsScrubbed db
      → All (λ e. FieldsScrubbed e.payload) (events_for by_sequence put_blob id db)
  unfolding events_for row_to_event
  events_for-IsClean id db h =
      All-map (λ e. FieldsScrubbed e.payload) row_to_event _
        (answers IsClean _ (rows_of-All IsClean id db.events h.rows))

  append_events-IsScrubbed :
      (events : List Event) (links : Dict String String) (db : Db)
      → IsScrubbed db
      → IsScrubbed (db_after (append_events events links db))
  unfolding append_events event_to_row
  append_events-IsScrubbed [] links db h = h
  append_events-IsScrubbed (event ∷ events) links db h =
      elim (Option-cases (insert_events db.events rows)) [
        | inl taken ↦ rw (taken, append_events) h
        | inr (table, p) ↦
            rw (p, append_events)
              (record {
                rows = insert_events-All IsClean db.events rows table h.rows clean p;
                snapshots = h.snapshots;
              })
      ]
    where
      stored : List Event
      stored = map redact (event ∷ events)

      rows : List EventRow
      rows = map (λ clean. event_to_row clean (get links clean.event_id)) stored

      clean : All IsClean rows
      clean =
          All-map IsClean (λ clean. event_to_row clean (get links clean.event_id)) stored
            (All-map (λ e. FieldsScrubbed e.payload) redact (event ∷ events)
              (All-of_forall (λ e. FieldsScrubbed (redact e).payload) (event ∷ events)
                redact-scrubbed))

  finish_recording-IsScrubbed :
      (id : String) (db : Db)
      → IsScrubbed db
      → IsScrubbed (db_after (finish_recording by_sequence put_blob id db))
  unfolding finish_recording
  finish_recording-IsScrubbed id db h = elim (Option-cases (find_recording db.recordings id)) [
    | inl absent ↦ rw (absent, finish_recording) h
    | inr (row, p) ↦ elim (Option-cases (put_blob (snapshot_key id))) [
      | inl broken ↦ rw (p, broken, finish_recording) h
      | inr (locator, q) ↦
          rw (p, q, finish_recording)
            (record {
              rows =
                  relink-IsClean (correlate (events_for by_sequence put_blob id db)) db.events
                    h.rows;
              snapshots = values-set IsSafe db.blobs (snapshot_key id) _ h.snapshots (
                  correlate-Keeps FieldsScrubbed (events_for by_sequence put_blob id db)
                    (events_for-IsClean id db h));
            })
    ]
  ]

  start_recording-IsScrubbed :
      (s : Start) (hex : String) (now : ℕ) (db : Db)
      → IsScrubbed db
      → IsScrubbed (db_after (start_recording s hex now db))
  unfolding start_recording
  start_recording-IsScrubbed s hex now db h =
      elim (Option-cases (find_recording db.recordings (chosen_id s hex))) [
        | inl fresh ↦
            rw (fresh, start_recording) (record { rows = h.rows; snapshots = h.snapshots })
        | inr (row, p) ↦ rw (p, start_recording) h
      ]

  fail_recording-IsScrubbed :
      (id reason : String) (db : Db)
      → IsScrubbed db
      → IsScrubbed (db_after (fail_recording id reason db))
  unfolding fail_recording
  fail_recording-IsScrubbed id reason db h = elim (Option-cases (find_recording db.recordings id)) [
    | inl absent ↦ rw (absent, fail_recording) h
    | inr (row, p) ↦ rw (p, fail_recording) (record { rows = h.rows; snapshots = h.snapshots })
  ]

  Step-IsScrubbed :
      {from to : Db} → Step by_sequence put_blob from to → IsScrubbed from → IsScrubbed to
  unfolding link_replay_events save_comparison
  Step-IsScrubbed (Step.start s hex now db) h = start_recording-IsScrubbed s hex now db h
  Step-IsScrubbed (Step.append events links db) h = append_events-IsScrubbed events links db h
  Step-IsScrubbed (Step.fail id reason db) h = fail_recording-IsScrubbed id reason db h
  Step-IsScrubbed (Step.finish id db) h = finish_recording-IsScrubbed id db h
  Step-IsScrubbed (Step.link links db) h = record {
    rows = link_rows-IsClean links db.events h.rows;
    snapshots = h.snapshots;
  }
  Step-IsScrubbed (Step.save id results db) h = record { rows = h.rows; snapshots = h.snapshots }

  -- Whatever calls of the service are made on an empty database, in any order and whether they
  -- return or raise, no event's row and no snapshot holds anything but the mask under a sensitive
  -- key. The database's ORDER BY is to answer with rows of the table only.
  pub Reach-IsScrubbed : {db : Db} → Reach by_sequence put_blob empty_db db → IsScrubbed db
  Reach-IsScrubbed Reach.here = record { rows = tt; snapshots = tt }
  Reach-IsScrubbed (Reach.next path step) = Step-IsScrubbed step (Reach-IsScrubbed path)
