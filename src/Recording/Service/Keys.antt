-- ===== src/Recording/Service/Keys.antt =====
-- The primary keys of the tables, over any sequence of the service's calls.
use infra_replay.Common.{
  String, refl, Option, List, [], ◌∷◌, map, string_eq, Option-cases, inl, inr,
}
use infra_replay.Common.Dict.{get}
use infra_replay.Schema.Event.{Event}
use infra_replay.Plugins.Redaction.{redact}
use infra_replay.Recording.Correlate.{correlate}
use infra_replay.Recording.Database.{EventRow, Db, find_recording, insert_events}
use infra_replay.Recording.Service.{
  event_to_row, chosen_id, start_recording, append_events, fail_recording, link_replay_events,
  save_comparison, finish_recording, events_for, snapshot_key,
}
use infra_replay.Recording.Service.Stored.{Step, Reach, empty_db}
use infra_replay.Recording.Service.EventKeys.{
  HasEventKeys, insert_events-HasEventKeys, relink-HasEventKeys, link_rows-HasEventKeys,
}
use infra_replay.Recording.Service.RecordingKeys.{
  HasRecordingKeys, snoc-HasRecordingKeys, update_recording-HasRecordingKeys,
}

pub record IsKeyed (db : Db) : Type 0 where
  pub events : HasEventKeys db.events
  pub recordings : HasRecordingKeys db.recordings

module _ (by_sequence : List EventRow → List EventRow) (put_blob : String → Option String) where
  Step-IsKeyed : {from to : Db} → Step by_sequence put_blob from to → IsKeyed from → IsKeyed to
  unfolding start_recording append_events fail_recording finish_recording link_replay_events
      save_comparison
  Step-IsKeyed (Step.start s hex now db) h =
      elim (Option-cases (find_recording db.recordings (chosen_id s hex))) [
        | inl fresh ↦
            rw (fresh, start_recording)
              (record {
                events = h.events;
                recordings = snoc-HasRecordingKeys db.recordings _ h.recordings fresh;
              })
        | inr (row, p) ↦ rw (p, start_recording) h
      ]
  Step-IsKeyed (Step.append [] links db) h = h
  Step-IsKeyed (Step.append (event ∷ events) links db) h =
      elim (Option-cases (insert_events db.events (rows (map redact (event ∷ events))))) [
        | inl taken ↦ rw (taken, append_events) h
        | inr (table, p) ↦
            rw (p, append_events)
              (record {
                events =
                    insert_events-HasEventKeys db.events (rows (map redact (event ∷ events))) table
                      h.events p;
                recordings = h.recordings;
              })
      ]
    where
      rows : List Event → List EventRow
      rows = map (λ clean. event_to_row clean (get links clean.event_id))
  Step-IsKeyed (Step.fail id reason db) h = elim (Option-cases (find_recording db.recordings id)) [
    | inl absent ↦ rw (absent, fail_recording) h
    | inr (row, p) ↦
        rw (p, fail_recording)
          (record {
            events = h.events;
            recordings =
                update_recording-HasRecordingKeys _ id (λ r. refl) db.recordings h.recordings;
          })
  ]
  Step-IsKeyed (Step.finish id db) h = elim (Option-cases (find_recording db.recordings id)) [
    | inl absent ↦ rw (absent, finish_recording) h
    | inr (row, p) ↦ elim (Option-cases (put_blob (snapshot_key id))) [
      | inl broken ↦ rw (p, broken, finish_recording) h
      | inr (locator, q) ↦
          rw (p, q, finish_recording)
            (record {
              events =
                  relink-HasEventKeys (correlate (events_for by_sequence put_blob id db)) db.events
                    h.events;
              recordings =
                  update_recording-HasRecordingKeys _ id (λ r. refl) db.recordings h.recordings;
            })
    ]
  ]
  Step-IsKeyed (Step.link links db) h = record {
    events = link_rows-HasEventKeys links db.events h.events;
    recordings = h.recordings;
  }
  Step-IsKeyed (Step.save id results db) h = record { events = h.events; recordings = h.recordings }

  -- Whatever calls of the service are made on an empty database, in any order and whether they
  -- return or raise, no two recordings have the same id and no two events have.
  pub Reach-IsKeyed : {db : Db} → Reach by_sequence put_blob empty_db db → IsKeyed db
  Reach-IsKeyed Reach.here = record { events = tt; recordings = tt }
  Reach-IsKeyed (Reach.next path step) = Step-IsKeyed step (Reach-IsKeyed path)
