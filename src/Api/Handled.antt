-- ===== src/Api/Handled.antt =====
-- What the handlers leave, as the calls of the services that they make.
use infra_replay.Common.{ℕ, String, ◌≡◌, refl, List, [], ◌∷◌}
use infra_replay.Schema.Value.{Fields}
use infra_replay.Schema.Event.{Event, Recording}
use infra_replay.Recording.Database.{Db, Outcome, db_after}
use infra_replay.Recording.Service.Stored.{empty_db, IsScrubbed, Reach-IsScrubbed}
use infra_replay.Recording.Service.Stored
use infra_replay.Recording.Portable.Bundle.{Parsed, parse_bundle}
use infra_replay.Recording.Transfer.{import_parsed, import_recording}
use infra_replay.Recording.Transfer.Kept.{import_parsed-Keeps}
use infra_replay.Capture.{Captures, SessionError, Call, captures_after, ingest_events}
use infra_replay.Capture.Ingested.{ingest_events-Ingests}
use infra_replay.Capture.Opened.{AreOpen, ingest_events-Keeps, keeps-AreOpen, ingest_events-AreOpen}
use infra_replay.Replay.Runner.{Run, RunError}
use infra_replay.Api.{Outer, posted, import_bundle}
use infra_replay.Api.Answers.{Answer, reply, with_outcome, with_run}
use infra_replay.Api.Grown.{Grows, Grows-refl, Grows-trans, Reach-trans}
use infra_replay.Api.Grown.Replayed.{run_db}
use infra_replay.Api.Called.{ingest_events-Reach, import_parsed-Reach}

-- The database comes from an empty one by calls of the service, and the live sessions are open.
pub record IsServed (outer : Outer) (s : Captures) : Type 0 where
  pub reach : Stored.Reach outer.by_sequence outer.put_blob empty_db s.db
  pub opened : AreOpen s

module _ (outer : Outer) where
  pub grown-IsServed :
      (s : Captures) (db : Db)
      → Grows outer.by_sequence outer.put_blob s.db db
      → IsServed outer s
      → IsServed outer (record s { db = db })
  grown-IsServed s db g h = record {
    reach = Reach-trans outer.by_sequence outer.put_blob h.reach g.reach;
    opened = keeps-AreOpen s db g.keeps h.opened;
  }

  pub called-IsServed :
      (from to : Captures)
      → Stored.Reach outer.by_sequence outer.put_blob from.db to.db
      → AreOpen to
      → IsServed outer from
      → IsServed outer to
  called-IsServed from to path opened h = record {
    reach = Reach-trans outer.by_sequence outer.put_blob h.reach path;
    opened = opened;
  }

  pub ingested-IsServed :
      (id : String) (events : List Event) (s : Captures)
      → IsServed outer s
      → IsServed outer (captures_after (ingest_events id events s))
  ingested-IsServed id events s h =
      called-IsServed s _ (ingest_events-Reach outer.by_sequence outer.put_blob id events s)
        (ingest_events-AreOpen id _ s _ (ingest_events-Ingests id events s) h.opened) h

  pub reply-IsServed {ℓ κ} :
      {A : Type ℓ} {B : Type κ} (f : A → B) (refusal : SessionError → Answer B) (call : Call A)
      → IsServed outer (captures_after call)
      → IsServed outer (reply f refusal call).1
  reply-IsServed f refusal (Call.returned a s) h = h
  reply-IsServed f refusal (Call.failed e s) h = h

  pub with_outcome-IsServed {ℓ} :
      {A : Type ℓ} (s : Captures) (o : Outcome A)
      → IsServed outer (record s { db = db_after o })
      → IsServed outer (with_outcome s o).1
  with_outcome-IsServed s (Outcome.done a db) h = h
  with_outcome-IsServed s (Outcome.raised e db) h = h

  pub with_run-IsServed :
      (s : Captures) (run : Run)
      → IsServed outer (record s { db = run_db run })
      → IsServed outer (with_run s run).1
  with_run-IsServed s (Run.finished run summary db) h = h
  with_run-IsServed s (Run.failed (RunError.replay_error e) db) h = h
  with_run-IsServed s (Run.failed (RunError.service_error e) db) h = h
  with_run-IsServed s (Run.failed RunError.other_error db) h = h

  pub import_bundle-IsServed :
      (bundle : Fields) (other : String) (now : ℕ) (s : Captures)
      → IsServed outer s
      → IsServed outer (import_bundle outer bundle other now s).1
  unfolding import_bundle import_recording
  import_bundle-IsServed bundle other now s h =
      go
        (parse_bundle outer.migrations outer.fuel outer.validate_event outer.validate_recording
          bundle)
        refl
    where
      go :
          (p : Parsed Recording)
          → parse_bundle outer.migrations outer.fuel outer.validate_event outer.validate_recording
              bundle
            ≡ p
          → IsServed outer (import_bundle outer bundle other now s).1
      go (Parsed.parsed rec) p =
          rw (p, import_bundle, import_recording)
            (with_outcome-IsServed s
              (import_parsed outer.by_sequence outer.put_blob outer.hex rec other now s.db)
              (grown-IsServed s _
                (record {
                  reach =
                      import_parsed-Reach outer.by_sequence outer.put_blob outer.hex rec other now
                        s.db;
                  keeps =
                      import_parsed-Keeps outer.by_sequence outer.put_blob outer.hex rec other now
                        s.db;
                })
                h))
      go Parsed.bundle_error p = rw (p, import_bundle, import_recording) h
      go Parsed.other_error p = rw (p, import_bundle, import_recording) h
      go Parsed.unfinished p = rw (p, import_bundle, import_recording) h

  pub posted-Grows :
      (posts : List (String × List Event)) (s : Captures)
      → Grows outer.by_sequence outer.put_blob s.db (posted posts s).db
  unfolding posted
  posted-Grows [] s = Grows-refl outer.by_sequence outer.put_blob s.db
  posted-Grows ((id, events) ∷ posts) s =
      Grows-trans outer.by_sequence outer.put_blob
        (record {
          reach = ingest_events-Reach outer.by_sequence outer.put_blob id events s;
          keeps = ingest_events-Keeps id events s;
        })
        (posted-Grows posts (captures_after (ingest_events id events s)))
