-- ===== src/Capture/Live.antt =====
-- The sessions of the process, over any sequence of calls.
use infra_replay.Common.{
  ℕ, String, ◌≡◌, refl, inl, inr, false, Option, some, List, [], ◌==◌, string_eq, Option-cases,
}
use mathlib.Core.Option.{none-ne-some}
use infra_replay.Common.Dict.{get}
use infra_replay.Schema.Event.{Event}
use infra_replay.Recording.Database.{
  RecordingRow, EventRow, Db, Outcome-cases, db_after, find_recording,
}
use infra_replay.Recording.Service.{snapshot_key, finish_recording}
use infra_replay.Recording.Service.Stored.{empty_db}
use infra_replay.Recording.Transfer.Kept.{find_recording-update_other}
use infra_replay.Capture.{
  Captures, Starts, captures_after, start_session, pump, yields, stop_session, ingest_events,
}
use infra_replay.Capture.Ingested.{ingest_events-Ingests}
use infra_replay.Capture.Opened.{
  AreOpen, same-Keeps, pump-recordings, ingest_events-AreOpen, yields-AreOpen,
  start_session-AreOpen, popped-AreOpen,
}

module _ (by_sequence : List EventRow → List EventRow) (put_blob : String → Option String) where
  pub data Step : Captures → Captures → Type 0 where
    starts :
        (how : Starts) (plugin_name project title : String) (upstream : Option String)
        (hex : String) (now : ℕ) (s : Captures)
        → Step s (captures_after (start_session how plugin_name project title upstream hex now s))
    yielded : (id : String) (events : List Event) (s : Captures) → Step s (yields id events s)
    stops :
        (id : String) (rest : List Event) (s : Captures)
        → Step s (captures_after (stop_session by_sequence put_blob id rest s))
    ingests :
        (id : String) (events : List Event) (s : Captures)
        → Step s (captures_after (ingest_events id events s))

  pub data Reach (from : Captures) : Captures → Type 0 where
    here : Reach from from
    next : {mid to : Captures} → Reach from mid → Step mid to → Reach from to

module _ (by_sequence : List EventRow → List EventRow) (put_blob : String → Option String) where
  finish_recording-others :
      (id : String) (db : Db) (j : String) (row : RecordingRow)
      → (id == j) ≡ false
      → find_recording db.recordings j ≡ some row
      → find_recording (db_after (finish_recording by_sequence put_blob id db)).recordings j
        ≡ some row
  unfolding finish_recording
  finish_recording-others id db j row apart found =
      elim (Option-cases (find_recording db.recordings id)) [
        | inl absent ↦ rw (absent, finish_recording) found
        | inr (r, p) ↦ elim (Option-cases (put_blob (snapshot_key id))) [
          | inl broken ↦ rw (p, broken, finish_recording) found
          | inr (locator, q) ↦
              rw (p, q, finish_recording)
                (find_recording-update_other _ id j db.recordings row (λ k. refl) apart found)
        ]
      ]

  pub stop_session-AreOpen :
      (id : String) (rest : List Event) (s : Captures)
      → AreOpen s
      → AreOpen (captures_after (stop_session by_sequence put_blob id rest s))
  unfolding stop_session
  stop_session-AreOpen id rest s h = elim (Option-cases (get s.sessions id)) [
    | inl absent ↦ rw (absent, stop_session) h
    | inr (session, live) ↦ elim (Option-cases session.drain) [
      | inr (e, broken) ↦
          rw (live, broken, stop_session) (popped-AreOpen id s s.db h (λ j row apart found. found))
      | inl runs ↦
          let drained = (pump id rest s.db).1 in
          let kept = same-Keeps s.db drained (pump-recordings id rest s.db) in
          elim (Option-cases (pump id rest s.db).0) [
            | inr (e, p) ↦
                rw (live, runs, p, stop_session)
                  (popped-AreOpen id s drained h (λ j row apart. kept j row))
            | inl ok ↦
                let finished : (j : String) (row : RecordingRow)
                    → (id == j) ≡ false
                    → find_recording s.db.recordings j ≡ some row
                    → find_recording
                        (db_after (finish_recording by_sequence put_blob id drained)).recordings j
                      ≡ some row =
                  λ j row apart found.
                    finish_recording-others id drained j row apart (kept j row found) in
                elim (Outcome-cases (finish_recording by_sequence put_blob id drained)) [
                  | inl (e, after, q) ↦
                      rw (live, runs, ok, q, stop_session)
                        (popped-AreOpen id s after h (rw q at finished))
                  | inr (recording, after, q) ↦
                      rw (live, runs, ok, q, stop_session)
                        (popped-AreOpen id s after h (rw q at finished))
                ]
          ]
    ]
  ]

  -- Whatever sessions are started and stopped, whatever their plugins yield and other processes post:
  -- each live session has a recording of its own that is open, until it is stopped.
  pub Reach-AreOpen :
      {s : Captures}
      → Reach by_sequence put_blob (record { db = empty_db; sessions = [] }) s
      → AreOpen s
  unfolding get
  Reach-AreOpen Reach.here = (tt, λ id session found. absurd (none-ne-some _ found))
  Reach-AreOpen (Reach.next path (Step.starts how plugin_name project title upstream hex now s)) =
      start_session-AreOpen how plugin_name project title upstream hex now s (Reach-AreOpen path)
  Reach-AreOpen (Reach.next path (Step.yielded id events s)) =
      yields-AreOpen id events s (Reach-AreOpen path)
  Reach-AreOpen (Reach.next path (Step.stops id rest s)) =
      stop_session-AreOpen id rest s (Reach-AreOpen path)
  Reach-AreOpen (Reach.next path (Step.ingests id events s)) =
      ingest_events-AreOpen id events s _ (ingest_events-Ingests id events s) (Reach-AreOpen path)
