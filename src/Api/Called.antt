-- ===== src/Api/Called.antt =====
-- The calls of a session and an import, as sequences of the service's calls.
use infra_replay.Common.{
  ℕ, String, ◌≡◌, subst, Bool-cases, Option, List, [], ◌∷◌, map, Option-cases, inl, inr, string_eq,
}
use infra_replay.Common.Dict.{get}
use infra_replay.Schema.Event.{Event, Recording}
use infra_replay.Recording.Database.{EventRow, Db, Outcome, Outcome-cases, db_after}
use infra_replay.Recording.Service.{start_recording, append_events, finish_recording}
use infra_replay.Recording.Service.Stored.{Step, Reach}
use infra_replay.Recording.Portable.{rekey}
use infra_replay.Recording.Transfer.{get_status, start_of, store_recording, import_parsed}
use infra_replay.Capture.{
  Captures, Starts, captures_after, capture_start, start_session, pump, yields, stop_session, stamp,
  is_open, ingest_events,
}

module _ (by_sequence : List EventRow → List EventRow) (put_blob : String → Option String) where
  Reach-at {ℓ} :
      {A : Type ℓ} {from : Db} {o end : Outcome A}
      → o ≡ end
      → Reach by_sequence put_blob from (db_after o)
      → Reach by_sequence put_blob from (db_after end)
  Reach-at {from = from} p h = subst (λ o. Reach by_sequence put_blob from (db_after o)) p h

  pub start_session-Reach :
      (how : Starts) (plugin_name project title : String) (upstream : Option String) (hex : String)
      (now : ℕ) (s : Captures)
      → Reach by_sequence put_blob s.db
          (captures_after (start_session how plugin_name project title upstream hex now s)).db
  unfolding start_session
  start_session-Reach Starts.unknown plugin_name project title upstream hex now s = Reach.here
  start_session-Reach (Starts.raises text) plugin_name project title upstream hex now s =
      let start = capture_start plugin_name project title upstream in
      let begun : Reach by_sequence put_blob s.db (db_after (start_recording start hex now s.db)) =
        Reach.next Reach.here (Step.start start hex now s.db) in
      elim (Outcome-cases (start_recording start hex now s.db)) [
        | inl (e, after, p) ↦ rw (p, start_session) (Reach-at p begun)
        | inr (id, started, p) ↦
            rw (p, start_session) (Reach.next (Reach-at p begun) (Step.fail id text started))
      ]
  start_session-Reach (Starts.listens port) plugin_name project title upstream hex now s =
      let start = capture_start plugin_name project title upstream in
      let begun : Reach by_sequence put_blob s.db (db_after (start_recording start hex now s.db)) =
        Reach.next Reach.here (Step.start start hex now s.db) in
      elim (Outcome-cases (start_recording start hex now s.db)) [
        | inl (e, after, p) ↦ rw (p, start_session) (Reach-at p begun)
        | inr (id, started, p) ↦ rw (p, start_session) (Reach-at p begun)
      ]

  pump-Reach :
      (id : String) (events : List Event) (from db : Db)
      → Reach by_sequence put_blob from db
      → Reach by_sequence put_blob from (pump id events db).1
  unfolding pump
  pump-Reach id [] from db h = h
  pump-Reach id (e ∷ events) from db h =
      let stored : Reach by_sequence put_blob from (db_after (append_events (e ∷ []) [] db)) =
        Reach.next h (Step.append (e ∷ []) [] db) in
      elim (Outcome-cases (append_events (e ∷ []) [] db)) [
        | inl (error, after, p) ↦ rw (p, pump) (Reach-at p stored)
        | inr (u, after, p) ↦ rw (p, pump) (pump-Reach id events from after (Reach-at p stored))
      ]

  pub yields-Reach :
      (id : String) (events : List Event) (s : Captures)
      → Reach by_sequence put_blob s.db (yields id events s).db
  unfolding yields
  yields-Reach id events s = elim (Option-cases (get s.sessions id)) [
    | inl absent ↦ rw (absent, yields) Reach.here
    | inr (session, live) ↦ elim (Option-cases session.drain) [
      | inr (e, broken) ↦ rw (live, broken, yields) Reach.here
      | inl runs ↦ rw (live, runs, yields) (pump-Reach id events s.db s.db Reach.here)
    ]
  ]

  pub stop_session-Reach :
      (id : String) (rest : List Event) (s : Captures)
      → Reach by_sequence put_blob s.db
          (captures_after (stop_session by_sequence put_blob id rest s)).db
  unfolding stop_session
  stop_session-Reach id rest s = elim (Option-cases (get s.sessions id)) [
    | inl absent ↦ rw (absent, stop_session) Reach.here
    | inr (session, live) ↦ elim (Option-cases session.drain) [
      | inr (e, broken) ↦ rw (live, broken, stop_session) Reach.here
      | inl runs ↦
          let pumped = pump-Reach id rest s.db s.db Reach.here in
          elim (Option-cases (pump id rest s.db).0) [
            | inr (e, p) ↦ rw (live, runs, p, stop_session) pumped
            | inl ok ↦
                let drained = (pump id rest s.db).1 in
                let completed : Reach by_sequence put_blob s.db
                    (db_after (finish_recording by_sequence put_blob id drained)) =
                  Reach.next pumped (Step.finish id drained) in
                elim (Outcome-cases (finish_recording by_sequence put_blob id drained)) [
                  | inl (e, after, q) ↦ rw (live, runs, ok, q, stop_session) (Reach-at q completed)
                  | inr (rec, after, q) ↦
                      rw (live, runs, ok, q, stop_session) (Reach-at q completed)
                ]
          ]
    ]
  ]

  pub ingest_events-Reach :
      (id : String) (events : List Event) (s : Captures)
      → Reach by_sequence put_blob s.db (captures_after (ingest_events id events s)).db
  unfolding ingest_events
  ingest_events-Reach id events s = elim (Option-cases (get_status id s.db)) [
    | inl absent ↦ rw (absent, ingest_events) Reach.here
    | inr (status, known) ↦ elim (Bool-cases (is_open status)) [
      | inr closed ↦ rw (known, closed, ingest_events) Reach.here
      | inl opened ↦
          let stamped = map (stamp id) events in
          let stored : Reach by_sequence put_blob s.db (db_after (append_events stamped [] s.db)) =
            Reach.next Reach.here (Step.append stamped [] s.db) in
          elim (Outcome-cases (append_events stamped [] s.db)) [
            | inl (e, after, p) ↦ rw (known, opened, p, ingest_events) (Reach-at p stored)
            | inr (u, after, p) ↦ rw (known, opened, p, ingest_events) (Reach-at p stored)
          ]
    ]
  ]

  store_recording-Reach :
      (hex : ℕ → String) (rec : Recording) (other : String) (now : ℕ) (db : Db)
      → Reach by_sequence put_blob db
          (db_after (store_recording by_sequence put_blob hex rec other now db))
  unfolding store_recording
  store_recording-Reach hex rec other now db =
      let begun : Reach by_sequence put_blob db
          (db_after (start_recording (start_of rec) other now db)) =
        Reach.next Reach.here (Step.start (start_of rec) other now db) in
      elim (Outcome-cases (start_recording (start_of rec) other now db)) [
        | inl (e, after, p) ↦ rw (p, store_recording) (Reach-at p begun)
        | inr (id, after, p) ↦
            let stored : Reach by_sequence put_blob db
                (db_after (append_events rec.events [] after)) =
              Reach.next (Reach-at p begun) (Step.append rec.events [] after) in
            elim (Outcome-cases (append_events rec.events [] after)) [
              | inl (e, end, q) ↦ rw (p, q, store_recording) (Reach-at q stored)
              | inr (u, end, q) ↦
                  rw (p, q, store_recording)
                    (Reach.next (Reach-at q stored) (Step.finish rec.recording_id end))
            ]
      ]

  pub import_parsed-Reach :
      (hex : ℕ → String) (rec : Recording) (other : String) (now : ℕ) (db : Db)
      → Reach by_sequence put_blob db
          (db_after (import_parsed by_sequence put_blob hex rec other now db))
  unfolding import_parsed
  import_parsed-Reach hex rec other now db = elim (Option-cases (get_status rec.recording_id db)) [
    | inl fresh ↦ rw (fresh, import_parsed) (store_recording-Reach hex rec other now db)
    | inr (status, clash) ↦
        rw (clash, import_parsed) (store_recording-Reach hex (rekey hex rec) other now db)
  ]
