-- ===== src/Api/Grown/Seeded.antt =====
-- What the demo's captures and a replay leave of the database before them.
use infra_replay.Common.{
  ℕ, suc, String, ◌≡◌, subst, Option, none, some, List, [], ◌∷◌, inl, inr, string_eq,
}
use infra_replay.Schema.Event.{Event, RecordingKind}
use infra_replay.Plugins.Fixtures.{Scenario}
use infra_replay.Plugins.MockCapture.{scenario_value, run_plugin}
use infra_replay.Recording.Database.{EventRow, Db, Error, Outcome-cases, db_after, find_recording}
use infra_replay.Recording.Service.{
  append_events, start_recording, collect, capture_recording, Start,
}
use infra_replay.Demo.{Draws, scenarios, seed_each, seed}
use infra_replay.Api.Grown.{
  Grows, Grows-refl, Grows-trans, Grows-at, start-Grows, append-Grows, fail-Grows, finish-Grows,
  IsNew, start_recording-IsNew,
}

module _ (by_sequence : List EventRow → List EventRow) (put_blob : String → Option String) where
  collect-Grows :
      (events : List Event) (failure : Option String) (from db : Db)
      → Grows by_sequence put_blob from db
      → Grows by_sequence put_blob from (db_after (collect by_sequence put_blob events failure db))
  unfolding collect
  collect-Grows [] none from db h = h
  collect-Grows [] (some text) from db h = h
  collect-Grows (event ∷ events) failure from db h =
      let stored = append-Grows by_sequence put_blob (event ∷ []) from db h in
      elim (Outcome-cases (append_events (event ∷ []) [] db)) [
        | inl (e, after, p) ↦ rw (p, collect) (Grows-at by_sequence put_blob p stored)
        | inr (u, after, p) ↦
            rw (p, collect)
              (collect-Grows events failure from after (Grows-at by_sequence put_blob p stored))
      ]

  capture_recording-Grows :
      (capture : String → List Event × Option String) (text_of : Error → String)
      (project title plugin_name hex : String) (now : ℕ) (db : Db)
      → Grows by_sequence put_blob db (
          db_after (
            capture_recording by_sequence put_blob capture text_of project title plugin_name hex now
              db))
  unfolding capture_recording start_recording
  capture_recording-Grows capture text_of project title plugin_name hex now db =
      elim (Outcome-cases (start_recording start hex now db)) [
        | inl (e, after, p) ↦ rw (p, capture_recording) (Grows-at by_sequence put_blob p begun)
        | inr (id, after, p) ↦
            let fresh : find_recording db.recordings id ≡ none =
              subst (IsNew db) p (start_recording-IsNew start hex now db) in
            let collected =
              collect-Grows (capture id).0 (capture id).1 db after
                (Grows-at by_sequence put_blob p begun) in
            elim (Outcome-cases
              (collect by_sequence put_blob (capture id).0 (capture id).1 after)) [
                | inl (e, end, q) ↦
                    rw (p, q, capture_recording)
                      (fail-Grows by_sequence put_blob id (text_of e) db end fresh
                        (Grows-at by_sequence put_blob q collected))
                | inr (u, end, q) ↦
                    rw (p, q, capture_recording)
                      (finish-Grows by_sequence put_blob id db end fresh
                        (Grows-at by_sequence put_blob q collected))
              ]
      ]
    where
      start : Start
      start = record {
        project = project;
        title = title;
        kind = RecordingKind.capture;
        capture_plugin = plugin_name;
        target = none;
        source_recording_id = none;
        recording_id = none;
      }

      begun : Grows by_sequence put_blob db (db_after (start_recording start hex now db))
      begun =
          start-Grows by_sequence put_blob start hex now db db (Grows-refl by_sequence put_blob db)

  seed_each-Grows :
      (text_of : Error → String) (draws : Draws) (todo : List (Scenario × String)) (n : ℕ) (db : Db)
      → Grows by_sequence put_blob db
          (db_after (seed_each by_sequence put_blob text_of draws todo n db))
  unfolding seed_each
  seed_each-Grows text_of draws [] n db = Grows-refl by_sequence put_blob db
  seed_each-Grows text_of draws ((scenario, title) ∷ rest) n db =
      let captured =
        capture_recording-Grows (run_plugin (draws.event_hex n) (some (scenario_value scenario)))
          text_of "default" title "mock_capture" (draws.recording_hex n) (draws.now n) db in
      elim (Outcome-cases (
        capture_recording by_sequence put_blob
          (run_plugin (draws.event_hex n) (some (scenario_value scenario))) text_of "default" title
          "mock_capture" (draws.recording_hex n) (draws.now n) db)) [
            | inl (e, after, p) ↦ rw (p, seed_each) (Grows-at by_sequence put_blob p captured)
            | inr (rec, seeded, p) ↦
                let more =
                  Grows-trans by_sequence put_blob (Grows-at by_sequence put_blob p captured)
                    (seed_each-Grows text_of draws rest (suc n) seeded) in
                elim (Outcome-cases
                  (seed_each by_sequence put_blob text_of draws rest (suc n) seeded)) [
                    | inl (e, after, q) ↦
                        rw (p, q, seed_each) (Grows-at by_sequence put_blob q more)
                    | inr (recs, after, q) ↦
                        rw (p, q, seed_each) (Grows-at by_sequence put_blob q more)
                  ]
          ]

  pub seed-Grows :
      (text_of : Error → String) (draws : Draws) (db : Db)
      → Grows by_sequence put_blob db (db_after (seed by_sequence put_blob text_of draws db))
  unfolding seed
  seed-Grows text_of draws db = seed_each-Grows text_of draws scenarios 0 db
