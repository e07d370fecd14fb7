-- ===== src/Capture/Opened.antt =====
-- Each call of a session, and the recordings of the live sessions.
use infra_replay.Common.{
  ℕ, String, ◌≡◌, refl, sym, ap, ◌∙◌, subst, inl, inr, true, false, Option, none, some, List, [],
  ◌∷◌, ◌++◌, ◌==◌, string_eq, beq_refl, Option-cases, Bool-cases,
}
use mathlib.Core.Option.{none-ne-some}
use infra_replay.Common.Dict.{
  get, remove, HasUniqueKeys, get-set_cases, set-HasUniqueKeys, get-remove, get-remove_self,
  remove-HasUniqueKeys,
}
use infra_replay.Schema.Event.{Event, RecordingKind, RecordingStatus}
use infra_replay.Recording.Database.{RecordingRow, Db, Outcome-cases, db_after, find_recording}
use infra_replay.Recording.Service.{chosen_id, start_recording, append_events, fail_recording}
use infra_replay.Recording.Transfer.{get_status}
use infra_replay.Recording.Transfer.Kept.{
  KeepsRecordings, find_recording-update_other, find_recording-append, find_recording-snoc,
  found-apart, append_events-recordings,
}
use infra_replay.Capture.{
  Captures, Session, SessionError, Starts, Call, captures_after, capture_start, start_session, pump,
  yields, ingest_events,
}
use infra_replay.Capture.Ingested.{Ingests, ingest_events-Ingests}

-- The sessions are of different recordings, and each of these is open.
abbrev pub AreOpen : Captures → Type 0
AreOpen s =
    HasUniqueKeys s.sessions
    × ((id : String) (session : Session)
        → get s.sessions id ≡ some session
        → get_status id s.db ≡ some RecordingStatus.recording)

pub get_status-Keeps :
    (id : String) (from to : Db) (status : RecordingStatus)
    → ((row : RecordingRow)
        → find_recording from.recordings id ≡ some row
        → find_recording to.recordings id ≡ some row)
    → get_status id from ≡ some status
    → get_status id to ≡ some status
unfolding get_status
get_status-Keeps id from to status keeps known =
    elim (Option-cases (find_recording from.recordings id)) [
      | inl absent ↦
          let broken : none ≡ some status = rw (absent, get_status) at known in
          absurd (none-ne-some _ broken)
      | inr (row, found) ↦
          let same : some row.status ≡ some status = rw (found, get_status) at known in
          rw (keeps row found, get_status) same
    ]

pub same-Keeps : (from to : Db) → to.recordings ≡ from.recordings → KeepsRecordings from to
same-Keeps from to same id row found = ap (λ rows. find_recording rows id) same ∙ found

pub pump-recordings :
    (id : String) (events : List Event) (db : Db) → (pump id events db).1.recordings ≡ db.recordings
unfolding pump
pump-recordings id [] db = refl
pump-recordings id (e ∷ events) db = elim (Outcome-cases (append_events (e ∷ []) [] db)) [
  | inl (error, after, p) ↦
      rw (p, pump)
        (ap (λ o. (db_after o).recordings) (sym p) ∙ append_events-recordings (e ∷ []) db)
  | inr (stored, after, p) ↦
      rw (p, pump)
        (pump-recordings id events after
          ∙ ap (λ o. (db_after o).recordings) (sym p)
          ∙ append_events-recordings (e ∷ []) db)
]

-- Other recordings are kept by a change to the sessions and the database.
pub keeps-AreOpen :
    (s : Captures) (db : Db) → KeepsRecordings s.db db → AreOpen s → AreOpen (record s { db = db })
keeps-AreOpen s db keeps h =
    (h.0, λ id session found. get_status-Keeps id s.db db _ (keeps id) (h.1 id session found))

pub ingest_events-AreOpen :
    (id : String) (events : List Event) (s : Captures) (call : Call ℕ)
    → Ingests id events s call
    → AreOpen s
    → AreOpen (captures_after call)
ingest_events-AreOpen id events s (Call.failed (SessionError.capture_error text) to) i h =
    subst AreOpen (sym i.0) h
ingest_events-AreOpen id events s (Call.failed (SessionError.service_error e) to) i h =
    subst AreOpen (sym i.0) h
ingest_events-AreOpen id events s (Call.failed (SessionError.plugin_error text) to) i h = elim i [ ]
ingest_events-AreOpen id events s (Call.returned count to) i h =
    let added = i.2 in
    subst (λ sessions. AreOpen (record { db = to.db; sessions = sessions })) (sym added.sessions)
      (keeps-AreOpen s to.db (same-Keeps s.db to.db added.recordings) h)

pub yields-AreOpen :
    (id : String) (events : List Event) (s : Captures) → AreOpen s → AreOpen (yields id events s)
unfolding yields
yields-AreOpen id events s h = elim (Option-cases (get s.sessions id)) [
  | inl absent ↦ rw (absent, yields) h
  | inr (session, live) ↦ elim (Option-cases session.drain) [
    | inr (e, broken) ↦ rw (live, broken, yields) h
    | inl runs ↦
        let after = (pump id events s.db).1 in
        let keeps = same-Keeps s.db after (pump-recordings id events s.db) in
        let now : Session = record session { drain = (pump id events s.db).0 } in
        rw (live, runs, yields)
          (
            set-HasUniqueKeys s.sessions id now h.0,
            λ j other found. elim (get-set_cases s.sessions id j now other found) [
              | inl (same, q) ↦ get_status-Keeps j s.db after _ (keeps j) (
                  subst (λ k. get_status k s.db ≡ some RecordingStatus.recording) same
                    (h.1 id session live))
              | inr old ↦ get_status-Keeps j s.db after _ (keeps j) (h.1 j other old)
            ],
          )
  ]
]

pub fail_recording-Keeps :
    (from db : Db) (at reason : String)
    → find_recording from.recordings at ≡ none
    → KeepsRecordings from db
    → KeepsRecordings from (db_after (fail_recording at reason db))
unfolding fail_recording
fail_recording-Keeps from db at reason new keeps id row found =
    elim (Option-cases (find_recording db.recordings at)) [
      | inl absent ↦ rw (absent, fail_recording) (keeps id row found)
      | inr (r, p) ↦
          rw (p, fail_recording)
            (find_recording-update_other _ at id db.recordings row (λ k. refl)
              (found-apart from.recordings at id row new found) (keeps id row found))
    ]

get_status-snoc :
    (db : Db) (row : RecordingRow) (id : String)
    → find_recording db.recordings id ≡ none
    → (row.recording_id == id) ≡ true
    → get_status id (record db { recordings = db.recordings ++ row ∷ [] }) ≡ some row.status
unfolding get_status
get_status-snoc db row id absent same =
    rw (find_recording-snoc id db.recordings row absent same, get_status) refl

pub start_session-AreOpen :
    (how : Starts) (plugin_name project title : String) (upstream : Option String) (hex : String)
    (now : ℕ) (s : Captures)
    → AreOpen s
    → AreOpen (captures_after (start_session how plugin_name project title upstream hex now s))
unfolding start_session start_recording
start_session-AreOpen Starts.unknown plugin_name project title upstream hex now s h = h
start_session-AreOpen (Starts.raises text) plugin_name project title upstream hex now s h =
    let id = chosen_id (capture_start plugin_name project title upstream) hex in
    elim (Option-cases (find_recording s.db.recordings id)) [
      | inr (row, taken) ↦ rw (taken, start_session, start_recording) h
      | inl fresh ↦
          rw (fresh, start_session, start_recording)
            (keeps-AreOpen s _
              (fail_recording-Keeps s.db _ id text fresh
                (λ j row. find_recording-append s.db.recordings _ j row))
              h)
    ]
start_session-AreOpen (Starts.listens port) plugin_name project title upstream hex now s h =
    let start = capture_start plugin_name project title upstream in
    let id = chosen_id start hex in
    let begun : RecordingRow = record {
      recording_id = id;
      project = project;
      kind = RecordingKind.capture;
      status = RecordingStatus.recording;
      title = start.title;
      capture_plugin = plugin_name;
      source_recording_id = none;
      target = upstream;
      blob_locator = none;
      created_at = now;
    } in
    elim (Option-cases (find_recording s.db.recordings id)) [
      | inr (row, taken) ↦ rw (taken, start_session, start_recording) h
      | inl fresh ↦
          rw (fresh, start_session, start_recording)
            (
              set-HasUniqueKeys s.sessions id _ h.0,
              λ j other found. elim (get-set_cases s.sessions id j _ other found) [
                | inl (same, q) ↦
                    subst
                      (λ k.
                        get_status k (record s.db { recordings = s.db.recordings ++ begun ∷ [] })
                        ≡ some RecordingStatus.recording)
                      same (get_status-snoc s.db begun id fresh (beq_refl id))
                | inr old ↦
                    get_status-Keeps j s.db _ _
                      (λ row. find_recording-append s.db.recordings _ j row) (h.1 j other old)
              ],
            )
    ]

pub popped-AreOpen :
    (id : String) (s : Captures) (db : Db)
    → AreOpen s
    → ((j : String) (row : RecordingRow)
        → (id == j) ≡ false
        → find_recording s.db.recordings j ≡ some row
        → find_recording db.recordings j ≡ some row)
    → AreOpen (record { db = db; sessions = remove s.sessions id })
popped-AreOpen id s db h keeps = (
  remove-HasUniqueKeys s.sessions id h.0,
  λ j other found. elim (Bool-cases (id == j)) [
    | inl hit ↦
        let gone : get (remove s.sessions id) j ≡ none =
          ap (get (remove s.sessions id)) (sym ((string_eq.beq_iff id j).0 hit))
          ∙ get-remove_self s.sessions id h.0 in
        absurd (none-ne-some _ (sym gone ∙ found))
    | inr miss ↦
        get_status-Keeps j s.db db _ (λ row. keeps j row miss)
          (h.1 j other (sym (get-remove s.sessions id j miss) ∙ found))
  ],
)

pub ingest_events-Keeps :
    (id : String) (events : List Event) (s : Captures)
    → KeepsRecordings s.db (captures_after (ingest_events id events s)).db
ingest_events-Keeps id events s = go (ingest_events id events s) (ingest_events-Ingests id events s)
  where
    go : (call : Call ℕ) → Ingests id events s call → KeepsRecordings s.db (captures_after call).db
    go (Call.failed (SessionError.capture_error text) to) i =
        same-Keeps s.db to.db (ap (λ c. c.db.recordings) i.0)
    go (Call.failed (SessionError.service_error e) to) i =
        same-Keeps s.db to.db (ap (λ c. c.db.recordings) i.0)
    go (Call.failed (SessionError.plugin_error text) to) i = elim i [ ]
    go (Call.returned count to) i = same-Keeps s.db to.db i.2.recordings
