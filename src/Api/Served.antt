-- ===== src/Api/Served.antt =====
-- What holds of the process over any sequence of requests.
use infra_replay.Common.{ℕ, String, List, [], All}
use mathlib.Core.Option.{none-ne-some}
use infra_replay.Common.Dict.{get}
use infra_replay.Schema.Value.{Fields}
use infra_replay.Schema.Event.{Event}
use infra_replay.Recording.Database.{EventRow}
use infra_replay.Recording.Service.Keys.{IsKeyed, Reach-IsKeyed}
use infra_replay.Recording.Service.Stored.{empty_db, IsScrubbed, Reach-IsScrubbed}
use infra_replay.Recording.Service.Stored
use infra_replay.Capture.{Captures, Starts, start_session, yields, stop_session, ingest_events}
use infra_replay.Capture.Opened.{AreOpen, start_session-AreOpen, yields-AreOpen}
use infra_replay.Capture.Live.{stop_session-AreOpen}
use infra_replay.Replay.Playback.{Outside}
use infra_replay.Replay.Runner.{run_replay}
use infra_replay.Demo
use infra_replay.Demo.{Draws}
use infra_replay.Api.{
  Outer, start_capture, ingest, meanwhile, seed, stop_capture, import_bundle, arguments_of,
  create_replay,
}
use infra_replay.Api.Answers.{CaptureRequest, ReplayRequest}
use infra_replay.Api.Grown.Seeded.{seed-Grows}
use infra_replay.Api.Grown.Replayed.{run_replay-Grows}
use infra_replay.Api.Called.{start_session-Reach, yields-Reach, stop_session-Reach}
use infra_replay.Api.Handled.{
  IsServed, grown-IsServed, called-IsServed, ingested-IsServed, reply-IsServed,
  with_outcome-IsServed, with_run-IsServed, import_bundle-IsServed, posted-Grows,
}

-- A request that may change the state, or events that a live session's plugin yields; the other
-- handlers answer from the state and leave it.
module _ (outer : Outer) where
  pub data Step : Captures → Captures → Type 0 where
    seeds : (draws : Draws) (s : Captures) → Step s (seed outer draws s).1
    starts :
        (how : Starts) (req : CaptureRequest) (hex : String) (now : ℕ) (s : Captures)
        → Step s (start_capture how req hex now s).1
    yielded : (id : String) (events : List Event) (s : Captures) → Step s (yields id events s)
    stops :
        (id : String) (rest : List Event) (s : Captures) → Step s (stop_capture outer id rest s).1
    ingests : (id : String) (events : List Event) (s : Captures) → Step s (ingest id events s).1
    imports :
        (bundle : Fields) (other : String) (now : ℕ) (s : Captures)
        → Step s (import_bundle outer bundle other now s).1
    replays :
        (outside : Outside) (req : ReplayRequest) (hex : String) (now : ℕ)
        (posts : List (String × List Event)) (s : Captures)
        → Step s (create_replay outer outside req hex now posts s).1

  pub data Reach (from : Captures) : Captures → Type 0 where
    here : Reach from from
    next : {mid to : Captures} → Reach from mid → Step mid to → Reach from to

-- No two recordings have the same id and no two events have, no payload of a stored event, in a row or
-- in a snapshot, holds anything but the mask under a sensitive key, and each live session has a
-- recording of its own that is open.
abbrev pub IsSound : Captures → Type 0
IsSound s = IsKeyed s.db × IsScrubbed s.db × AreOpen s

module _ (outer : Outer) where
  Step-IsServed :
      {from to : Captures} → Step outer from to → IsServed outer from → IsServed outer to
  unfolding seed start_capture stop_capture ingest create_replay
  Step-IsServed (Step.seeds draws s) h =
      with_outcome-IsServed outer s
        (Demo.seed outer.by_sequence outer.put_blob outer.error_text draws s.db)
        (grown-IsServed outer s _
          (seed-Grows outer.by_sequence outer.put_blob outer.error_text draws s.db) h)
  Step-IsServed (Step.starts how req hex now s) h =
      reply-IsServed outer _ _
        (start_session how req.plugin req.project req.title req.upstream hex now s)
        (called-IsServed outer s _
          (start_session-Reach outer.by_sequence outer.put_blob how req.plugin req.project req.title
            req.upstream hex now s)
          (start_session-AreOpen how req.plugin req.project req.title req.upstream hex now s
            h.opened)
          h)
  Step-IsServed (Step.yielded id events s) h =
      called-IsServed outer s _ (yields-Reach outer.by_sequence outer.put_blob id events s)
        (yields-AreOpen id events s h.opened) h
  Step-IsServed (Step.stops id rest s) h =
      reply-IsServed outer _ _ (stop_session outer.by_sequence outer.put_blob id rest s) (
        called-IsServed outer s _ (stop_session-Reach outer.by_sequence outer.put_blob id rest s)
          (stop_session-AreOpen outer.by_sequence outer.put_blob id rest s h.opened) h)
  Step-IsServed (Step.ingests id events s) h =
      reply-IsServed outer _ _ (ingest_events id events s) (ingested-IsServed outer id events s h)
  Step-IsServed (Step.imports bundle other now s) h =
      import_bundle-IsServed outer bundle other now s h
  Step-IsServed (Step.replays outside req hex now posts s) h =
      with_run-IsServed outer s
        (run_replay outer.by_sequence outer.put_blob outer.comparator_for outer.replay_text
          (meanwhile posts s) outside req.recording_id (arguments_of outer req) hex now s.db)
        (grown-IsServed outer s _
          (run_replay-Grows outer.by_sequence outer.put_blob outer.comparator_for outer.replay_text
            (meanwhile posts s) outside req.recording_id (arguments_of outer req) hex now s.db
            (λ d. posted-Grows outer posts (record s { db = d })))
          h)

  abbrev empty : Captures
  empty = record { db = empty_db; sessions = [] }

  Reach-IsServed : {s : Captures} → Reach outer empty s → IsServed outer s
  unfolding get
  Reach-IsServed Reach.here = record {
    reach = Stored.Reach.here;
    opened = (tt, λ id session found. absurd (none-ne-some _ found));
  }
  Reach-IsServed (Reach.next path step) = Step-IsServed step (Reach-IsServed path)

  -- Whatever requests are served from an empty state on, in any order and whatever they answer, and
  -- whatever the plugins of the live sessions yield and the targets of replays post meanwhile: no two
  -- recordings have the same id and no two events have, no payload of a stored event, in a row or in
  -- a snapshot, holds anything but the mask under a sensitive key, and each live session has a
  -- recording of its own that is open. The database's ORDER BY is to answer with rows of the table only.
  pub Reach-IsSound :
      ((P : EventRow → Type 0) (rows : List EventRow) → All P rows → All P (outer.by_sequence rows))
      → {s : Captures} → Reach outer empty s
      → IsSound s
  Reach-IsSound answers path =
      let served = Reach-IsServed path in
      (
        Reach-IsKeyed outer.by_sequence outer.put_blob served.reach,
        Reach-IsScrubbed outer.by_sequence outer.put_blob answers served.reach,
        served.opened,
      )
