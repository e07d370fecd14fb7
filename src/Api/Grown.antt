-- ===== src/Api/Grown.antt =====
-- The calls of the service that a handler composes, and what they keep of the database before it.
pub mod Seeded
pub mod Replayed
use infra_replay.Common.{
  ℕ, String, ◌≡◌, Option, none, List, [], Option-cases, inl, inr, string_eq, subst,
}
use infra_replay.Common.Dict.{Dict}
use infra_replay.Schema.Event.{Event}
use infra_replay.Schema.Result.{ComparisonResult}
use infra_replay.Recording.Database.{EventRow, Db, Outcome, db_after, find_recording}
use infra_replay.Recording.Service.{
  Start, chosen_id, start_recording, append_events, fail_recording, finish_recording,
  link_replay_events, save_comparison,
}
use infra_replay.Recording.Service.Stored.{Step, Reach}
use infra_replay.Recording.Transfer.Kept.{
  KeepsRecordings, append_events-recordings, start_recording-Keeps, finish_recording-Keeps,
}
use infra_replay.Capture.Opened.{fail_recording-Keeps, same-Keeps}

-- The recording that a call has made was not there.
abbrev pub IsNew : Db → Outcome String → Type 0
IsNew db (Outcome.done id after) = find_recording db.recordings id ≡ none
IsNew db (Outcome.raised e after) = Unit

pub start_recording-IsNew :
    (s : Start) (hex : String) (now : ℕ) (db : Db) → IsNew db (start_recording s hex now db)
unfolding start_recording
start_recording-IsNew s hex now db =
    elim (Option-cases (find_recording db.recordings (chosen_id s hex))) [
      | inl fresh ↦ rw (fresh, start_recording) fresh
      | inr (row, taken) ↦ rw (taken, start_recording) tt
    ]

module _ (by_sequence : List EventRow → List EventRow) (put_blob : String → Option String) where
  pub Reach-trans :
      {from mid to : Db}
      → Reach by_sequence put_blob from mid
      → Reach by_sequence put_blob mid to
      → Reach by_sequence put_blob from to
  Reach-trans path Reach.here = path
  Reach-trans path (Reach.next more step) = Reach.next (Reach-trans path more) step

  -- `to` comes from `from` by calls of the service, and every recording of `from` is as it was.
  pub record Grows (from to : Db) : Type 0 where
    pub reach : Reach by_sequence put_blob from to
    pub keeps : KeepsRecordings from to

  pub Grows-refl : (db : Db) → Grows db db
  Grows-refl db = record { reach = Reach.here; keeps = λ id row found. found }

  pub Grows-trans : {from mid to : Db} → Grows from mid → Grows mid to → Grows from to
  Grows-trans h q = record {
    reach = Reach-trans h.reach q.reach;
    keeps = λ id row found. q.keeps id row (h.keeps id row found);
  }

  pub Grows-at {ℓ} :
      {A : Type ℓ} {from : Db} {o end : Outcome A}
      → o ≡ end
      → Grows from (db_after o)
      → Grows from (db_after end)
  Grows-at {from = from} p h = subst (λ o. Grows from (db_after o)) p h

  pub start-Grows :
      (s : Start) (hex : String) (now : ℕ) (from db : Db)
      → Grows from db
      → Grows from (db_after (start_recording s hex now db))
  start-Grows s hex now from db h = record {
    reach = Reach.next h.reach (Step.start s hex now db);
    keeps = λ id row found.
        start_recording-Keeps by_sequence put_blob s hex now db id row (h.keeps id row found);
  }

  pub append-Grows :
      (events : List Event) (from db : Db)
      → Grows from db
      → Grows from (db_after (append_events events [] db))
  append-Grows events from db h = record {
    reach = Reach.next h.reach (Step.append events [] db);
    keeps = λ id row found.
        same-Keeps db (db_after (append_events events [] db)) (append_events-recordings events db)
          id row (h.keeps id row found);
  }

  -- A recording that is new may fail or finish.
  pub fail-Grows :
      (id reason : String) (from db : Db)
      → find_recording from.recordings id ≡ none
      → Grows from db
      → Grows from (db_after (fail_recording id reason db))
  fail-Grows id reason from db fresh h = record {
    reach = Reach.next h.reach (Step.fail id reason db);
    keeps = fail_recording-Keeps from db id reason fresh h.keeps;
  }

  pub finish-Grows :
      (id : String) (from db : Db)
      → find_recording from.recordings id ≡ none
      → Grows from db
      → Grows from (db_after (finish_recording by_sequence put_blob id db))
  finish-Grows id from db fresh h = record {
    reach = Reach.next h.reach (Step.finish id db);
    keeps = finish_recording-Keeps by_sequence put_blob from id db fresh h.keeps;
  }

  pub link-Grows :
      (links : Dict String String) (from db : Db)
      → Grows from db
      → Grows from (db_after (link_replay_events links db))
  unfolding link_replay_events
  link-Grows links from db h = record {
    reach = Reach.next h.reach (Step.link links db);
    keeps = h.keeps;
  }

  pub save-Grows :
      (id : String) (results : List ComparisonResult) (from db : Db)
      → Grows from db
      → Grows from (db_after (save_comparison id results db))
  unfolding save_comparison
  save-Grows id results from db h = record {
    reach = Reach.next h.reach (Step.save id results db);
    keeps = h.keeps;
  }
