-- ===== src/Plugins/HttpCapture/Captured.antt =====
-- What a capture through the proxy has stored, however its steps interleave.
use infra_replay.Common.{
  Some, ℕ, String, ◌≡◌, refl, sym, ap, ◌∙◌, ◌⊎◌, inl, inr, none, some, List, [], ◌∷◌, ◌++◌,
  append-nil, append_assoc, map, map-append, arith, length, take, range_from, All, All-append,
  All-append_left, All-append_right, map-map, subst,
}
use infra_replay.Schema.Event.{Event}
use infra_replay.Plugins.Redaction.{redact}
use infra_replay.Recording.Database.{EventRow, Db, Error}
use infra_replay.Recording.Service.{row_to_event, event_to_row}
use infra_replay.Recording.Service.Appended.{rows_in}
use infra_replay.Capture.{pump}
use infra_replay.Plugins.HttpCapture.{Proxy, captured_event, begin_handle, end_handle}
use infra_replay.Plugins.HttpCapture.Storing.{Capture, Step, Reach, nothing_yet, pumped}
use infra_replay.Plugins.HttpCapture.Holding.{IsRequestOf, Holds, emit-Holds, keeps_open}
use infra_replay.Plugins.HttpCapture.Copied.{
  IsTaken, pump-one, undated-rows_in, rows_in-append, AreFollowing-redact, event_at-append,
  event_at-undated,
}
use infra_replay.Plugins.HttpCapture.Following.{
  event_at, undated, AreFollowing, map-undated-set_duration, Some-snoc, Some-imp, AreFollowing-take,
  range_from-take, map-take, take-event_at,
}

-- The next of the events has an id that is taken.
abbrev IsRefused : List Event → ℕ → List EventRow → Type 0
IsRefused events place table =
    (e : Event) × (event_at events place ≡ some e) × IsTaken e.event_id table

-- The task has raised nothing, or the integrity error, at an event whose id is taken.
abbrev pub Drained : Capture → Type 0
Drained s =
    (s.drain ≡ none)
    ⊎ ((s.drain ≡ some Error.integrity_error)
        × IsRefused (map undated s.emitted.events) s.stored s.db.events)

-- The rows are those of the copies that have been stored, of objects as they were then.
record IsCapture (start : Db) (s : Capture) : Type 0 where
  copies : List Event
  holds : Holds (map undated s.emitted.events) s.emitted.sequence s.in_flight s.stored copies
  kept : s.db.events ≡ start.events ++ rows_in copies
  drained : Drained s

-- A refusal stands when more is emitted.
emit-Drained :
    (now more : List Event) (s : Capture)
    → map undated now ≡ map undated s.emitted.events
    → Drained s
    → (s.drain ≡ none)
      ⊎ ((s.drain ≡ some Error.integrity_error)
          × IsRefused (map undated (now ++ more)) s.stored s.db.events)
emit-Drained now more s same (inl running) = inl running
emit-Drained now more s same (inr (ended, (e, next, taken))) = inr (
  ended,
  (
    e,
    ap (λ events. event_at events s.stored)
          (map-append undated now more ∙ ap (λ es. es ++ map undated more) same)
        ∙ event_at-append (map undated s.emitted.events) (map undated more) s.stored e next,
    taken,
  ),
)

module _ (hex : ℕ → String) (time_ns : ℕ → ℕ) (proxy : Proxy) (start : Db) where
  stores-IsCapture :
      (event : Event) (s : Capture)
      → s.drain ≡ none
      → event_at s.emitted.events s.stored ≡ some event
      → IsCapture start s
      → IsCapture start (pumped s (pump proxy.recording_id (event ∷ []) s.db))
  stores-IsCapture event s running found h =
      let (grown, within) = take-event_at s.stored s.emitted.events event found in
      elim (pump-one proxy.recording_id event s.db) [
        | inl p ↦
            subst (λ o. IsCapture start (pumped s o)) (sym p)
              (record {
                copies = h.copies ++ event ∷ [];
                holds = record {
                  counted = h.holds.counted;
                  numbered = h.holds.numbered;
                  linked = h.holds.linked;
                  opens = h.holds.opens;
                  copied =
                      map-append undated h.copies (event ∷ [])
                      ∙ ap (λ es. es ++ undated event ∷ []) h.holds.copied
                      ∙ sym grown;
                  within = within;
                };
                kept =
                    ap (λ table. table ++ rows_in (event ∷ [])) h.kept
                    ∙ append_assoc start.events (rows_in h.copies) (rows_in (event ∷ []))
                    ∙ ap (λ rows. start.events ++ rows)
                        (sym (rows_in-append h.copies (event ∷ [])));
                drained = inl running;
              })
        | inr (p, taken) ↦
            subst (λ o. IsCapture start (pumped s o)) (sym p)
              (record {
                copies = h.copies;
                holds = h.holds;
                kept = h.kept;
                drained = inr (
                  refl,
                  (undated event, event_at-undated s.emitted.events s.stored event found, taken),
                );
              })
      ]

  Step-IsCapture :
      {from to : Capture}
      → Step hex time_ns proxy from to
      → IsCapture start from
      → IsCapture start to
  unfolding begin_handle end_handle captured_event
  Step-IsCapture (Step.begins request s) h = record {
    copies = h.copies;
    holds =
        emit-Holds s.emitted.events s.emitted.events _ s.emitted.sequence s.in_flight _ s.stored
          h.copies h.holds refl refl (inl (refl, refl))
          (
            Some-snoc (IsRequestOf (begin_handle hex time_ns proxy request s.emitted).0.0)
                (map undated s.emitted.events) _ (refl, refl, refl),
            keeps_open (map undated s.emitted.events) _ s.in_flight h.holds.opens,
          );
    kept = h.kept;
    drained = emit-Drained s.emitted.events _ s refl h.drained;
  }
  Step-IsCapture (Step.ends upstream before opened after s flights) h =
      let opens =
        subst (All (λ o. Some (IsRequestOf o) (map undated s.emitted.events))) flights
          h.holds.opens in
      let others = All-append_right _ before (opened ∷ after) opens in
      let same = map-undated-set_duration opened.place _ s.emitted.events in
      record {
        copies = h.copies;
        holds =
            emit-Holds s.emitted.events _ _ s.emitted.sequence s.in_flight (before ++ after)
              s.stored h.copies h.holds same refl
              (inr (
                refl,
                Some-imp (IsRequestOf opened) _ (map undated s.emitted.events)
                    (λ r (t, i, c). (t, ap some (sym i), sym c)) others.0,
              ))
              (keeps_open (map undated s.emitted.events) _ (before ++ after) (
                All-append _ before after (All-append_left _ before (opened ∷ after) opens)
                  others.1));
        kept = h.kept;
        drained = emit-Drained _ _ s same h.drained;
      }
  Step-IsCapture (Step.stores event s running found) h = stores-IsCapture event s running found h

  Reach-IsCapture :
      {s : Capture} → Reach hex time_ns proxy (nothing_yet start) s → IsCapture start s
  Reach-IsCapture Reach.here = record {
    copies = [];
    holds = record {
      counted = refl;
      numbered = refl;
      linked = tt;
      opens = tt;
      copied = refl;
      within = omega arith;
    };
    kept = sym (append-nil start.events);
    drained = inl refl;
  }
  Reach-IsCapture (Reach.next path step) = Step-IsCapture step (Reach-IsCapture path)

-- What is in the tables, next to what was there at the start.
pub record AreStored (start : Db) (s : Capture) (rows : List EventRow) : Type 0 where
  pub kept : s.db.events ≡ start.events ++ rows
  pub copied :
      map (λ r. undated (row_to_event r)) rows
      ≡ take s.stored (map (λ e. redact (undated e)) s.emitted.events)
  pub numbered : map (λ r. r.sequence) rows ≡ range_from 0 s.stored
  pub linked : AreFollowing [] (map (λ r. undated (row_to_event r)) rows)
  pub drained : Drained s

IsCapture-AreStored :
    (start : Db) (s : Capture) (h : IsCapture start s) → AreStored start s (rows_in h.copies)
unfolding event_to_row redact
IsCapture-AreStored start s h =
    let emitted = map undated s.emitted.events in
    record {
      kept = h.kept;
      copied =
          undated-rows_in h.copies
          ∙ ap (map redact) h.holds.copied
          ∙ map-take redact s.stored emitted
          ∙ ap (take s.stored) (map-map redact undated s.emitted.events);
      numbered =
          map-map (λ (r : EventRow). r.sequence) (λ e. event_to_row (redact e) none) h.copies
          ∙ sym (map-map (λ (e : Event). e.sequence) undated h.copies)
          ∙ ap (map (λ e. e.sequence)) h.holds.copied
          ∙ map-take (λ (e : Event). e.sequence) s.stored emitted
          ∙ ap (take s.stored) h.holds.numbered
          ∙ range_from-take 0 s.stored (length emitted) h.holds.within;
      linked =
          subst (AreFollowing [])
            (ap (map redact) (sym h.holds.copied) ∙ sym (undated-rows_in h.copies))
            (AreFollowing-redact [] (take s.stored emitted)
              (AreFollowing-take s.stored [] emitted h.holds.linked));
      drained = h.drained;
    }

-- However the requests of a capture interleave, with each other and with the task that stores their
-- events, and while nothing else writes to the tables: the rows that have been added to those that
-- were there are, durations aside, the first of the events that the proxy has emitted, in order and
-- redacted. They are numbered from 0 without a gap, and each response that is stored names as its
-- parent a request that was stored before it, of the same correlation id. The task has raised
-- nothing, or the integrity error, and then the id of the next event is taken.
pub Reach-AreStored :
    (hex : ℕ → String) (time_ns : ℕ → ℕ) (proxy : Proxy) (start : Db) {s : Capture}
    → Reach hex time_ns proxy (nothing_yet start) s
    → (rows : List EventRow) × AreStored start s rows
Reach-AreStored hex time_ns proxy start {s} path =
    let h = Reach-IsCapture hex time_ns proxy start path in
    (rows_in h.copies, IsCapture-AreStored start s h)
