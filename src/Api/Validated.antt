-- ===== src/Api/Validated.antt =====
-- What `validate_bundle` promises of `import_bundle`.
use infra_replay.Common.{
  ℕ, String, ◌≡◌, ◌≢◌, ◌⊎◌, refl, sym, ◌∙◌, Option, none, List, [], string_eq, Option-cases, length,
  inl, inr,
}
use mathlib.Core.Option.{none-ne-some}
use infra_replay.Schema.Value.{Fields}
use infra_replay.Schema.Event.{Recording, RecordingStatus}
use infra_replay.Recording.Database.{EventRow, Db, Outcome, Outcome-cases, find_recording}
use infra_replay.Recording.Service.{
  snapshot_key, start_recording, append_events, finish_recording, row_to_recording,
}
use infra_replay.Recording.Portable.{rekey}
use infra_replay.Recording.Portable.Bundle.{Parsed, parse_bundle}
use infra_replay.Recording.Transfer.{
  get_status, start_of, store_recording, import_parsed, import_recording,
}
use infra_replay.Recording.Transfer.Ended.{find_recording-id}
use infra_replay.Capture.{Captures}
use infra_replay.Api.{Outer, import_bundle, validate_bundle}
use infra_replay.Api.Answers.{bad_request, Detail, Answer, Reply, Validation, with_outcome}

-- A call that returns has a completed recording of that id.
abbrev Stores : String → Outcome Recording → Type 0
Stores id (Outcome.done rec after) =
    (rec.recording_id ≡ id) × (rec.status ≡ RecordingStatus.completed)
Stores id (Outcome.raised e after) = Unit

-- An import that returns, of a recording with this id.
abbrev Imports : String → Db → Outcome Recording → Type 0
Imports id db (Outcome.done rec after) =
    ((rec.recording_id ≡ id) ⊎ (get_status id db ≢ none)) × (rec.status ≡ RecordingStatus.completed)
Imports id db (Outcome.raised e after) = Unit

module _ (by_sequence : List EventRow → List EventRow) (put_blob : String → Option String) where
  finish_recording-Stores :
      (id : String) (db : Db) → Stores id (finish_recording by_sequence put_blob id db)
  unfolding finish_recording row_to_recording
  finish_recording-Stores id db = elim (Option-cases (find_recording db.recordings id)) [
    | inl absent ↦ rw (absent, finish_recording) tt
    | inr (row, p) ↦ elim (Option-cases (put_blob (snapshot_key id))) [
      | inl broken ↦ rw (p, broken, finish_recording) tt
      | inr (locator, q) ↦
          rw (p, q, finish_recording) (find_recording-id db.recordings id row p, refl)
    ]
  ]

  store_recording-Stores :
      (hex : ℕ → String) (rec : Recording) (other : String) (now : ℕ) (db : Db)
      → Stores rec.recording_id (store_recording by_sequence put_blob hex rec other now db)
  unfolding store_recording
  store_recording-Stores hex rec other now db =
      elim (Outcome-cases (start_recording (start_of rec) other now db)) [
        | inl (e, after, p) ↦ rw (p, store_recording) tt
        | inr (id, after, p) ↦ elim (Outcome-cases (append_events rec.events [] after)) [
          | inl (e, end, q) ↦ rw (p, q, store_recording) tt
          | inr (u, end, q) ↦
              rw (p, q, store_recording) (finish_recording-Stores rec.recording_id end)
        ]
      ]

  Stores-Imports :
      (id stored : String) (db : Db) (o : Outcome Recording)
      → ((stored ≡ id) ⊎ (get_status id db ≢ none))
      → Stores stored o
      → Imports id db o
  Stores-Imports id stored db (Outcome.done rec after) (inl same) h = (inl (h.0 ∙ same), h.1)
  Stores-Imports id stored db (Outcome.done rec after) (inr taken) h = (inr taken, h.1)
  Stores-Imports id stored db (Outcome.raised e after) free h = tt

  import_parsed-Imports :
      (hex : ℕ → String) (rec : Recording) (other : String) (now : ℕ) (db : Db)
      → Imports rec.recording_id db (import_parsed by_sequence put_blob hex rec other now db)
  unfolding import_parsed
  import_parsed-Imports hex rec other now db =
      elim (Option-cases (get_status rec.recording_id db)) [
        | inl free ↦
            rw (free, import_parsed)
              (Stores-Imports rec.recording_id rec.recording_id db _ (inl refl)
                (store_recording-Stores hex rec other now db))
        | inr (status, taken) ↦
            rw (taken, import_parsed)
              (Stores-Imports rec.recording_id (rekey hex rec).recording_id db _
                (inr (λ free. none-ne-some _ (sym free ∙ taken)))
                (store_recording-Stores hex (rekey hex rec) other now db))
      ]

-- What the import of a bundle may do, by the answer to its validation.
abbrev pub IsPromised : Captures → Answer Validation → Reply Recording → Type 0
IsPromised s (Answer.answered Validation.invalid) r =
    r ≡ (Answer.http_exception bad_request Detail.of_bundle, s)
IsPromised s (Answer.answered (Validation.valid id n version)) (Answer.answered rec, to) =
    ((rec.recording_id ≡ id) ⊎ (get_status id s.db ≢ none))
    × (rec.status ≡ RecordingStatus.completed)
IsPromised s (Answer.answered (Validation.valid id n version)) (Answer.http_exception k d, to) = ⊥
IsPromised s (Answer.answered (Validation.valid id n version)) (Answer.unhandled, to) = Unit
IsPromised s (Answer.http_exception k d) r = ⊥
IsPromised s Answer.unhandled r = r ≡ (Answer.unhandled, s)

with_outcome-IsPromised :
    (id : String) (n version : ℕ) (s : Captures) (o : Outcome Recording)
    → Imports id s.db o
    → IsPromised s (Answer.answered (Validation.valid id n version)) (with_outcome s o)
with_outcome-IsPromised id n version s (Outcome.done rec after) h = h
with_outcome-IsPromised id n version s (Outcome.raised e after) h = tt

module _ (outer : Outer) where
  -- A bundle that validate_bundle calls invalid is refused by import_bundle with the status 400, and one
  -- on which it raises makes the import raise; either leaves everything as it was. The import of one
  -- that it calls valid is never refused so: where it returns, the recording is completed, and it
  -- has the id that was told, or that id was taken.
  pub validate_bundle-IsPromised :
      (bundle : Fields) (other : String) (now : ℕ) (s : Captures)
      → IsPromised s (validate_bundle outer bundle) (import_bundle outer bundle other now s)
  unfolding validate_bundle import_bundle import_recording
  validate_bundle-IsPromised bundle other now s =
      go
        (parse_bundle outer.migrations outer.fuel outer.validate_event outer.validate_recording
          bundle)
        refl
    where
      go :
          (p : Parsed Recording)
          → parse_bundle outer.migrations outer.fuel outer.validate_event outer.validate_recording
              bundle
            ≡ p
          → IsPromised s (validate_bundle outer bundle) (import_bundle outer bundle other now s)
      go (Parsed.parsed rec) p =
          rw (p, validate_bundle, import_bundle, import_recording)
            (with_outcome-IsPromised rec.recording_id (length rec.events) rec.schema_version s
              (import_parsed outer.by_sequence outer.put_blob outer.hex rec other now s.db)
              (import_parsed-Imports outer.by_sequence outer.put_blob outer.hex rec other now s.db))
      go Parsed.bundle_error p = rw (p, validate_bundle, import_bundle, import_recording) refl
      go Parsed.other_error p = rw (p, validate_bundle, import_bundle, import_recording) refl
      go Parsed.unfinished p = rw (p, validate_bundle, import_bundle, import_recording) refl
