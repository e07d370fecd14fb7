-- ===== src/Examples/Storing.antt =====
-- The laws of substituting and storing, at a recorded checkout request.
use mathlib.Core.List.{Forall₂}
use infra_replay.Common.{
  All, ℕ, zero, suc, String, ◌≡◌, ◌≢◌, arith, refl, sym, ap, ◌∙◌, Option, none, some, List, [], ◌∷◌,
  map, string_eq,
}
use infra_replay.Common.Dict.{get}
use infra_replay.Schema.Value.{Value, Fields}
use infra_replay.Schema.Event.{Event, RecordingKind, RecordingStatus}
use infra_replay.Recording.Database.{EventRow, Db, db_after}
use infra_replay.Recording.Service.{Start, start_recording, append_events, finish_recording}
use infra_replay.Recording.Service.Stored.{Step, Reach, empty_db, IsScrubbed, Reach-IsScrubbed}
use infra_replay.Replay.Substitution.{
  AutoMode, Memory, Substitution, walk_fields, apply, apply_all, expand, new_substitution,
}
use infra_replay.Replay.Substitution.Consistent.{
  FieldsWalked, apply-walk_fields, apply_all-FieldsWalked,
}
use infra_replay.Replay.Substitution.Distinct.{apply_all-distinct}
use infra_replay.Schema.Event.{Recording}
use infra_replay.Recording.Portable.{rekey}
use infra_replay.Recording.Portable.Rekeyed.{renamed_in, rekey-renamed_in}
use infra_replay.Examples.{request_payload, arrived, letters}

-- An answer of `uuid4` that never repeats itself: as many dashes as the calls before.
abbrev pub dashes : ℕ → String
dashes zero = ""
dashes (suc n) = String.◌∷◌ "-" (dashes n)

abbrev size_of : String → ℕ
size_of String.[] = zero
size_of (String.◌∷◌ c s) = suc (size_of s)

size_of-dashes : (n : ℕ) → size_of (dashes n) ≡ n
size_of-dashes zero = refl
size_of-dashes (suc n) = ap suc (size_of-dashes n)

dashes_injective : (m n : ℕ) → dashes m ≡ dashes n → m ≡ n
dashes_injective m n p = sym (size_of-dashes m) ∙ ap size_of p ∙ size_of-dashes n

abbrev clock : ℕ → String
clock n = "2026-09-21T10:00:00"

abbrev cart : String
cart = "3fa85f64-5717-4562-b3fc-2c963f66afa6"

abbrev order : String
order = "123e4567-e89b-12d3-a456-426614174000"

-- Two requests that name the same cart.
abbrev payloads : List Fields
payloads =
    Fields.field "cart" (Value.str cart) (Fields.field "order" (Value.str order) Fields.end)
    ∷ Fields.field "cart" (Value.str cart) Fields.end
    ∷ []

abbrev fresh : Substitution
fresh = record { mapping = ("a", "b") ∷ []; auto = AutoMode.fresh_ids }

abbrev nothing_yet : Memory
nothing_yet = record { generated = []; calls = 1 }

expand_templates : expand letters dashes clock clock "${uuid}-${nope}$" 1 ≡ ("--${nope}$", 2)
unfolding expand
expand_templates = refl

substituted_payloads :
    (apply_all dashes fresh payloads nothing_yet).0
    ≡ Fields.field "cart" (Value.str "-") (Fields.field "order" (Value.str "--") Fields.end)
      ∷ Fields.field "cart" (Value.str "-") Fields.end
      ∷ []
unfolding apply_all
substituted_payloads = refl

abbrev manual : Substitution
manual = record { mapping = []; auto = AutoMode.off }

apply-walk_fields_example :
    apply dashes manual request_payload nothing_yet
    ≡ walk_fields dashes manual request_payload nothing_yet
apply-walk_fields_example = apply-walk_fields dashes manual request_payload nothing_yet

apply_all-FieldsWalked_example :
    Forall₂
      (FieldsWalked fresh (apply_all dashes fresh payloads nothing_yet).1.generated)
      payloads
      (apply_all dashes fresh payloads nothing_yet).0
apply_all-FieldsWalked_example = apply_all-FieldsWalked dashes fresh payloads nothing_yet

cart_ne_order : cart ≢ order
cart_ne_order p = ground (arith, (string_eq.beq_iff cart order).1 p)

apply_all-distinct_example : ◌≢◌ {A = String} "" "-"
unfolding apply_all new_substitution get
apply_all-distinct_example =
    apply_all-distinct dashes dashes_injective letters clock clock none AutoMode.fresh_ids 0
      payloads cart order "" "-" cart_ne_order refl refl

-- A recording from its start to its end.
abbrev pub in_order : List EventRow → List EventRow
in_order rows = rows

abbrev pub blob_at : String → Option String
blob_at key = some "file://blobs"

abbrev checkout : Start
checkout = record {
  project = "shop";
  title = "checkout";
  kind = RecordingKind.capture;
  capture_plugin = "mock";
  target = none;
  source_recording_id = none;
  recording_id = some "r1";
}

abbrev pub started : Db
started = db_after (start_recording checkout "0123456789abcdef" 7 empty_db)

abbrev collected : Db
collected = db_after (append_events arrived [] started)

abbrev pub finished : Db
finished = db_after (finish_recording in_order blob_at "r1" collected)

abbrev path : Reach in_order blob_at empty_db finished
path =
    Reach.next
      (Reach.next (Reach.next Reach.here (Step.start checkout "0123456789abcdef" 7 empty_db))
        (Step.append arrived [] started))
      (Step.finish "r1" collected)

stored_sequences : map (λ r. r.sequence) finished.events ≡ 3 ∷ 1 ∷ 0 ∷ 2 ∷ []
unfolding start_recording append_events finish_recording
stored_sequences = refl

stored_statuses : map (λ r. r.status) finished.recordings ≡ RecordingStatus.completed ∷ []
unfolding start_recording append_events finish_recording
stored_statuses = refl

-- A second delivery of the same events is refused whole.
append_twice : db_after (append_events arrived [] collected) ≡ collected
unfolding start_recording append_events
append_twice = refl

Reach-IsScrubbed_example : IsScrubbed finished
Reach-IsScrubbed_example = Reach-IsScrubbed in_order blob_at (λ P rows h. h) path

abbrev pub bundled : Recording
bundled = record {
  schema_version = 1;
  recording_id = "r1";
  project = "shop";
  kind = RecordingKind.capture;
  status = RecordingStatus.completed;
  title = "checkout";
  capture_plugin = "mock";
  source_recording_id = none;
  target = none;
  created_at = 7;
  events = arrived;
}

rekey-renamed_in_example :
    ((rekey dashes bundled).events ≡ map (renamed_in dashes bundled) bundled.events)
    × All
        (λ p.
          (e : Event)
          → e.parent_event_id ≡ some p.event_id
          → (renamed_in dashes bundled e).parent_event_id
            ≡ some (renamed_in dashes bundled p).event_id)
        bundled.events
    × ((e : Event)
        → e.parent_event_id ≡ none
        → (renamed_in dashes bundled e).parent_event_id ≡ none)
rekey-renamed_in_example = rekey-renamed_in dashes bundled
