-- ===== src/Recording/Service/RecordingKeys.antt =====
-- The primary key of the recordings, over each write to their table.
use infra_replay.Common.{
  String, ◌≡◌, refl, ap, ◌∙◌, false, none, List, [], ◌∷◌, ◌++◌, arith, ◌==◌, string_eq, Bool-cases,
  inl, inr,
}
use infra_replay.Recording.Database.{RecordingRow, find_recording, update_recording}

abbrev pub HasRecordingKeys : List RecordingRow → Type 0
HasRecordingKeys [] = Unit
HasRecordingKeys (r ∷ rows) = (find_recording rows r.recording_id ≡ none) × HasRecordingKeys rows

find_recording-snoc :
    (rows : List RecordingRow) (r : RecordingRow) (id : String)
    → find_recording rows id ≡ none
    → (r.recording_id == id) ≡ false
    → find_recording (rows ++ r ∷ []) id ≡ none
unfolding find_recording
find_recording-snoc [] r id h q = rw q
find_recording-snoc (s ∷ rows) r id h q = elim (Bool-cases (s.recording_id == id)) [
  | inl hit ↦ absurd (ground arith)
  | inr miss ↦ rw miss (find_recording-snoc rows r id (ground arith) q)
]

pub snoc-HasRecordingKeys :
    (rows : List RecordingRow) (r : RecordingRow)
    → HasRecordingKeys rows
    → find_recording rows r.recording_id ≡ none
    → HasRecordingKeys (rows ++ r ∷ [])
unfolding find_recording
snoc-HasRecordingKeys [] r h q = (refl, tt)
snoc-HasRecordingKeys (s ∷ rows) r h q = (
  find_recording-snoc rows r s.recording_id h.0 (
      ground (
        arith,
        q,
        string_eq.beq_iff s.recording_id r.recording_id,
        string_eq.beq_iff r.recording_id s.recording_id,
      )),
  snoc-HasRecordingKeys rows r h.1 (ground (arith, q)),
)

module _ (f : RecordingRow → RecordingRow) (id : String)
    (keeps : (r : RecordingRow) → (f r).recording_id ≡ r.recording_id) where
  find_recording-update :
      (rows : List RecordingRow) (j : String)
      → find_recording rows j ≡ none
      → find_recording (update_recording f id rows) j ≡ none
  unfolding find_recording update_recording
  find_recording-update [] j h = refl
  find_recording-update (r ∷ rows) j h = elim (Bool-cases (r.recording_id == j)) [
    | inl found ↦ absurd (ground arith)
    | inr other ↦ elim (Bool-cases (r.recording_id == id)) [
      | inl hit ↦
          let same : ((f r).recording_id == j) ≡ false = ap (λ x. x == j) (keeps r) ∙ other in
          rw (hit, same) (ground arith)
      | inr miss ↦ rw (miss, other) (find_recording-update rows j (ground arith))
    ]
  ]

  pub update_recording-HasRecordingKeys :
      (rows : List RecordingRow)
      → HasRecordingKeys rows
      → HasRecordingKeys (update_recording f id rows)
  unfolding update_recording
  update_recording-HasRecordingKeys [] h = tt
  update_recording-HasRecordingKeys (r ∷ rows) h = elim (Bool-cases (r.recording_id == id)) [
    | inl hit ↦ rw (hit, keeps r) h
    | inr miss ↦
        rw miss (
          find_recording-update rows r.recording_id h.0,
          update_recording-HasRecordingKeys rows h.1,
        )
  ]
