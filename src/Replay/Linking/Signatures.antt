-- ===== src/Replay/Linking/Signatures.antt =====
-- No two events of a stream have the same signature.
use infra_replay.Common.{
  Eq, Bool-cases, inl, inr, ℕ, ◌+◌, ◌≤◌, String, ◌≡◌, refl, sym, ap, ◌∙◌, none, List, [], ◌∷◌, ◌++◌,
  map, map-append, append_assoc, append-nil, arith, length, nat_eq, string_eq, pair_eq, ◌==◌,
}
use infra_replay.Common.Dict.{Dict, get, set, values, get-set, set-append}
use infra_replay.Common.Sort.{sorted}
use infra_replay.Schema.Event.{Event, type_eq}
use infra_replay.Replay.Linking.{
  Slot, Signature, sequence_le, get_or, set_default, sign, signatures,
}

-- A counter for each slot, and entries that are numbered within their slot.
module _ {K V : Type 0} ⦃e : Eq K⦄ where
  -- Every number in use is below the count of its slot.
  abbrev pub IsCounted : Dict K ℕ → Dict (K × ℕ) V → Type 0
  IsCounted seen sigs =
      (slot : K) (n : ℕ) → get_or (get seen slot) 0 ≤ n → get sigs (slot, n) ≡ none

  pub IsCounted-set :
      (seen : Dict K ℕ) (sigs : Dict (K × ℕ) V) (slot : K) (v : V)
      → IsCounted seen sigs
      → IsCounted
          (set seen slot (get_or (get seen slot) 0 + 1))
          (set sigs (slot, get_or (get seen slot) 0) v)
  IsCounted-set seen sigs slot v h s n le =
      let o = get_or (get seen slot) 0 in
      elim (Bool-cases (slot == s)) [
        | inl same ↦
            let q : slot ≡ s = (e.beq_iff slot s).0 same in
            ground (
              arith,
              get-set seen slot s (o + 1),
              get-set sigs (slot, o) (s, n) v,
              h s n,
              ap (λ t. get_or (get seen t) 0) q,
            )
        | inr other ↦
            ground (arith, get-set seen slot s (o + 1), get-set sigs (slot, o) (s, n) v, h s n)
      ]

values-append :
    (d : Dict Signature String) (k : Signature) (v : String)
    → values (d ++ (k, v) ∷ []) ≡ values d ++ v ∷ []
values-append d k v = map-append (λ x. x.1) d ((k, v) ∷ [])

values-sign :
    (group_index : Dict String ℕ) (seen : Dict Slot ℕ) (sigs : Dict Signature String)
    (events : List Event)
    → IsCounted seen sigs
    → values (sign group_index seen sigs events) ≡ values sigs ++ map (λ e. e.event_id) events
unfolding sign
values-sign group_index seen sigs [] h = sym (append-nil (values sigs))
values-sign group_index seen sigs (event ∷ rest) h =
    let group = get_or (get group_index event.correlation_id) (length group_index) in
    let slot : Slot = (group, event.event_type) in
    let occurrence = get_or (get seen slot) 0 in
    values-sign (set_default group_index event.correlation_id (length group_index))
      (set seen slot (occurrence + 1)) (set sigs (slot, occurrence) event.event_id) rest
      (IsCounted-set seen sigs slot event.event_id h)
    ∙ (ap (λ d. values d ++ map (λ e. e.event_id) rest)
          (set-append sigs (slot, occurrence) event.event_id (h slot occurrence (omega arith)))
        ∙ (ap (λ ids. ids ++ map (λ e. e.event_id) rest)
              (values-append sigs (slot, occurrence) event.event_id)
            ∙ append_assoc (values sigs) (event.event_id ∷ []) (map (λ e. e.event_id) rest)))

-- The signature table holds the id of every event of the stream, in the order of their sequence
-- numbers: no two events have the same signature, so none replaces another.
pub values-signatures :
    (events : List Event)
    → values (signatures events) ≡ map (λ e. e.event_id) (sorted sequence_le events)
unfolding signatures
values-signatures events =
    values-sign [] [] [] (sorted sequence_le events) (λ slot n le. unfold get in refl)
