-- ===== src/Plugins/HttpCapture/Bounded.antt =====
-- What a capture keeps of a body, and the headers that the proxy hands to its HTTP client.
use infra_replay.Common.{
  Some, ℕ, ◌<◌, String, ◌≡◌, refl, sym, ◌∙◌, subst, ◌⊎◌, inl, inr, Bool, true, false, some, [], ◌∷◌,
  map, arith, ltb, contains, ◌==◌, nat_eq, string_eq, list_eq, Bool-cases,
}
use mathlib.Core.Option.{none-ne-some, some-injective}
use infra_replay.Common.Text.{codes, lower}
use infra_replay.Schema.Value.{Value, str, Fields, end, find, set_field, find-set_field}
use infra_replay.Replay.HttpTarget.{recording_header, correlation_header, drop_headers}
use infra_replay.Plugins.HttpCapture.{
  Proxy, Request, Headers, Body, decode_body, without_hops, forward,
}

-- Nothing of a body that is larger than the bound is kept but its size, whatever its content and
-- its type.
pub decode_body-large :
    (max_body : ℕ) (a b : Body) (type_a type_b : String)
    → a.size ≡ b.size
    → max_body < a.size
    → decode_body max_body a type_a ≡ decode_body max_body b type_b
unfolding decode_body
decode_body-large max_body a b type_a type_b same large =
    let full : (a.size == 0) ≡ false = ground (arith, large) in
    let over : ltb max_body a.size ≡ true = ground (arith, large) in rw (sym same, full, over) refl

abbrev pub is_hop : String → Bool
is_hop k = contains (map codes drop_headers) (lower (codes k))

-- The entry is one of the headers, and its name, in lower case, is none of drop_headers.
abbrev pub Kept : Headers → String → Value → Type 0
Kept headers k v = (is_hop k ≡ false) × Some (λ h. (h.0 ≡ k) × (str h.1 ≡ v)) headers

without_hops-Kept :
    (headers : Headers) (kept : Fields) (k : String) (v : Value)
    → find (without_hops headers kept) k ≡ some v
    → Kept headers k v ⊎ (find kept k ≡ some v)
unfolding without_hops
without_hops-Kept [] kept k v found = inr found
without_hops-Kept ((j, w) ∷ headers) kept k v found = elim (Bool-cases (is_hop j)) [
  | inl hop ↦ elim (without_hops-Kept headers kept k v (rw hop at found)) [
    | inl (ok, h) ↦ inl (ok, inr h)
    | inr old ↦ inr old
  ]
  | inr end_to_end ↦
      elim (without_hops-Kept headers (set_field kept j (str w)) k v (rw end_to_end at found)) [
        | inl (ok, h) ↦ inl (ok, inr h)
        | inr now ↦
            let shown = sym (find-set_field kept j k (str w)) ∙ now in
            elim (Bool-cases (j == k)) [
              | inl hit ↦
                  let same : j ≡ k = (string_eq.beq_iff j k).0 hit in
                  inl (
                    subst (λ i. is_hop i ≡ false) same end_to_end,
                    inl (same, some-injective _ _ (rw hit at shown)),
                  )
              | inr miss ↦ inr (rw miss at shown)
            ]
      ]
]

-- Each header in the dict that the proxy hands to its HTTP client is the recording's id, or the
-- correlation id, or one of the request's own, with its value, whose name, in lower case, is not
-- host, content-length, connection, transfer-encoding or keep-alive.
pub forward-Kept :
    (proxy : Proxy) (request : Request) (correlation_id : String) (k : String) (v : Value)
    → find (forward proxy request (without_hops request.headers end) correlation_id).headers k
      ≡ some v
    → ((k ≡ recording_header) × (v ≡ str proxy.recording_id))
      ⊎ ((k ≡ correlation_header) × (v ≡ str correlation_id))
      ⊎ Kept request.headers k v
unfolding forward find
forward-Kept proxy request correlation_id k v found =
    let kept = without_hops request.headers end in
    let with_id = set_field kept correlation_header (str correlation_id) in
    let outer = sym (find-set_field with_id recording_header k (str proxy.recording_id)) ∙ found in
    elim (Bool-cases (recording_header == k)) [
      | inl hit ↦ inl (
        sym ((string_eq.beq_iff recording_header k).0 hit),
        sym (some-injective _ _ (rw hit at outer)),
      )
      | inr miss ↦
          let inner =
            sym (find-set_field kept correlation_header k (str correlation_id))
            ∙ (rw miss at outer) in
          elim (Bool-cases (correlation_header == k)) [
            | inl hit ↦ inr (
                inl (
                  sym ((string_eq.beq_iff correlation_header k).0 hit),
                  sym (some-injective _ _ (rw hit at inner)),
                ))
            | inr other ↦ elim (without_hops-Kept request.headers end k v (rw other at inner)) [
              | inl ok ↦ inr (inr ok)
              | inr broken ↦ absurd (none-ne-some _ broken)
            ]
          ]
    ]
