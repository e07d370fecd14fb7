-- ===== src/Examples/Comparing.antt =====
-- The laws of arranging, redacting, linking and comparing at a recorded checkout request and its
-- replay.
use mathlib.Core.List.{Forall₂}
use infra_replay.Common.{
  ◌≡◌, refl, true, some, List, [], ◌∷◌, map, All, ◌↔◌, Perm, string_eq, contains, select,
}
use infra_replay.Common.Dict.{get, values}
use infra_replay.Common.Sort.{sorted}
use infra_replay.Schema.Value.{Value, Fields, has_key, value_beq, get_value}
use infra_replay.Schema.Event.{Event, EventType}
use infra_replay.Schema.Result.{ComparisonCategory}
use infra_replay.Recording.Correlate.{correlate}
use infra_replay.Recording.Correlate.Sequence.{sequence-correlate}
use infra_replay.Recording.Correlate.Links.{Relinked, correlate-Relinked}
use infra_replay.Plugins.Redaction.{redact}
use infra_replay.Plugins.Redaction.Scrubbed.{FieldsScrubbed, redact-scrubs}
use infra_replay.Comparison.Normalize.{normalize}
use infra_replay.Comparison.Normalize.Stable.{normalize_idem}
use infra_replay.Comparison.Comparators.{http_compare, postgres_compare}
use infra_replay.Comparison.Comparators.Verdicts.{http_compare-category, postgres_compare-category}
use infra_replay.Comparison.Comparators.Lawful.{builtin_comparator-IsLawful, compare_same}
use infra_replay.Comparison.Engine.{compare_run}
use infra_replay.Comparison.Engine.Contract.{IsLawful, is_compared}
use infra_replay.Comparison.Engine.Rows.{original_ids, IsRow}
use infra_replay.Comparison.Engine.Replayed.{replayed_ids}
use infra_replay.Comparison.Engine.Accounted.{compare_run-accounts}
use infra_replay.Comparison.Engine.Faithful.{pairs, compare_run-Reproduces}
use infra_replay.Replay.Linking.{link_streams, signatures, sequence_le}
use infra_replay.Replay.Linking.Signatures.{values-signatures}
use infra_replay.Replay.Linking.Reproduced.{Reproduces, link_streams-Reproduces}
use infra_replay.Examples.{
  event, request_payload, response_payload, result_payload, arrived, original, replayed, new_id,
  new_request, new_request_injective, letters, comparators, comparators-IsLawful,
}

sequence-correlate_example : map (λ e. e.sequence) (correlate arrived) ≡ 0 ∷ 1 ∷ 2 ∷ 3 ∷ []
sequence-correlate_example = sequence-correlate arrived

correlate-Relinked_example :
    (arranged : List Event) × Perm arranged arrived
    × Forall₂ (Relinked arrived) arranged (correlate arrived)
correlate-Relinked_example = correlate-Relinked arrived

redact-scrubs_example :
    FieldsScrubbed
      (redact (event "r1" "e1" "c1" 0 10 EventType.http_request request_payload)).payload
    × ((redact (event "r1" "e1" "c1" 0 10 EventType.http_request request_payload)
          ≡ event "r1" "e1" "c1" 0 10 EventType.http_request request_payload)
        ↔ FieldsScrubbed request_payload)
redact-scrubs_example =
    redact-scrubs (event "r1" "e1" "c1" 0 10 EventType.http_request request_payload)

normalize_idem_example :
    normalize [] letters (normalize [] letters (Value.obj response_payload))
    ≡ normalize [] letters (Value.obj response_payload)
normalize_idem_example = normalize_idem [] letters (Value.obj response_payload)

abbrev pub answered : Event
answered = event "r1" "e4" "c1" 3 40 EventType.http_response response_payload

abbrev pub answered_again : Event
answered_again = event "r2" "f4" "c2" 3 540 EventType.http_response response_payload

http_compare-category_example :
    (http_compare [] letters answered answered_again).category ≡ ComparisonCategory.match
unfolding has_key value_beq get_value normalize
http_compare-category_example = http_compare-category [] letters answered answered_again

abbrev pub inserted : Event
inserted = event "r1" "e3" "c1" 2 30 EventType.pg_result result_payload

abbrev pub inserted_again : Event
inserted_again =
    event "r2" "f3" "c2" 2 530 EventType.pg_result
      (Fields.field "error" (Value.str "timeout") Fields.end)

postgres_compare-category_example :
    (postgres_compare [] letters inserted inserted_again).category ≡ ComparisonCategory.error
unfolding has_key
postgres_compare-category_example = postgres_compare-category [] letters inserted inserted_again

builtin_comparator-IsLawful_example : IsLawful comparators
builtin_comparator-IsLawful_example = builtin_comparator-IsLawful [] letters

compare_same_example :
    ((http_compare [] letters answered answered_again).category ≡ ComparisonCategory.match)
    × ((postgres_compare [] letters answered answered_again).category ≡ ComparisonCategory.match)
unfolding has_key
compare_same_example =
    compare_same [] letters answered answered_again refl (refl, tt, (refl, tt, tt)) refl

compare_run-accounts_example :
    (original_ids (compare_run comparators original replayed [])
      ≡ map (λ e. e.event_id) (select (is_compared comparators) original))
    × All IsRow (compare_run comparators original replayed [])
    × All
        (λ e.
          contains (replayed_ids (compare_run comparators original replayed [])) e.event_id ≡ true)
        (select (is_compared comparators) replayed)
compare_run-accounts_example =
    compare_run-accounts comparators original replayed [] comparators-IsLawful

abbrev pub reproduction : Forall₂ (Reproduces new_id new_request) original replayed
reproduction =
    Forall₂.cons (record { event_id = refl; request = refl; type = refl; place = refl })
      (Forall₂.cons (record { event_id = refl; request = refl; type = refl; place = refl })
        (Forall₂.cons (record { event_id = refl; request = refl; type = refl; place = refl })
          Forall₂.nil))

compare_run-Reproduces_example :
    compare_run comparators original replayed (link_streams original replayed)
    ≡ pairs comparators original replayed
compare_run-Reproduces_example =
    compare_run-Reproduces comparators new_id new_request new_request_injective reproduction
      (refl, (refl, (refl, tt))) ((refl, (refl, tt)), ((refl, tt), (tt, tt)))

values-signatures_example :
    values (signatures arrived) ≡ map (λ e. e.event_id) (sorted sequence_le arrived)
values-signatures_example = values-signatures arrived

link_streams-Reproduces_example :
    All (λ e. get (link_streams original replayed) e.event_id ≡ some (new_id e.event_id)) original
link_streams-Reproduces_example =
    link_streams-Reproduces new_id new_request new_request_injective reproduction
