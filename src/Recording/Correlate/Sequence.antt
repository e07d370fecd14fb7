-- ===== src/Recording/Correlate/Sequence.antt =====
-- The sequence numbers that `correlate` gives.
use infra_replay.Common.{
  ℕ, suc, ◌≡◌, refl, ap, ◌∙◌, Option, none, List, [], ◌∷◌, map, arith, concat, length,
  length-append, range_from,
}
use infra_replay.Common.Perms.{length-perm}
use infra_replay.Schema.Event.{Event}
use infra_replay.Recording.Correlate.{number_from, next_query, link_from, link, groups, correlate}
use infra_replay.Recording.Correlate.Requests.{groups-perm}

sequence-number_from :
    (n : ℕ) (events : List Event)
    → map (λ e. e.sequence) (number_from n events) ≡ range_from n (length events)
unfolding number_from
sequence-number_from n [] = refl
sequence-number_from n (e ∷ events) = ap (◌∷◌ n) (sequence-number_from (suc n) events)

length-link_from :
    (root last_query : Option Event) (events : List Event)
    → length (link_from root last_query events) ≡ length events
unfolding link_from
length-link_from root last_query [] = refl
length-link_from root last_query (e ∷ events) =
    ap suc (length-link_from root (next_query last_query e) events)

length-concat-link : (gs : List (List Event)) → length (concat (map link gs)) ≡ length (concat gs)
unfolding link
length-concat-link [] = refl
length-concat-link (g ∷ gs) = omega (
  arith,
  length-append (link g) (concat (map link gs)),
  length-append g (concat gs),
  length-link_from _ none g,
  length-concat-link gs,
)

-- The events that `correlate` returns are numbered 0, 1, 2, … in their order, with no gap, and are
-- as many as the events it is given.
pub sequence-correlate :
    (events : List Event) → map (λ e. e.sequence) (correlate events) ≡ range_from 0 (length events)
unfolding correlate
sequence-correlate events =
    sequence-number_from 0 (concat (map link (groups events)))
    ∙ ap (range_from 0) (length-concat-link (groups events) ∙ length-perm (groups-perm events))
