-- ===== src/Recording/Correlate/Requests.antt =====
-- The request groups of `correlate`: what `_groups` keeps.
use mathlib.Core.List.{Mem, mem-append_left, mem-append_right, mem-cons_self, mem-cons_of_mem}
use mathlib.Core.List.Perm
use infra_replay.Common.{
  String, ◌≡◌, List, [], ◌∷◌, ◌++◌, map, Perm, concat, All, All-imp, string_eq,
}
use infra_replay.Common.Dict.{Dict, values, group_by}
use infra_replay.Common.Sort.{sorted, sorted-perm, All-sorted}
use infra_replay.Common.Perms.{concat-perm, concat-map-perm}
use infra_replay.Common.Groups.{IsGrouping, group_by-perm, group_by-IsGrouping}
use infra_replay.Schema.Event.{Event}
use infra_replay.Recording.Correlate.{event_le, group_le, groups}

pub groups-perm : (events : List Event) → Perm (concat (groups events)) events
unfolding groups
groups-perm events =
    let found = values (group_by (λ (e : Event). e.correlation_id) events) in
    Perm.trans (concat-perm (sorted-perm group_le (map (sorted event_le) found))) (
      Perm.trans (concat-map-perm (sorted event_le) found (sorted-perm event_le))
        (group_by-perm (λ e. e.correlation_id) events))

-- All the events of a group belong to one request.
abbrev pub OneRequest : List Event → Type 0
OneRequest group = (c : String) × All (λ e. e.correlation_id ≡ c) group

OneRequest-values :
    (d : Dict String (List Event))
    → IsGrouping (λ e. e.correlation_id) d
    → All OneRequest (map (sorted event_le) (values d))
OneRequest-values [] h = tt
OneRequest-values ((c, xs) ∷ d) h =
    ((c, All-sorted event_le (λ e. e.correlation_id ≡ c) xs h.0), OneRequest-values d h.3)

pub groups-OneRequest : (events : List Event) → All OneRequest (groups events)
unfolding groups
groups-OneRequest events =
    All-sorted group_le OneRequest _
      (OneRequest-values _ (group_by-IsGrouping (λ e. e.correlation_id) events))

pub All-mem {ℓ} : {A : Type ℓ} (xs : List A) → All (λ x. Mem x xs) xs
All-mem [] = tt
All-mem (x ∷ xs) = (
  mem-cons_self,
  All-imp (λ y. Mem y xs) (λ y. Mem y (x ∷ xs)) xs (λ y m. mem-cons_of_mem x m) (All-mem xs),
)

-- The events of each list are events of the whole.
pub All-mem-concat {ℓ} :
    {A : Type ℓ} (xss : List (List A)) → All (λ xs. All (λ x. Mem x (concat xss)) xs) xss
All-mem-concat [] = tt
All-mem-concat (xs ∷ xss) = (
  All-imp (λ x. Mem x xs) (λ x. Mem x (xs ++ concat xss)) xs (λ x m. mem-append_left (concat xss) m)
      (All-mem xs),
  All-imp (λ ys. All (λ x. Mem x (concat xss)) ys) (λ ys. All (λ x. Mem x (xs ++ concat xss)) ys)
      xss
      (λ ys.
        All-imp (λ x. Mem x (concat xss)) (λ x. Mem x (xs ++ concat xss)) ys
          (λ x m. mem-append_right xs m))
      (All-mem-concat xss),
)
