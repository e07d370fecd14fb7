-- ===== src/Replay/Substitution.antt =====
-- The values that a replay swaps before it sends a request: infrareplay/replay/substitution.py.
-- `uuid4`, `now_iso` and `now_ns` answer the n-th call of the outside world; the memory counts the
-- calls. `other_word` tells which characters beyond ASCII `\w` matches.
pub mod Consistent
pub mod Distinct
use Prim.Native.Char.{Char, code}
use infra_replay.Common.{
  ℕ, zero, suc, ◌-◌, String, Bool, true, false, not, ◌&&◌, ◌||◌, Option, none, some, List, [], ◌∷◌,
  leb, ◌==◌, nat_eq, string_eq, if◌then◌else◌,
}
use infra_replay.Common.Text.{codes, joined}
use infra_replay.Common.Dict.{Dict, get, set}
use infra_replay.Schema.Value.{
  Value, null, bool, int, str, arr, obj, Items, nil, cons, Fields, end, field,
}
use infra_replay.Comparison.Normalize.{matches_uuid}

pub data AutoMode : Type 0 where
  off fresh_ids : AutoMode

abbrev pub is_off : AutoMode → Bool
is_off off = true
is_off fresh_ids = false

-- `_generated`, and how many values have been asked for.
pub record Memory : Type 0 where
  pub generated : Dict String String
  pub calls : ℕ

pub record Substitution : Type 0 where
  pub mapping : Dict String String
  pub auto : AutoMode

module _ (other_word : ℕ → Bool) where
  -- `\w`
  abbrev is_word : ℕ → Bool
  is_word c =
      if leb 128 c
      then other_word c
      else (leb b'0' c && leb c b'9')
        || (leb b'a' c && leb c b'z')
        || (leb b'A' c && leb c b'Z')
        || (c == b'_')

  -- `(\w+)\}` at the start of a text: the name, and the number of characters that the match takes.
  -- `started` tells that a character of the name has been read.
  unfoldable pub name_at : Bool → String → Option (String × ℕ)
  name_at started String.[] = none
  name_at started (String.◌∷◌ c s) =
      let rest = name_at true s in
      if is_word (code c)
      then elim rest [ none ↦ none | some x ↦ some (String.◌∷◌ c x.0, suc x.1) ]
      else if started && (code c == b'}')
      then some (String.[], 1)
      else none

  -- `\$\{(\w+)\}` at the start of a text.
  unfoldable pub template_at : String → Option (String × ℕ)
  unfolding name_at
  template_at (String.◌∷◌ c (String.◌∷◌ d s)) =
      if (code c == b'$') && (code d == b'{')
      then elim (name_at false s) [ none ↦ none | some x ↦ some (x.0, suc (suc x.1)) ]
      else none
  template_at _ = none

module _ (other_word : ℕ → Bool) (uuid4 now_iso now_ns : ℕ → String) where
  -- `_template_value`, with the number of calls made before it and after it.
  unfoldable pub template_value : String → ℕ → String × ℕ
  template_value name calls =
      if name == "uuid"
      then (uuid4 calls, suc calls)
      else if name == "now_iso"
      then (now_iso calls, suc calls)
      else if name == "now_ns"
      then (now_ns calls, suc calls)
      else (joined "${" (joined name "}"), calls)

  -- `_TEMPLATE_RE.sub`: the first `skip` characters belong to a template that has been replaced.
  unfoldable pub expand_from : ℕ → String → ℕ → String × ℕ
  unfolding template_at template_value
  expand_from skip String.[] calls = (String.[], calls)
  expand_from (suc skip) (String.◌∷◌ c s) calls = expand_from skip s calls
  expand_from zero (String.◌∷◌ c s) calls = elim (template_at other_word (String.◌∷◌ c s)) [
    | none ↦ let (rest, calls_after) = expand_from zero s calls in (String.◌∷◌ c rest, calls_after)
    | some (name, size) ↦
        let (value, calls_now) = template_value name calls in
        let (rest, calls_after) = expand_from (size - 1) s calls_now in
        (joined value rest, calls_after)
  ]

  -- `_expand`
  unfoldable pub expand : String → ℕ → String × ℕ
  unfolding expand_from
  expand = expand_from 0

  unfoldable pub expand_values : Dict String String → ℕ → Dict String String × ℕ
  unfolding expand
  expand_values [] calls = ([], calls)
  expand_values ((k, v) ∷ d) calls =
      let (value, calls_now) = expand v calls in
      let (rest, calls_after) = expand_values d calls_now in ((k, value) ∷ rest, calls_after)

  -- `__init__`. No value has been generated.
  unfoldable pub new_substitution :
      Option (Dict String String) → AutoMode → ℕ → Substitution × Memory
  unfolding expand_values
  new_substitution mapping auto calls =
      let (expanded, calls_after) = expand_values (or_empty mapping) calls in
      (record { mapping = expanded; auto = auto }, record { generated = []; calls = calls_after })
    where
      or_empty : Option (Dict String String) → Dict String String
      or_empty none = []
      or_empty (some d) = d

abbrev pub is_nil {ℓ} : {A : Type ℓ} → List A → Bool
is_nil [] = true
is_nil (x ∷ xs) = false

module _ (e : Substitution) where
  -- The strings that only an explicit mapping replaces.
  unfoldable pub is_plain : String → Bool
  unfolding matches_uuid
  is_plain value = is_off e.auto || not (matches_uuid (codes value))

  abbrev pub is_idle : Bool
  is_idle = is_nil e.mapping && is_off e.auto

module _ (uuid4 : ℕ → String) where
  -- `self._generated.setdefault(value, str(uuid4()))`: a value is drawn even when it is not used.
  unfoldable pub remember : String → Memory → String × Memory
  unfolding get set
  remember value m = elim (get m.generated value) [
    | some old ↦ (old, record m { calls = suc m.calls })
    | none ↦ (
      uuid4 m.calls,
      record m { generated = set m.generated value (uuid4 m.calls); calls = suc m.calls },
    )
  ]

  module _ (e : Substitution) where
    -- `_swap`
    unfoldable pub swap : String → Memory → String × Memory
    unfolding get is_plain remember
    swap value m = elim (get e.mapping value) [
      | some new ↦ (new, m)
      | none ↦ if is_plain e value then (value, m) else remember value m
    ]

    -- `_walk`
    unfoldable mutual
      unfolding swap

      pub walk : Value → Memory → Value × Memory
      walk (obj fs) m = let (new, after) = walk_fields fs m in (obj new, after)
      walk (arr xs) m = let (new, after) = walk_items xs m in (arr new, after)
      walk (str s) m = let (new, after) = swap s m in (str new, after)
      walk null m = (null, m)
      walk (bool b) m = (bool b, m)
      walk (int n) m = (int n, m)

      pub walk_items : Items → Memory → Items × Memory
      walk_items nil m = (nil, m)
      walk_items (cons v xs) m =
          let (new, now) = walk v m in
          let (rest, after) = walk_items xs now in (cons new rest, after)

      pub walk_fields : Fields → Memory → Fields × Memory
      walk_fields end m = (end, m)
      walk_fields (field k v fs) m =
          let (new, now) = walk v m in
          let (rest, after) = walk_fields fs now in (field k new rest, after)

    -- `apply`
    unfoldable pub apply : Fields → Memory → Fields × Memory
    unfolding walk_fields
    apply payload m = if is_idle e then (payload, m) else walk_fields payload m

    -- `[subs.apply(r.payload) for r in requests]`, over the payloads.
    unfoldable pub apply_all : List Fields → Memory → List Fields × Memory
    unfolding apply
    apply_all [] m = ([], m)
    apply_all (payload ∷ payloads) m =
        let (new, now) = apply payload m in
        let (rest, after) = apply_all payloads now in (new ∷ rest, after)
