-- ===== src/Cli/Substituted.antt =====
-- The options --sub of a replay, and the dict that they make.
use Prim.Native.Char.{code}
use text.Mathlib.TextEquality.{Char-path}
use infra_replay.Common.{
  ap₂, String, ◌≡◌, refl, ap, sym, false, Option, none, some, List, [], ◌∷◌, map, ◌==◌, nat_eq,
  string_eq, All, Some, Option-cases, Bool-cases, inl, inr,
}
use infra_replay.Common.Text.{joined, has_char}
use infra_replay.Common.Dict.{Dict, set}
use infra_replay.Cli.{split_once, substitutions_of}

-- An option as it is written.
abbrev pub option_text : String × String → String
option_text (key, value) = joined key (joined "=" value)

abbrev pub set_all : Dict String String → List (String × String) → Dict String String
set_all d [] = d
set_all d ((key, value) ∷ pairs) = set_all (set d key value) pairs

abbrev IsSplit : String → Option (String × String) → Type 0
IsSplit p none = has_char b'=' p ≡ false
IsSplit p (some pair) = (has_char b'=' pair.0 ≡ false) × (option_text pair ≡ p)

split_once-IsSplit : (p : String) → IsSplit p (split_once p)
unfolding split_once
split_once-IsSplit String.[] = refl
split_once-IsSplit (String.◌∷◌ c s) = elim (Bool-cases (code c == b'=')) [
  | inl cut ↦
      rw (cut, split_once)
        (
          refl,
          ap (λ d. String.◌∷◌ d s) (sym (Char-path c _ ((nat_eq.beq_iff (code c) b'=').0 cut))),
        )
  | inr kept ↦ elim (Option-cases (split_once s)) [
    | inl without ↦
        rw (kept, without, split_once) (rw (kept, has_char) (rw without at (split_once-IsSplit s)))
    | inr (pair, found) ↦
        let h : IsSplit s (some pair) = rw found at (split_once-IsSplit s) in
        rw (kept, found, split_once) (rw (kept, has_char) h.0, ap (λ t. String.◌∷◌ c t) h.1)
  ]
]

-- What the options make: none where one of them has no "=".
abbrev pub Reads : List String → Dict String String → Option (Dict String String) → Type 0
Reads sub d none = Some (λ p. has_char b'=' p ≡ false) sub
Reads sub d (some result) =
    (pairs : List (String × String)) × (map option_text pairs ≡ sub)
    × All (λ pair. has_char b'=' pair.0 ≡ false) pairs
    × (result ≡ set_all d pairs)

-- The options --sub are refused where one of them has no "=", and make otherwise the dict of the pairs
-- of which they are the texts, old=new with no "=" in the old, each pair set in its turn.
pub substitutions_of-Reads :
    (sub : List String) (d : Dict String String) → Reads sub d (substitutions_of sub d)
unfolding substitutions_of
substitutions_of-Reads [] d = ([], refl, tt, refl)
substitutions_of-Reads (p ∷ sub) d = elim (Option-cases (split_once p)) [
  | inl without ↦
      let h : IsSplit p none = rw without at (split_once-IsSplit p) in
      rw (without, substitutions_of) (inl h)
  | inr (pair, found) ↦
      let h : IsSplit p (some pair) = rw found at (split_once-IsSplit p) in
      let more = substitutions_of-Reads sub (set d pair.0 pair.1) in
      elim (Option-cases (substitutions_of sub (set d pair.0 pair.1))) [
        | inl refused ↦
            let q : Reads sub (set d pair.0 pair.1) none = rw refused at more in
            rw (found, refused, substitutions_of) (inr q)
        | inr (result, made) ↦
            let q : Reads sub (set d pair.0 pair.1) (some result) = rw made at more in
            rw (found, made, substitutions_of) (pair ∷ q.0, ap₂ ◌∷◌ h.1 q.1, (h.0, q.2), q.3)
      ]
]
