-- ===== src/Common/Text.antt =====
-- Texts as their code points, for the code that looks inside them.
use Prim.Native.Char.{Char, code}
use infra_replay.Common.{
  ◌≡◌, Bool-cases, inl, inr, string_eq, ℕ, zero, suc, ◌+◌, String, Bool, true, false, ◌&&◌, ◌||◌,
  List, [], ◌∷◌, ◌++◌, leb, ◌==◌, nat_eq, if◌then◌else◌,
}

abbrev pub codes : String → List ℕ
codes String.[] = []
codes (String.◌∷◌ c s) = code c ∷ codes s

-- The lowercase of one character. Beyond ASCII only two characters have a lowercase that holds an
-- ASCII letter, the Kelvin sign and the dotted I. The others are left as they are: their
-- lowercase is not ASCII either, so no comparison with an ASCII text can tell.
unfoldable pub lower_code : ℕ → List ℕ
lower_code c =
    if leb b'A' c && leb c b'Z'
    then (c + 32) ∷ []
    else if c == 0x212a
    then b'k' ∷ []
    else if c == 0x130
    then b'i' ∷ 0x307 ∷ []
    else c ∷ []

-- `s.lower()`
unfoldable pub lower : List ℕ → List ℕ
unfolding lower_code
lower [] = []
lower (c ∷ s) = lower_code c ++ lower s

-- `s.startswith(t)`
unfoldable pub starts_with : List ℕ → List ℕ → Bool
starts_with s [] = true
starts_with [] (d ∷ t) = false
starts_with (c ∷ s) (d ∷ t) = (c == d) && starts_with s t

-- `t in s`
unfoldable pub has_substring : List ℕ → List ℕ → Bool
unfolding starts_with
has_substring [] t = starts_with [] t
has_substring (c ∷ s) t = starts_with (c ∷ s) t || has_substring s t

-- `s.lstrip(c)` and `s.rstrip(c)`, of one character.
unfoldable pub lstrip : ℕ → String → String
lstrip c String.[] = String.[]
lstrip c (String.◌∷◌ d s) = if code d == c then lstrip c s else String.◌∷◌ d s

unfoldable pub rstrip : ℕ → String → String
rstrip c String.[] = String.[]
rstrip c (String.◌∷◌ d s) =
    let rest = rstrip c s in if (rest == "") && (code d == c) then String.[] else String.◌∷◌ d rest

-- `s <= t`, by code points.
unfoldable pub text_le : List ℕ → List ℕ → Bool
text_le [] t = true
text_le (c ∷ s) [] = false
text_le (c ∷ s) (d ∷ t) = if c == d then text_le s t else leb c d

-- `s.split(c)`: the first part, and the others.
unfoldable pub split : ℕ → String → String × List String
split c String.[] = ("", [])
split c (String.◌∷◌ d s) =
    let (part, parts) = split c s in
    if code d == c then ("", part ∷ parts) else (String.◌∷◌ d part, parts)

-- `c in s`, of one character.
abbrev pub has_char : ℕ → String → Bool
has_char c String.[] = false
has_char c (String.◌∷◌ d s) = (code d == c) || has_char c s

-- `s + t`
abbrev pub joined : String → String → String
joined String.[] t = t
joined (String.◌∷◌ c s) t = String.◌∷◌ c (joined s t)

-- `s[:n]`
abbrev pub first_chars : ℕ → String → String
first_chars zero s = String.[]
first_chars (suc n) String.[] = String.[]
first_chars (suc n) (String.◌∷◌ c s) = String.◌∷◌ c (first_chars n s)

-- A text that begins with a character is not empty.
pub cons_ne_empty : (c : Char) (s : String) → (String.◌∷◌ c s == "") ≡ false
cons_ne_empty c s = elim (Bool-cases (String.◌∷◌ c s == "")) [
  | inl p ↦ let q : String.◌∷◌ c s ≡ "" = (string_eq.beq_iff (String.◌∷◌ c s) "").0 p in cc
  | inr p ↦ p
]
