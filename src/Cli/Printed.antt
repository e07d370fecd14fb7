-- ===== src/Cli/Printed.antt =====
-- What the commands of infrareplay/cli/main.py print: a row's line is an f-string, as the list of its
-- pieces.
use infra_replay.Common.{
  ◌≤◌, ◌≡◌, refl, arith, Bool-cases, inl, inr, ℕ, zero, suc, ◌-◌, ◌/◌, ◌%◌, String, Bool, true,
  false, Option, none, some, List, [], ◌∷◌, ◌++◌, ltb, if◌then◌else◌,
}
use infra_replay.Common.Text.{joined}
use infra_replay.Schema.Value.{
  ℤ, Value, null, bool, int, str, arr, obj, Items, nil, cons, Fields, end, field, find,
}

-- `str(n)`.
abbrev digit_in : List String → ℕ → String
digit_in [] n = ""
digit_in (d ∷ ds) zero = d
digit_in (d ∷ ds) (suc n) = digit_in ds n

abbrev digit : ℕ → String
digit = digit_in ("0" ∷ "1" ∷ "2" ∷ "3" ∷ "4" ∷ "5" ∷ "6" ∷ "7" ∷ "8" ∷ "9" ∷ [])

-- On fuel, of which as much as the number is enough.
unfoldable decimal_from : ℕ → ℕ → String → String
decimal_from zero n text = joined (digit n) text
decimal_from (suc fuel) n text =
    let longer = decimal_from fuel (n / 10) (joined (digit (n % 10)) text) in
    if ltb n 10 then joined (digit n) text else longer

-- More fuel than the number changes nothing.
decimal_from-suc :
    (fuel n : ℕ) (s : String) → n ≤ fuel → decimal_from (suc fuel) n s ≡ decimal_from fuel n s
unfolding decimal_from
decimal_from-suc zero n s enough = elim (Bool-cases (ltb n 10)) [
  | inl small ↦ rw small refl
  | inr large ↦ absurd (ground (arith, large, enough))
]
decimal_from-suc (suc fuel) n s enough = elim (Bool-cases (ltb n 10)) [
  | inl small ↦ rw small refl
  | inr large ↦
      rw large
        (decimal_from-suc fuel (n / 10) (joined (digit (n % 10)) s) (ground (arith, large, enough)))
]

unfoldable pub decimal : ℕ → String
unfolding decimal_from
decimal n = decimal_from n n ""

abbrev pub integer : ℤ → String
integer (ℤ.pos n) = decimal n
integer (ℤ.negsuc n) = joined "-" (decimal (suc n))

abbrev pub length_of : String → ℕ
length_of String.[] = 0
length_of (String.◌∷◌ c s) = suc (length_of s)

abbrev pub spaces : ℕ → String
spaces zero = ""
spaces (suc n) = joined " " (spaces n)

-- `f"{text:<width}"` and `f"{text:>width}"`.
abbrev pub left : ℕ → String → String
left width text = joined text (spaces (width - length_of text))

abbrev pub right : ℕ → String → String
right width text = joined (spaces (width - length_of text)) text

-- `rec[key]`; none where it raises.
abbrev pub item : String → Value → Option Value
item key (obj fs) = find fs key
item key v = none

abbrev items_count : Items → ℕ
items_count nil = 0
items_count (cons v items) = suc (items_count items)

abbrev fields_count : Fields → ℕ
fields_count end = 0
fields_count (field k v fs) = suc (fields_count fs)

-- `len(v)`; none where it raises.
abbrev pub size_of : Value → Option ℕ
size_of (str s) = some (length_of s)
size_of (arr items) = some (items_count items)
size_of (obj fs) = some (fields_count fs)
size_of v = none

-- `f"{v:<width}"`: a value that is neither text nor a number has no such format.
abbrev spec_text : Value → Option String
spec_text (str s) = some s
spec_text (int n) = some (integer n)
spec_text (bool true) = some "1"
spec_text (bool false) = some "0"
spec_text v = none

-- `bool(v)`
abbrev pub is_true : Value → Bool
is_true null = false
is_true (bool b) = b
is_true (int (ℤ.pos zero)) = false
is_true (int n) = true
is_true (str String.[]) = false
is_true (str s) = true
is_true (arr nil) = false
is_true (arr items) = true
is_true (obj end) = false
is_true (obj fs) = true

-- `{rec[key]}`, `{rec[key]:<n}`, `{rec[key]:>n}`, `{len(rec[key])}` and `{rec[key] or ''}`.
pub data Piece : Type 0 where
  plain : String → Piece
  shown : String → Piece
  to_left : ℕ → String → Piece
  to_right : ℕ → String → Piece
  counted : String → Piece
  or_empty : String → Piece

abbrev option_map : {A B : Type 0} → (A → B) → Option A → Option B
option_map f none = none
option_map f (some a) = some (f a)

abbrev option_bind : {A B : Type 0} → Option A → (A → Option B) → Option B
option_bind none f = none
option_bind (some a) f = f a

-- `repr` is that of a list or a dict.
module _ (repr : Value → String) where
  -- `f"{v}"`
  abbrev pub value_text : Value → String
  value_text (str s) = s
  value_text (int n) = integer n
  value_text (bool true) = "True"
  value_text (bool false) = "False"
  value_text null = "None"
  value_text v = repr v

  abbrev pub piece_text : Piece → Value → Option String
  piece_text (Piece.plain s) rec = some s
  piece_text (Piece.shown key) rec = option_map value_text (item key rec)
  piece_text (Piece.to_left n key) rec = option_map (left n) (option_bind (item key rec) spec_text)
  piece_text (Piece.to_right n key) rec =
      option_map (right n) (option_bind (item key rec) spec_text)
  piece_text (Piece.counted key) rec = option_map decimal (option_bind (item key rec) size_of)
  piece_text (Piece.or_empty key) rec =
      option_map (λ v. if is_true v then value_text v else "") (item key rec)

  -- The f-string; none where one of its pieces raises.
  unfoldable pub line : List Piece → Value → Option String
  line [] rec = some ""
  line (piece ∷ pieces) rec =
      option_bind (piece_text piece rec) (λ s. option_map (joined s) (line pieces rec))

-- What a command has printed, on both streams, and written to files, and its exit code: none where it
-- ends with an exception.
pub record Output : Type 0 where
  pub out : List String
  pub err : List String
  pub files : List (String × String)
  pub code : Option ℕ

abbrev pub printed : List String → Output
printed out = record { out = out; err = []; files = []; code = some 0 }

abbrev pub crashed : List String → Output
crashed out = record { out = out; err = []; files = []; code = none }

abbrev pub refused : String → Output
refused text = record { out = []; err = text ∷ []; files = []; code = some 1 }

-- A line, or the exception that it raises.
abbrev pub print_line : Option String → Output
print_line none = crashed []
print_line (some s) = printed (s ∷ [])

-- `for rec in rows: typer.echo(...)`, up to the first that raises.
unfoldable pub print_each : (Value → Option String) → List String → Items → Output
print_each line_of out nil = printed out
print_each line_of out (cons rec rows) = elim (line_of rec) [
  | none ↦ crashed out
  | some s ↦ print_each line_of (out ++ s ∷ []) rows
]

abbrev keys_of : Fields → Items
keys_of end = nil
keys_of (field k v fs) = cons (str k) (keys_of fs)

-- `for rec in resp.json()`: a dict yields its keys, and a text its characters, on which a line raises.
abbrev pub print_rows : (Value → Option String) → Value → Output
print_rows line_of (arr rows) = print_each line_of [] rows
print_rows line_of (obj fs) = print_each line_of [] (keys_of fs)
print_rows line_of (str String.[]) = printed []
print_rows line_of v = crashed []
