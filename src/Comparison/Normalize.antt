-- ===== src/Comparison/Normalize.antt =====
-- infrareplay/comparison/normalize.py: rewrite what changes on every run to its shape.
pub mod Stable
use infra_replay.Common.{
  ℕ, zero, suc, String, Bool, true, false, not, ◌&&◌, ◌||◌, List, [], ◌∷◌, map, contains, ◌==◌, leb,
  list_eq, nat_eq, string_eq, if◌then◌else◌,
}
use infra_replay.Common.Text.{codes, lower}
use infra_replay.Schema.Value.{
  Value, null, bool, int, str, arr, obj, Items, nil, cons, Fields, end, field,
}

abbrev pub uuid : String
uuid = "<uuid>"

abbrev pub timestamp : String
timestamp = "<timestamp>"

abbrev pub id : String
id = "<id>"

-- `[0-9a-f]` with `re.I`
abbrev pub is_hex : ℕ → Bool
is_hex c = (leb b'0' c && leb c b'9') || (leb b'a' c && leb c b'f') || (leb b'A' c && leb c b'F')

-- `[a-z]` with `re.I`: the letters of ASCII, and the four characters that Python folds to them.
abbrev pub is_letter : ℕ → Bool
is_letter c =
    (leb b'a' c && leb c b'z')
    || (leb b'A' c && leb c b'Z')
    || (c == 0x130)
    || (c == 0x131)
    || (c == 0x17f)
    || (c == 0x212a)

-- The end of the text, `$`: nothing is left, or one newline.
abbrev pub at_end : List ℕ → Bool
at_end [] = true
at_end (c ∷ []) = c == 10
at_end (c ∷ d ∷ s) = false

-- The next `n` characters pass the test, and the rest passes the continuation.
unfoldable pub repeated : ℕ → (ℕ → Bool) → (List ℕ → Bool) → List ℕ → Bool
repeated zero test k s = k s
repeated (suc n) test k [] = false
repeated (suc n) test k (c ∷ s) = test c && repeated n test k s

abbrev pub literal : ℕ → (List ℕ → Bool) → List ℕ → Bool
literal d k [] = false
literal d k (c ∷ s) = (c == d) && k s

-- `_UUID_RE.match(value)`
unfoldable pub matches_uuid : List ℕ → Bool
unfolding repeated
matches_uuid = repeated 8 is_hex (
    literal b'-' (
      repeated 4 is_hex (
        literal b'-' (
          repeated 4 is_hex
            (literal b'-' (repeated 4 is_hex (literal b'-' (repeated 12 is_hex at_end))))))))

-- `(…)+` and `(…)*` before the rest: some number of characters pass the test.
unfoldable pub many : (ℕ → Bool) → (List ℕ → Bool) → List ℕ → Bool
many test k [] = k []
many test k (c ∷ s) = k (c ∷ s) || (test c && many test k s)

-- At most `n` characters pass the test.
unfoldable pub up_to : ℕ → (ℕ → Bool) → (List ℕ → Bool) → List ℕ → Bool
up_to zero test k s = k s
up_to (suc n) test k [] = k []
up_to (suc n) test k (c ∷ s) = k (c ∷ s) || (test c && up_to n test k s)

-- `_PREFIXED_ID_RE.match(value)`
unfoldable pub matches_prefixed_id : List ℕ → Bool
unfolding repeated many up_to
matches_prefixed_id =
    repeated 2 is_letter (up_to 4 is_letter (literal b'_' (repeated 8 is_hex (many is_hex at_end))))

abbrev pub volatile_headers : List String
volatile_headers =
    "date" ∷ "server" ∷ "etag" ∷ "content-length" ∷ "set-cookie" ∷ "x-request-id"
    ∷ "x-infrareplay-correlation-id" ∷ "x-infrareplay-recording-id" ∷ []

-- `ignore_fields` is `config.IGNORE_FIELDS`, which the environment sets. `other_digit` says which
-- characters beyond ASCII are decimal digits, and so match `\d`.
module _ (ignore_fields : List String) (other_digit : ℕ → Bool) where
  abbrev pub is_digit : ℕ → Bool
  is_digit c = if leb 128 c then other_digit c else (leb b'0' c && leb c b'9')

  -- `(Z|[+-]\d{2}:?\d{2})?$`
  unfoldable pub zone : List ℕ → Bool
  unfolding repeated
  zone s = literal b'Z' at_end s || literal b'+' offset s || literal b'-' offset s || at_end s
    where
      minutes : List ℕ → Bool
      minutes = repeated 2 is_digit at_end

      offset : List ℕ → Bool
      offset = repeated 2 is_digit (λ t. literal b':' minutes t || minutes t)

  -- `(\.\d+)?` and what follows
  unfoldable pub fraction : List ℕ → Bool
  unfolding zone repeated many
  fraction s = literal b'.' (repeated 1 is_digit (many is_digit zone)) s || zone s

  -- `_TIMESTAMP_RE.match(value)`
  unfoldable pub matches_timestamp : List ℕ → Bool
  unfolding fraction repeated
  matches_timestamp =
      repeated 4 is_digit
        (literal b'-' (repeated 2 is_digit (literal b'-' (repeated 2 is_digit separator))))
    where
      clock : List ℕ → Bool
      clock =
          repeated 2 is_digit
            (literal b':' (repeated 2 is_digit (literal b':' (repeated 2 is_digit fraction))))

      separator : List ℕ → Bool
      separator s = literal b'T' clock s || literal b' ' clock s

  unfoldable pub placeholder : String → String
  unfolding matches_uuid matches_timestamp matches_prefixed_id
  placeholder value =
      if matches_uuid (codes value)
      then uuid
      else if matches_timestamp (codes value)
      then timestamp
      else if matches_prefixed_id (codes value)
      then id
      else value

  -- The keys that a normalised dict keeps.
  unfoldable pub is_stable : String → Bool
  unfolding lower
  is_stable k =
      not (contains (map codes volatile_headers) (lower (codes k)))
      && not (contains ignore_fields k)

  unfoldable mutual
    unfolding placeholder is_stable

    pub normalize : Value → Value
    normalize (obj fs) = obj (normalize_fields fs)
    normalize (arr xs) = arr (normalize_items xs)
    normalize (str s) = str (placeholder s)
    normalize null = null
    normalize (bool b) = bool b
    normalize (int n) = int n

    pub normalize_items : Items → Items
    normalize_items nil = nil
    normalize_items (cons v xs) = cons (normalize v) (normalize_items xs)

    pub normalize_fields : Fields → Fields
    normalize_fields end = end
    normalize_fields (field k v fs) =
        if is_stable k then field k (normalize v) (normalize_fields fs) else normalize_fields fs
