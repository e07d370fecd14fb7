-- ===== src/Cli.antt =====
-- The command line: infrareplay/cli/main.py. A command is a function of what the API answers to the
-- request that it makes; typer's parsing of the arguments and the transport are outside.
pub mod Printed
pub mod Substituted
pub mod Called
pub mod Commands
pub mod Sessions
use infra_replay.Common.{
  ℕ, String, Bool, true, false, ◌||◌, Option, none, some, List, [], ◌∷◌, ◌==◌, nat_eq, string_eq,
  if◌then◌else◌,
}
use infra_replay.Common.Text.{joined, codes, starts_with, has_char, lstrip}
use infra_replay.Common.Dict.{Dict, set}
use infra_replay.Schema.Value.{
  ℤ, Value, null, bool, int, str, arr, obj, Items, nil, cons, Fields, end, field, find,
}
use infra_replay.Cli.Printed.{
  Piece, Output, decimal, value_text, line, item, is_true, printed, crashed, refused, print_line,
  print_rows,
}
use Prim.Native.Char.{code}

pub data Method : Type 0 where
  get post : Method

pub record Request : Type 0 where
  pub method : Method
  pub path : String
  pub params : Dict String String
  pub body : Option Value

abbrev pub get_of : String → Request
get_of path = record { method = Method.get; path = path; params = []; body = none }

abbrev pub post_of : String → Option Value → Request
post_of path body = record { method = Method.post; path = path; params = []; body = body }

-- An answer: `json` is none where `resp.json()` raises.
pub record Response : Type 0 where
  pub status_code : ℕ
  pub is_error : Bool
  pub has_content : Bool
  pub json : Option Value
  pub text : String
  pub reason_phrase : String

abbrev localhost : String
localhost = "http://127.0.0.1"

-- `_as_url`
unfoldable pub as_url : String → String
unfolding starts_with
as_url value =
    if starts_with (codes value) (codes ":")
    then joined localhost value
    else if starts_with (codes value) (codes "http://")
        || starts_with (codes value) (codes "https://")
    then value
    else joined localhost (joined ":" value)

-- `p.split("=", 1)`; none where there is no "=", so that dict() raises.
unfoldable pub split_once : String → Option (String × String)
split_once String.[] = none
split_once (String.◌∷◌ c s) =
    let rest = split_once s in
    if code c == b'='
    then some ("", s)
    else elim rest [ none ↦ none | some (key, value) ↦ some (String.◌∷◌ c key, value) ]

-- `dict(p.split("=", 1) for p in sub)`
unfoldable pub substitutions_of : List String → Dict String String → Option (Dict String String)
unfolding split_once set
substitutions_of [] d = some d
substitutions_of (p ∷ sub) d = elim (split_once p) [
  | none ↦ none
  | some (key, value) ↦ substitutions_of sub (set d key value)
]

abbrev dict_json : Dict String String → Fields
dict_json [] = end
dict_json ((key, value) ∷ d) = field key (str value) (dict_json d)

-- `... or None`
abbrev pub or_null : Dict String String → Value
or_null [] = null
or_null ((key, value) ∷ d) = obj (dict_json ((key, value) ∷ d))
