-- ===== src/Examples/Commanding.antt =====
-- Commands, and what they print for an answer.
use infra_replay.Common.{String, ◌≡◌, refl, false, true, Option, some, [], ◌∷◌}
use infra_replay.Schema.Value.{find, ℤ, Value, Items, Fields}
use infra_replay.Cli.{Request, Response, as_url, substitutions_of}
use infra_replay.Cli.Printed.{print_each, decimal, printed, refused, crashed}
use infra_replay.Cli.Sessions.{projects_list, compare}
use infra_replay.Cli.Substituted.{Reads, substitutions_of-Reads}

abbrev repr : Value → String
repr v = "{}"

abbrev int_of : String → Option ℤ
int_of s = some (ℤ.pos 8080)

-- A client that always gets this answer.
abbrev answers : Value → Request → Option Response
answers v request = some (record {
  status_code = 200;
  is_error = false;
  has_content = true;
  json = some v;
  text = "";
  reason_phrase = "OK";
})

abbrev errs : Request → Option Response
errs request = some (record {
  status_code = 404;
  is_error = true;
  has_content = true;
  json =
      some
        (Value.obj (Fields.field "detail" (Value.str "no comparison for that replay") Fields.end));
  text = "";
  reason_phrase = "Not Found";
})

abbrev project_row : Value
project_row = Value.obj (
    Fields.field "project" (Value.str "shop") (
      Fields.field "recordings" (Value.int (ℤ.pos 12))
        (Fields.field "last_activity" (Value.str "today") Fields.end)))

projects_printed :
    projects_list repr int_of (answers (Value.arr (Items.cons project_row Items.nil)))
    ≡ printed ("shop                  12 recordings  today" ∷ [])
unfolding projects_list print_each find decimal
projects_printed = refl

-- A row without the key ends the command with a KeyError.
row_without_key :
    projects_list repr int_of (answers (Value.arr (Items.cons (Value.obj Fields.end) Items.nil)))
    ≡ crashed []
unfolding projects_list print_each find decimal
row_without_key = refl

comparison_missing :
    compare repr int_of errs "rpl_1" ≡ refused "error 404: no comparison for that replay"
unfolding compare find decimal
comparison_missing = refl

urls :
    (as_url ":3000" ≡ "http://127.0.0.1:3000")
    × (as_url "3000" ≡ "http://127.0.0.1:3000")
    × (as_url "https://shop" ≡ "https://shop")
unfolding as_url
urls = (refl, refl, refl)

options : substitutions_of ("a=b=c" ∷ "a=d" ∷ []) [] ≡ some (("a", "d") ∷ [])
unfolding substitutions_of
options = refl

substitutions_of-Reads_example :
    Reads ("a=b=c" ∷ "nothing" ∷ []) [] (substitutions_of ("a=b=c" ∷ "nothing" ∷ []) [])
substitutions_of-Reads_example = substitutions_of-Reads ("a=b=c" ∷ "nothing" ∷ []) []
