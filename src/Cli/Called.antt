-- ===== src/Cli/Called.antt =====
-- The requests of infrareplay/cli/main.py and their errors.
use infra_replay.Common.{String, Option, none, some, [], ◌∷◌, string_eq, if◌then◌else◌}
use infra_replay.Common.Text.{joined}
use infra_replay.Schema.Value.{Value, str, obj, find}
use infra_replay.Cli.Printed.{
  Piece, Output, decimal, value_text, line, crashed, refused, print_line,
}
use infra_replay.Cli.{Request, Response}

-- `resp.json().get("detail", resp.text)`
abbrev detail_in : String → Value → Option Value
detail_in text (obj fs) = elim (find fs "detail") [ none ↦ some (str text) | some v ↦ some v ]
detail_in text v = none

-- `repr` is that of a list or a dict, and `send` is the client.
module _ (repr : Value → String) (send : Request → Option Response) where
  -- `_fail`
  unfoldable pub fail : Response → Output
  fail resp =
      elim (if resp.has_content
        then elim resp.json [ none ↦ none | some v ↦ detail_in resp.text v ]
        else some (str resp.reason_phrase)) [
          | none ↦ crashed []
          | some detail ↦ refused (
              joined "error "
                (joined (decimal resp.status_code) (joined ": " (value_text repr detail))))
        ]

  -- A request, `_fail` on an error, and the command's output for the answer.
  unfoldable pub called : Request → (Value → Output) → Output
  unfolding fail
  called request output = elim (send request) [
    | none ↦ crashed []
    | some resp ↦
        if resp.is_error
        then fail resp
        else elim resp.json [ none ↦ crashed [] | some answer ↦ output answer ]
  ]

module _ (repr : Value → String) where
  -- The line of a recording that is imported or stopped.
  abbrev pub summary : Value → Output
  summary rec = print_line (
      line repr
        (Piece.shown "recording_id"
          ∷ Piece.plain "  ["
          ∷ Piece.shown "status"
          ∷ Piece.plain "]  "
          ∷ Piece.counted "events"
          ∷ Piece.plain " events"
          ∷ [])
        rec)
