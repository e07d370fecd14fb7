-- ===== src/Cli/Commands.antt =====
-- The commands on the demo and on recordings of infrareplay/cli/main.py.
use infra_replay.Common.{String, Option, none, some, List, [], ◌∷◌, ◌==◌, string_eq, if◌then◌else◌}
use infra_replay.Common.Text.{joined}
use infra_replay.Schema.Value.{Value}
use infra_replay.Cli.Printed.{
  Piece, Output, value_text, line, item, is_true, printed, crashed, refused, print_line, print_rows,
}
use infra_replay.Cli.{Request, Response, get_of, post_of}
use infra_replay.Cli.Called.{called, summary}

-- `repr` is that of a list or a dict, `dumps` is json.dumps with an indent of 2, `read` is what a file
-- holds as JSON, and `send` is the client.
module _ (repr : Value → String) (dumps : Value → String) (read : String → Option Value)
    (send : Request → Option Response) where
  unfoldable pub demo_seed : Output
  unfolding called line
  demo_seed = called repr send (post_of "/api/demo/seed" none) (
      print_rows
        (line repr (Piece.shown "recording_id" ∷ Piece.plain "  " ∷ Piece.shown "title" ∷ [])))

  unfoldable pub recordings_list : Option String → Output
  unfolding called line
  recordings_list kind =
      called repr send (record (get_of "/api/recordings") { params = params kind })
        (print_rows (
          line repr (
            Piece.shown "recording_id"
            ∷ Piece.plain "  ["
            ∷ Piece.shown "kind"
            ∷ Piece.plain "/"
            ∷ Piece.shown "status"
            ∷ Piece.plain "]  "
            ∷ Piece.shown "title"
            ∷ [])))
    where
      params : Option String → List (String × String)
      params none = []
      params (some kind) = if kind == "" then [] else ("kind", kind) ∷ []

  unfoldable pub recordings_show : String → Output
  unfolding called
  recordings_show recording_id =
      called repr send (get_of (joined "/api/recordings/" recording_id))
        (λ v. printed (dumps v ∷ []))

  unfoldable pub recordings_export : String → Option String → Output
  unfolding called
  recordings_export recording_id out =
      called repr send (get_of (joined "/api/recordings/" (joined recording_id "/export")))
        (written out)
    where
      written : Option String → Value → Output
      written none v = printed (dumps v ∷ [])
      written (some path) v = record (printed (joined recording_id (joined " -> " path) ∷ [])) {
        files = (path, dumps v) ∷ [];
      }

  unfoldable pub recordings_import : String → Output
  unfolding called line
  recordings_import path = elim (read path) [
    | none ↦ crashed []
    | some bundle ↦ called repr send (post_of "/api/recordings/import" (some bundle)) (summary repr)
  ]

  unfoldable pub recordings_validate : String → Output
  unfolding called line
  recordings_validate path = elim (read path) [
    | none ↦ crashed []
    | some bundle ↦ called repr send (post_of "/api/recordings/validate" (some bundle)) told
  ]
    where
      told : Value → Output
      told out = elim (item "valid" out) [
        | none ↦ crashed []
        | some valid ↦
            if is_true valid
            then print_line (
                line repr
                  (Piece.plain "valid  "
                    ∷ Piece.shown "recording_id"
                    ∷ Piece.plain "  "
                    ∷ Piece.shown "events"
                    ∷ Piece.plain " events  schema v"
                    ∷ Piece.shown "schema_version"
                    ∷ [])
                  out)
            else elim (item "error" out) [
              | none ↦ crashed []
              | some e ↦ refused (joined "invalid: " (value_text repr e))
            ]
      ]
