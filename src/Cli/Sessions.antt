-- ===== src/Cli/Sessions.antt =====
-- The commands on projects, captures, replays and plugins of infrareplay/cli/main.py.
use infra_replay.Common.{ℕ, String, Bool, Option, none, some, List, [], ◌∷◌, string_eq}
use infra_replay.Common.Text.{joined, lstrip}
use infra_replay.Schema.Value.{ℤ, Value, bool, int, str, obj, end, field}
use infra_replay.Cli.Printed.{Piece, Output, line, printed, crashed, print_line, print_rows}
use infra_replay.Cli.{Request, Response, get_of, post_of, as_url, substitutions_of, or_null}
use infra_replay.Cli.Called.{called, summary}

-- `repr` is that of a list or a dict, `int_of` is `int` of a text, and `send` is the client.
module _ (repr : Value → String) (int_of : String → Option ℤ)
    (send : Request → Option Response) where
  unfoldable pub projects_list : Output
  unfolding called line
  projects_list = called repr send (get_of "/api/projects") (
      print_rows (
        line repr (
          Piece.to_left 20 "project"
          ∷ Piece.plain " "
          ∷ Piece.to_right 3 "recordings"
          ∷ Piece.plain " recordings  "
          ∷ Piece.shown "last_activity"
          ∷ [])))

  -- `_as_port`; none where `int` raises.
  unfoldable pub as_port : String → Option ℤ
  unfolding lstrip
  as_port value = int_of (lstrip b':' value)

  unfoldable pub capture_start : String → String → String → String → Output
  unfolding called line as_port as_url
  capture_start listen upstream plugin title = elim (as_port listen) [
    | none ↦ crashed []
    | some port ↦ called repr send (post_of "/api/captures" (some (body port))) (λ out. print_line (
        line repr
          (Piece.shown "recording_id"
            ∷ Piece.plain "  listening :"
            ∷ Piece.shown "listen_port"
            ∷ Piece.plain " -> "
            ∷ Piece.shown "target"
            ∷ [])
          out))
  ]
    where
      body : ℤ → Value
      body port = obj (
          field "plugin" (str plugin) (
            field "title" (str title) (
              field "config"
                (obj
                  (field "listen_port" (int port) (field "upstream" (str (as_url upstream)) end)))
                end)))

  unfoldable pub capture_stop : String → Output
  unfolding called line
  capture_stop recording_id =
      called repr send (post_of (joined "/api/captures/" (joined recording_id "/stop")) none)
        (summary repr)

  unfoldable pub capture_list : Output
  unfolding called line
  capture_list = called repr send (get_of "/api/captures") (
      print_rows (
        line repr (
          Piece.shown "recording_id"
          ∷ Piece.plain "  :"
          ∷ Piece.shown "listen_port"
          ∷ Piece.plain " -> "
          ∷ Piece.shown "target"
          ∷ Piece.plain "  "
          ∷ Piece.shown "plugin"
          ∷ [])))

  unfoldable pub replay : String → String → Bool → List String → Bool → ℕ → Output
  unfolding called line substitutions_of
  replay recording_id target is_unsafe sub auto_subs concurrency = elim (substitutions_of sub []) [
    | none ↦ crashed []
    | some subs ↦ called repr send (post_of "/api/replays" (some (body (or_null subs)))) told
  ]
    where
      body : Value → Value
      body subs = obj (
          field "recording_id" (str recording_id) (
            field "target" (str target) (
              field "unsafe" (bool is_unsafe) (
                field "auto_substitute" (bool auto_subs) (
                  field "substitutions" subs
                    (field "concurrency" (int (ℤ.pos concurrency)) end))))))

      told : Value → Output
      told out =
          elim (line repr
            (Piece.plain "replay "
              ∷ Piece.shown "replay_recording_id"
              ∷ Piece.plain " against "
              ∷ Piece.shown "target"
              ∷ [])
            out) [
              | none ↦ crashed []
              | some first ↦
                  elim (line repr (Piece.plain "summary: " ∷ Piece.shown "summary" ∷ []) out) [
                    | none ↦ crashed (first ∷ [])
                    | some second ↦ printed (first ∷ second ∷ [])
                  ]
            ]

  unfoldable pub compare : String → Output
  unfolding called line
  compare replay_recording_id =
      called repr send (get_of (joined "/api/replays/" (joined replay_recording_id "/comparison")))
        (print_rows (
          line repr (
            Piece.to_left 10 "category"
            ∷ Piece.plain " "
            ∷ Piece.to_left 16 "event_type"
            ∷ Piece.plain " "
            ∷ Piece.or_empty "diff"
            ∷ [])))

  unfoldable pub plugins_list : Output
  unfolding called line
  plugins_list = called repr send (get_of "/api/plugins") (
      print_rows (
        line repr (
          Piece.to_left 12 "slot"
          ∷ Piece.plain " "
          ∷ Piece.to_left 20 "name"
          ∷ Piece.plain " "
          ∷ Piece.shown "impl"
          ∷ [])))
