-- ===== src/Plugins/HttpCapture/Lifecycle.antt =====
-- The plugin around the proxy, infrareplay/plugins/http_capture/plugin.py, and the start and the stop
-- of the proxy's server. The server is outside: when it has started, and its socket's port, are
-- arguments.
use infra_replay.Common.{
  ℕ, zero, suc, String, ◌≡◌, refl, ap, ◌∙◌, Bool, true, false, not, Option, none, some, List, [],
  ◌∷◌, ◌++◌, map, ◌==◌, nat_eq, if◌then◌else◌,
}
use infra_replay.Schema.Event.{Event}
use infra_replay.Plugins.HttpCapture.{Proxy, new_proxy}

-- `_STARTUP_TIMEOUT_S` over `_STARTUP_POLL_S`: the polls that fit before the timeout, and one more, as
-- the test is for more than the timeout.
abbrev pub startup_polls : ℕ
startup_polls = 1001

-- `_await_startup`, from the n-th poll on, where so many are left; false where it raises.
unfoldable pub await_startup : (ℕ → Bool) → ℕ → ℕ → Bool
await_startup started zero n = started n
await_startup started (suc polls) n =
    let rest = await_startup started polls (suc n) in if started n then true else rest

-- `_bound_port`, of the port of the first server's first socket, none if there is no server.
abbrev pub bound_port : ℕ → Option ℕ → ℕ
bound_port requested none = requested
bound_port requested (some port) = if not (requested == 0) then requested else port

-- `serve` once the server has been made, which returns the port, or raises.
unfoldable pub serve_proxy : (ℕ → Bool) → Option ℕ → ℕ → Option ℕ
unfolding await_startup
serve_proxy started socket port =
    if await_startup started startup_polls 0 then some (bound_port port socket) else none

-- `_queue`, with none for the sentinel, `_proxy` and `port`.
pub record HttpCapturePlugin : Type 0 where
  pub queue : List (Option Event)
  pub proxy : Option Proxy
  pub port : ℕ

abbrev pub new_plugin : HttpCapturePlugin
new_plugin = record { queue = []; proxy = none; port = 0 }

-- The keys of `config` that the plugin reads.
pub record Config : Type 0 where
  pub recording_id : String
  pub upstream : Option String
  pub listen_port : Option ℕ

abbrev or_zero : Option ℕ → ℕ
or_zero none = 0
or_zero (some n) = n

-- `start` returns, or raises: a KeyError without an upstream, which leaves the plugin, or a RuntimeError
-- from the proxy, which is kept.
pub data Started : Type 0 where
  listening : HttpCapturePlugin → Started
  key_error : HttpCapturePlugin → Started
  failed : HttpCapturePlugin → Started

unfoldable pub start :
    (String → String) → ℕ → (ℕ → Bool) → Option ℕ → Config → HttpCapturePlugin → Started
unfolding new_proxy serve_proxy
start netloc max_body started socket config self = elim config.upstream [
  | none ↦ Started.key_error self
  | some upstream ↦
      let with_proxy : HttpCapturePlugin = record self {
        proxy = some (new_proxy config.recording_id upstream (netloc upstream) max_body);
      } in
      elim (serve_proxy started socket (or_zero config.listen_port)) [
        | none ↦ Started.failed with_proxy
        | some port ↦ Started.listening (record with_proxy { port = port })
      ]
]

-- `stop`, once the proxy's server has shut down.
unfoldable pub stop : HttpCapturePlugin → HttpCapturePlugin
stop self = record self { proxy = none; queue = self.queue ++ none ∷ [] }

-- `events`, over what is on the queue: what it yields, whether it has returned, and what is left.
unfoldable pub events : List (Option Event) → List Event × (Bool × List (Option Event))
events [] = ([], (false, []))
events (none ∷ queue) = ([], (true, queue))
events (some event ∷ queue) = let rest = events queue in (event ∷ rest.0, rest.1)

-- After a stop the iterator yields what was on the queue, in order, and returns with the queue empty.
pub events-stop :
    (found : List Event) (self : HttpCapturePlugin)
    → self.queue ≡ map some found
    → events (stop self).queue ≡ (found, (true, []))
unfolding events stop
events-stop found self queued = ap (λ q. events (q ++ none ∷ [])) queued ∙ drained found
  where
    drained : (found : List Event) → events (map some found ++ none ∷ []) ≡ (found, (true, []))
    drained [] = refl
    drained (event ∷ found) = ap (λ rest. (event ∷ rest.0, rest.1)) (drained found)
