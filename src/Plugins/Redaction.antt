-- ===== src/Plugins/Redaction.antt =====
-- infrareplay/plugins/redaction_default/plugin.py: mask the values under known-sensitive keys.
pub mod Scrubbed
use infra_replay.Common.{
  ℕ, String, Bool, List, [], ◌∷◌, map, contains, list_eq, nat_eq, if◌then◌else◌,
}
use infra_replay.Common.Text.{codes, lower}
use infra_replay.Schema.Value.{
  Value, null, bool, int, str, arr, obj, Items, nil, cons, Fields, end, field,
}
use infra_replay.Schema.Event.{Event}

abbrev pub redacted : String
redacted = "***REDACTED***"

abbrev pub sensitive_keys : List String
sensitive_keys =
    "authorization" ∷ "cookie" ∷ "set-cookie" ∷ "x-api-key" ∷ "password" ∷ "secret" ∷ "token"
    ∷ "access_token" ∷ "refresh_token" ∷ "card_number" ∷ "cvv" ∷ []

-- `key.lower() in _SENSITIVE_KEYS`
unfoldable pub is_sensitive : String → Bool
unfolding lower
is_sensitive key = contains (map codes sensitive_keys) (lower (codes key))

unfoldable mutual
  unfolding is_sensitive

  pub scrub : Value → Value
  scrub (arr xs) = arr (scrub_items xs)
  scrub (obj fs) = obj (scrub_fields fs)
  scrub null = null
  scrub (bool b) = bool b
  scrub (int n) = int n
  scrub (str s) = str s

  pub scrub_items : Items → Items
  scrub_items nil = nil
  scrub_items (cons v xs) = cons (scrub v) (scrub_items xs)

  pub scrub_fields : Fields → Fields
  scrub_fields end = end
  scrub_fields (field k v fs) =
      field k (if is_sensitive k then str redacted else scrub v) (scrub_fields fs)

unfoldable pub redact : Event → Event
unfolding scrub_fields
redact event = record event { payload = scrub_fields event.payload }
