-- ===== src/Metrics/Labels.antt =====
-- The texts that metrics.go makes labels of: routes, methods, statuses and channels.
use kaftar.Prelude.{
  ℕ, String, Option, none, some, List, [], ◌∷◌, Bool, true, false, any, str_eq, ◌==◌, if◌then◌else◌,
}
use kaftar.Entity.Channel.{Channel, is_valid}

-- normalizedRoute
unfoldable pub normalized_route : String → String
normalized_route route = if str_eq route "" then "unmatched" else route

abbrev pub methods : List String
methods =
    "CONNECT" ∷ "DELETE" ∷ "GET" ∷ "HEAD" ∷ "OPTIONS" ∷ "PATCH" ∷ "POST" ∷ "PUT" ∷ "TRACE" ∷ []

-- normalizedMethod
unfoldable pub normalized_method : String → String
unfolding any
normalized_method method = if any (λ m. str_eq method m) methods then method else "OTHER"

-- What a handler returns: an error of echo with its code, or any other.
pub data HandlerError : Type 0 where
  http_error : ℕ → HandlerError
  plain_error : HandlerError

-- responseStatus, of the status that was written (0 where none was) and the error.
unfoldable pub response_status : ℕ → Option HandlerError → ℕ
response_status written none = if written == 0 then 200 else written
response_status written (some (http_error code)) = code
response_status written (some plain_error) = 500

-- channelLabel
unfoldable pub channel_label : Channel → String
unfolding is_valid
channel_label channel = if is_valid channel then channel else "all"

-- boolValue
unfoldable pub bool_value : Bool → ℕ
bool_value true = 1
bool_value false = 0
