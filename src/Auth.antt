-- ===== src/Auth.antt =====
-- internal/middleware/auth.go
pub mod Guard
use Prim.Native.String.{◌++◌ as ◌<>◌}
use youtube_webhook_ingestio.Base.{
  String, Bool, true, false, not, List, [], ◌∷◌, ◌++◌, ◌==◌, is_member, if◌then◌else◌,
}
use youtube_webhook_ingestio.Base.Text.{has_prefix, trim_prefix}
use youtube_webhook_ingestio.Http.{Request, Response, Handler, respond}

-- APIKeyAuth; `api_keys` are the keys of the map, in some order and each once.
pub record ApiKeyAuth : Type 0 where
  pub api_keys : List String

-- `if key != "" { keyMap[key] = true }`
unfoldable pub add_key : List String → String → List String
add_key key_map key =
    if key == "" then key_map else if is_member key key_map then key_map else key_map ++ key ∷ []

unfoldable pub add_keys : List String → List String → List String
unfolding add_key
add_keys key_map [] = key_map
add_keys key_map (key ∷ keys) = add_keys (add_key key_map key) keys

-- NewAPIKeyAuth
unfoldable pub new_api_key_auth : List String → ApiKeyAuth
unfolding add_keys
new_api_key_auth keys = record { api_keys = add_keys [] keys }

-- extractAPIKey
unfoldable pub extract_api_key : Request → String
unfolding has_prefix trim_prefix
extract_api_key r =
    if not (r.header "X-API-Key" == "")
    then r.header "X-API-Key"
    else if has_prefix (r.header "Authorization") "Bearer "
    then trim_prefix (r.header "Authorization") "Bearer "
    else ""

abbrev is_empty : List String → Bool
is_empty [] = true
is_empty (x ∷ xs) = false

-- isValidAPIKey; subtle.ConstantTimeCompare returns 1 for equal texts.
unfoldable pub is_valid_api_key : ApiKeyAuth → String → Bool
is_valid_api_key a provided_key =
    if provided_key == ""
    then false
    else if is_empty a.api_keys
    then false
    else is_member provided_key a.api_keys

-- sendUnauthorized
abbrev pub unauthorized : Response
unauthorized = record { status = 401; body = "{\"error\":\"Unauthorized\"}\n" }

-- Middleware
unfoldable pub middleware : ApiKeyAuth → (Request → Handler) → Request → Handler
unfolding extract_api_key is_valid_api_key respond
middleware a next r =
    if not (is_valid_api_key a (extract_api_key r)) then respond unauthorized else next r
