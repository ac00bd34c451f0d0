-- ===== src/Tests/Keys.antt =====
-- Runs of the API key middleware.
use youtube_webhook_ingestio.Base.{
  String, ◌≡◌, ◌≢◌, ◌↔◌, sym, ap, ◌∙◌, true, List, [], ◌∷◌, ◌==◌, if◌then◌else◌,
}
use youtube_webhook_ingestio.Base.Text.{has_prefix, has_prefix-append}
use youtube_webhook_ingestio.World.Action.{ok}
use youtube_webhook_ingestio.Http.{Request, Handler, respond}
use youtube_webhook_ingestio.Auth.{is_valid_api_key, new_api_key_auth, unauthorized, middleware}
use youtube_webhook_ingestio.Auth.Guard.{
  Among, Presents, by_header, by_bearer, is_valid_api_key_iff, middleware-unauthorized,
}
use youtube_webhook_ingestio.Tests.{first_world}

abbrev keys : List String
keys = "alpha" ∷ "" ∷ "beta" ∷ []

abbrev next : Request → Handler
next r = respond (record { status = 200; body = "" })

-- A request with the given Authorization header.
abbrev bearing : String → Request
bearing authorization = record {
  method = "GET";
  path = "/api/v1/videos";
  query = λ k. "";
  header = λ k. if k == "Authorization" then authorization else "";
  body = ok "";
}

is_valid_api_key_iff_example :
    (is_valid_api_key (new_api_key_auth keys) "beta" ≡ true)
    ↔ ((◌≢◌ {A = String} "beta" "") × Among "beta" keys)
is_valid_api_key_iff_example = is_valid_api_key_iff keys "beta"

not_bearer : ¬ (true ≡ has_prefix "alpha" "Bearer ")
unfolding has_prefix
not_bearer e = cc

not-Presents : (k : String) → Presents (bearing "alpha") k → ¬ Among k keys
not-Presents k (by_header e n) a = n (sym e)
not-Presents k (by_bearer e q) a =
    not_bearer (sym (has_prefix-append "Bearer " k) ∙ ap (λ s. has_prefix s "Bearer ") (sym q))

middleware-unauthorized_example :
    middleware (new_api_key_auth keys) next (bearing "alpha") (first_world [])
    ≡ (unauthorized, first_world [])
middleware-unauthorized_example =
    middleware-unauthorized keys next (bearing "alpha") (first_world []) not-Presents
