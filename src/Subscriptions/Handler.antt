-- ===== src/Subscriptions/Handler.antt =====
-- internal/handler/subscription.go. encoding/json is a parameter: the texts of a row, of the list of rows
-- and of an error, and the request that the decoder reads from the body.
use Prim.Native.Char.{code}
use youtube_webhook_ingestio.Base.{
  ℕ, suc, zero, ℤ, pos, negsuc, String, Bool, true, false, not, ◌&&◌, ◌||◌, Option, none, some,
  List, ◌==◌, eqb, leb, ltb, if◌then◌else◌,
}
use youtube_webhook_ingestio.Base.Text.{cut_prefix}
use youtube_webhook_ingestio.Errors.{
  Error, plain, error_text, is_error, subscription_failed, is_duplicate_key,
}
use youtube_webhook_ingestio.Models.{Subscription}
use youtube_webhook_ingestio.World.Action.{Result, ok, err, Action}
use youtube_webhook_ingestio.Http.{Request, Response, Handler, respond, on_result}
use youtube_webhook_ingestio.PubSubHub.{Hub, SubscribeRequest, SubscribeResponse, subscribe}
use youtube_webhook_ingestio.Subscriptions.{new_subscription, mark_active, mark_failed}
use youtube_webhook_ingestio.Repository.Subscriptions.{
  create_subscription, get_subscriptions_by_channel_id,
}

pub record Json : Type 0 where
  pub subscription : Subscription → String
  -- the object with the fields `subscriptions` and `count`
  pub subscriptions : List Subscription → String
  -- the object with the fields `error` and `message`, which is left out if it is empty
  pub error : String → String → String

pub record SubscriptionHandler : Type 0 where
  pub hub : Hub
  pub json : Json
  pub webhook_secret : String
  pub webhook_url : String

-- CreateSubscriptionRequest
pub record CreateSubscriptionRequest : Type 0 where
  pub channel_id : String
  pub lease_seconds : ℤ

-- [a-zA-Z0-9_-]
abbrev pub is_id_letter : ℕ → Bool
is_id_letter c =
    (leb b'a' c && leb c b'z')
    || (leb b'A' c && leb c b'Z')
    || (leb b'0' c && leb c b'9')
    || eqb c b'_'
    || eqb c b'-'

-- n letters and no more
unfoldable pub are_id_letters : ℕ → String → Bool
are_id_letters zero String.[] = true
are_id_letters zero (String.◌∷◌ c s) = false
are_id_letters (suc n) String.[] = false
are_id_letters (suc n) (String.◌∷◌ c s) = is_id_letter (code c) && are_id_letters n s

abbrev rest_matches : Option String → Bool
rest_matches none = false
rest_matches (some rest) = are_id_letters 22 rest

-- YouTubeChannelIDRegex, ^UC[a-zA-Z0-9_-]{22}$
unfoldable pub is_channel_id : String → Bool
unfolding are_id_letters
is_channel_id s = rest_matches (cut_prefix s "UC")

abbrev pub exceeds : ℤ → ℕ → Bool
exceeds (pos n) limit = ltb limit n
exceeds (negsuc n) limit = false

abbrev pub below_zero : ℤ → Bool
below_zero (pos n) = false
below_zero (negsuc n) = true

abbrev pub is_zero : ℤ → Bool
is_zero (pos n) = eqb n 0
is_zero (negsuc n) = false

-- validateCreateRequest
unfoldable pub validate_create_request : CreateSubscriptionRequest → Result (Unit {0})
validate_create_request r =
    if r.channel_id == ""
    then err (plain "channel_id is required")
    else if not (is_channel_id r.channel_id)
    then err (plain "invalid channel_id format (must start with 'UC' followed by 22 characters)")
    else if below_zero r.lease_seconds
    then err (plain "lease_seconds must be non-negative")
    else if exceeds r.lease_seconds 864000
    then err (plain "lease_seconds cannot exceed 864000 (10 days)")
    else ok tt

-- sendError
abbrev pub send_error : SubscriptionHandler → ℕ → String → String → Response
send_error h status error message = record { status = status; body = h.json.error error message }

unfoldable pub created_response : SubscriptionHandler → Result Subscription → Response
created_response h (ok sub) = record { status = 201; body = h.json.subscription sub }
created_response h (err e) =
    if is_duplicate_key e
    then send_error h 409 "subscription already exists"
        "a subscription for this channel already exists"
    else send_error h 500 "failed to save subscription" (error_text e)

-- `h.repo.Create`, of the subscription as it is marked after the hub's answer. The clock can be read, so the
-- first clause, like that of `subscribe_new`, is not reached.
unfoldable pub save_created : SubscriptionHandler → Result Subscription → Handler
save_created h (err e) = respond (send_error h 500 "" (error_text e))
save_created h (ok sub) = on_result (create_subscription sub) λ r. respond (created_response h r)

abbrev pub marked : Bool → Subscription → Action Subscription
marked accepted sub = if accepted then mark_active sub else mark_failed sub

-- `hubReq`
abbrev pub create_request : SubscriptionHandler → Subscription → SubscribeRequest
create_request h sub = record {
  hub_url = sub.hub_url;
  topic_url = sub.topic_url;
  callback_url = h.webhook_url;
  lease_seconds = sub.lease_seconds;
  secret = some h.webhook_secret;
}

-- What follows the call of Subscribe, which returns an error or a response; without either the code would
-- panic.
unfoldable pub after_hub :
    SubscriptionHandler → Subscription → Option SubscribeResponse → Option Error → Handler
after_hub h sub response (some e) = respond (
    send_error h (if is_error e subscription_failed then 400 else 500) "failed to subscribe to hub"
      (error_text e))
after_hub h sub none none = respond (record { status = 500; body = "" })
after_hub h sub (some response) none =
    on_result (marked response.accepted sub) λ r. save_created h r

unfoldable pub subscribe_new : SubscriptionHandler → Result Subscription → Handler
subscribe_new h (err e) = respond (send_error h 500 "" (error_text e))
subscribe_new h (ok sub) =
    let outcome = subscribe h.hub (some (create_request h sub)) in
    after_hub h sub outcome.response outcome.error

-- `if req.LeaseSeconds == 0 { req.LeaseSeconds = 432000 }`
abbrev pub lease_or_default : ℤ → ℤ
lease_or_default lease = if is_zero lease then pos 432000 else lease

unfoldable pub create_validated :
    SubscriptionHandler → CreateSubscriptionRequest → Result (Unit {0}) → Handler
create_validated h r (err e) = respond (send_error h 400 "validation failed" (error_text e))
create_validated h r (ok a) =
    on_result (new_subscription r.channel_id (lease_or_default r.lease_seconds))
      λ sub. subscribe_new h sub

-- handleCreate, on what the decoder returns
unfoldable pub handle_create : SubscriptionHandler → Result CreateSubscriptionRequest → Handler
handle_create h (err e) = respond (send_error h 400 "invalid request body" (error_text e))
handle_create h (ok r) = create_validated h r (validate_create_request r)

-- ServeHTTP; `decode` is the JSON decoder on the body.
unfoldable pub serve_http :
    SubscriptionHandler → (Result String → Result CreateSubscriptionRequest) → Request → Handler
serve_http h decode r =
    if r.method == "POST"
    then handle_create h (decode r.body)
    else respond (send_error h 405 "method not allowed" "")

unfoldable pub listed_response : Json → Result (List Subscription) → Response
listed_response json (err e) = record {
  status = 500;
  body = json.error "failed to retrieve subscriptions" "";
}
listed_response json (ok rows) = record { status = 200; body = json.subscriptions rows }

-- ServeHTTP of GetSubscriptionHandler
unfoldable pub get_serve_http : Json → Request → Handler
get_serve_http json r =
    if not (r.method == "GET")
    then respond (record { status = 405; body = json.error "method not allowed" "" })
    else if r.query "channel_id" == ""
    then respond
        (record { status = 400; body = json.error "channel_id query parameter is required" "" })
    else on_result (get_subscriptions_by_channel_id (r.query "channel_id"))
        λ rows. respond (listed_response json rows)
