-- ===== src/PubSubHub.antt =====
-- internal/service/pubsubhub.go. net/http and net/url are parameters: what url.Parse says of a text,
-- whether a request can be made for a URL, and how the hub answers a form.
pub mod Acceptance
use Prim.Native.String.{◌++◌ as ◌<>◌}
use youtube_webhook_ingestio.Base.{
  ℕ, ℤ, pos, negsuc, String, Bool, true, false, Option, none, some, List, [], ◌∷◌, ◌++◌, ◌==◌, eqb,
  if◌then◌else◌,
}
use youtube_webhook_ingestio.Errors.{
  Error, plain, wrapped, sentinel, subscription_failed, invalid_hub_response,
}
use youtube_webhook_ingestio.World.Action.{Result, ok, err}

abbrev pub Form : Type 0
Form = List (String × String)

-- What client.Do returns: the status, and what io.ReadAll returns of the body.
pub record HubReply : Type 0 where
  pub status_code : ℕ
  pub body : Result String

pub record Hub : Type 0 where
  pub parse_url : String → Result (Unit {0})
  pub new_request : String → Result (Unit {0})
  pub send : String → Form → Result HubReply
  -- the decimal notation of a number, `%d`
  pub decimal : ℤ → String

pub record SubscribeRequest : Type 0 where
  pub hub_url : String
  pub topic_url : String
  pub callback_url : String
  pub lease_seconds : ℤ
  pub secret : Option String

pub record SubscribeResponse : Type 0 where
  pub accepted : Bool
  pub status_code : ℕ
  pub response_body : String
  pub lease_seconds : ℤ

-- The two values that the methods return.
pub record Outcome : Type 0 where
  pub response : Option SubscribeResponse
  pub error : Option Error

abbrev pub failure : Error → Outcome
failure e = record { response = none; error = some e }

abbrev pub with_context : String → Result (Unit {0}) → Result (Unit {0}) → Result (Unit {0})
with_context before (err e) next = err (wrapped before e "")
with_context before (ok a) next = next

abbrev is_negative : ℤ → Bool
is_negative (pos n) = false
is_negative (negsuc n) = true

-- validateRequest of a request that is not nil
unfoldable pub validate_fields : Hub → SubscribeRequest → Result (Unit {0})
validate_fields h r =
    if r.hub_url == ""
    then err (plain "hub URL is required")
    else if r.topic_url == ""
    then err (plain "topic URL is required")
    else if r.callback_url == ""
    then err (plain "callback URL is required")
    else if is_negative r.lease_seconds
    then err (plain "lease seconds must be non-negative")
    else with_context "invalid hub URL: " (h.parse_url r.hub_url) (
        with_context "invalid topic URL: " (h.parse_url r.topic_url)
          (with_context "invalid callback URL: " (h.parse_url r.callback_url) (ok tt)))

-- `if req.Secret != nil && *req.Secret != ""`
abbrev pub secret_field : Option String → Form
secret_field none = []
secret_field (some s) = if s == "" then [] else ("hub.secret", s) ∷ []

-- `formData` of Subscribe
unfoldable pub subscribe_form : Hub → SubscribeRequest → Form
subscribe_form h r =
    ("hub.mode", "subscribe")
    ∷ ("hub.topic", r.topic_url)
    ∷ ("hub.callback", r.callback_url)
    ∷ ("hub.lease_seconds", h.decimal r.lease_seconds)
    ∷ secret_field r.secret

-- `formData` of Unsubscribe
unfoldable pub unsubscribe_form : SubscribeRequest → Form
unsubscribe_form r =
    ("hub.mode", "unsubscribe") ∷ ("hub.topic", r.topic_url) ∷ ("hub.callback", r.callback_url) ∷ []

-- The switch on the status code in Subscribe
unfoldable pub subscribe_outcome : Hub → SubscribeRequest → ℕ → String → Outcome
subscribe_outcome h r status body =
    let rejected : SubscribeResponse = record {
      accepted = false;
      status_code = status;
      response_body = body;
      lease_seconds = r.lease_seconds;
    } in
    if eqb status 202
    then record { response = some (record rejected { accepted = true }); error = none }
    else if eqb status 204
    then record { response = some (record rejected { accepted = true }); error = none }
    else if eqb status 400
    then record {
      response = some rejected;
      error = some (wrapped "" (sentinel subscription_failed) (": bad request - " <> body));
    }
    else if eqb status 404
    then record {
      response = some rejected;
      error = some (wrapped "" (sentinel subscription_failed) (": not found - " <> body));
    }
    else record {
      response = some rejected;
      error = some (
          wrapped "" (sentinel invalid_hub_response)
            (": unexpected status code " <> h.decimal (pos status) <> " - " <> body));
    }

-- The switch on the status code in Unsubscribe
unfoldable pub unsubscribe_outcome : Hub → ℕ → String → Outcome
unsubscribe_outcome h status body =
    let rejected : SubscribeResponse = record {
      accepted = false;
      status_code = status;
      response_body = body;
      lease_seconds = pos 0;
    } in
    if eqb status 202
    then record { response = some (record rejected { accepted = true }); error = none }
    else if eqb status 204
    then record { response = some (record rejected { accepted = true }); error = none }
    else record {
      response = some rejected;
      error = some (
          wrapped "" (sentinel subscription_failed)
            (": status code " <> h.decimal (pos status) <> " - " <> body));
    }

unfoldable pub on_body : (String → Outcome) → Result String → Outcome
on_body outcome (err e) = failure (wrapped "read response body: " e "")
on_body outcome (ok body) = outcome body

unfoldable pub on_reply : (ℕ → String → Outcome) → Result HubReply → Outcome
unfolding on_body
on_reply outcome (err e) = failure (wrapped "send request: " e "")
on_reply outcome (ok reply) = on_body (outcome reply.status_code) reply.body

-- The request, its sending and its answer, once it is valid.
unfoldable pub send_form :
    Hub → String → Form → (ℕ → String → Outcome) → Result (Unit {0}) → Outcome
unfolding on_reply
send_form h url form outcome (err e) = failure (wrapped "create request: " e "")
send_form h url form outcome (ok a) = on_reply outcome (h.send url form)

unfoldable pub send_valid :
    Hub → SubscribeRequest → Form → (ℕ → String → Outcome) → Result (Unit {0}) → Outcome
unfolding send_form
send_valid h r form outcome (err e) = failure (wrapped "invalid request: " e "")
send_valid h r form outcome (ok a) = send_form h r.hub_url form outcome (h.new_request r.hub_url)

-- Subscribe; `none` is a nil request.
unfoldable pub subscribe : Hub → Option SubscribeRequest → Outcome
unfolding validate_fields subscribe_form subscribe_outcome send_valid
subscribe h none = failure (wrapped "invalid request: " (plain "request is nil") "")
subscribe h (some r) =
    send_valid h r (subscribe_form h r) (subscribe_outcome h r) (validate_fields h r)

-- Unsubscribe
unfoldable pub unsubscribe : Hub → Option SubscribeRequest → Outcome
unfolding validate_fields unsubscribe_form unsubscribe_outcome send_valid
unsubscribe h none = failure (wrapped "invalid request: " (plain "request is nil") "")
unsubscribe h (some r) =
    send_valid h r (unsubscribe_form r) (unsubscribe_outcome h) (validate_fields h r)
