-- ===== src/Resolver/Handler.antt =====
-- internal/handler/channel_from_url.go. encoding/json is a parameter.
use youtube_webhook_ingestio.Base.{ℕ, String, Bool, ◌||◌, ◌==◌, if◌then◌else◌}
use youtube_webhook_ingestio.Errors.{Error, error_text}
use youtube_webhook_ingestio.World.Action.{Result, ok, err}
use youtube_webhook_ingestio.Http.{Request, Response, Handler, respond, on_result}
use youtube_webhook_ingestio.Resolver.{
  ChannelResolverService, ResolveResponse, resolve_channel_from_url,
}

pub record Json : Type 0 where
  -- the fields of a response and its message
  pub resolved : ResolveResponse → String → String
  -- the object with the fields `error` and `message`
  pub error : String → String → String
  -- the same with the details: the URL and the text of the error
  pub error_of_url : String → String → String → String → String

pub record ChannelFromUrlHandler : Type 0 where
  pub service : ChannelResolverService
  pub json : Json

-- the status and the message that the texts of the error select
abbrev pub status_of_text : String → ℕ × String
status_of_text text =
    if text == "channel not found" || text == "not a YouTube URL"
    then (404, text)
    else if text == "unsupported YouTube URL format"
    then (400, "Unsupported YouTube URL format")
    else (500, "Failed to resolve channel from URL")

unfoldable pub failed_response : Json → String → Error → Response
failed_response json url e =
    let (status, message) = status_of_text (error_text e) in
    record {
      status = status;
      body = json.error_of_url "resolution_failed" message url (error_text e);
    }

abbrev pub resolved_message : Bool → String
resolved_message was_existing =
    if was_existing
    then "Channel already exists and was returned"
    else "Channel created successfully"

unfoldable pub resolution_response : Json → String → Result ResolveResponse → Response
unfolding failed_response
resolution_response json url (err e) = failed_response json url e
resolution_response json url (ok r) = record {
  status = 200;
  body = json.resolved r (resolved_message r.was_existing);
}

-- what follows the decoder
unfoldable pub create_from_url : ChannelFromUrlHandler → Result String → Handler
create_from_url h (err e) =
    respond (record {
      status = 400;
      body = h.json.error "invalid_request" "Invalid JSON in request body";
    })
create_from_url h (ok url) =
    if url == ""
    then respond (record { status = 400; body = h.json.error "invalid_request" "URL is required" })
    else on_result (resolve_channel_from_url h.service url)
        λ r. respond (resolution_response h.json url r)

-- HandleCreateFromURL; `decode` is the JSON decoder on the body, with the field `url`.
unfoldable pub handle_create_from_url :
    ChannelFromUrlHandler → (Result String → Result String) → Request → Handler
handle_create_from_url h decode r =
    if r.method == "POST"
    then create_from_url h (decode r.body)
    else respond
        (record { status = 405; body = h.json.error "method_not_allowed" "Only POST is allowed" })
