-- ===== src/Webhook.antt =====
-- internal/handler/webhook.go
pub mod Signature
pub mod Delivery
use Prim.Native.String.{◌++◌ as ◌<>◌}
use youtube_webhook_ingestio.Base.{
  ℕ, String, Bool, true, false, not, Option, none, some, ◌==◌, if◌then◌else◌,
}
use youtube_webhook_ingestio.Base.Text.{has_prefix, trim_prefix}
use youtube_webhook_ingestio.Errors.{Error, plain}
use youtube_webhook_ingestio.World.Action.{Result, ok, err}
use youtube_webhook_ingestio.Http.{Request, Response, Handler, respond, http_error, on_result}
use youtube_webhook_ingestio.Blocked.{is_blocked}
use youtube_webhook_ingestio.Parser.{VideoData, parse_atom_feed}
use youtube_webhook_ingestio.Processor.{EventProcessor, process_event}

-- WebhookHandler; `has_cache` says whether `blockedCache` is not nil.
pub record WebhookHandler : Type 0 where
  pub processor : EventProcessor
  pub has_cache : Bool
  pub secret : String

-- verifySignature, on the value of the header X-Hub-Signature
unfoldable pub verify_signature : WebhookHandler → String → String → Result (Unit {0})
unfolding has_prefix trim_prefix
verify_signature h signature body =
    if signature == ""
    then err (plain "missing X-Hub-Signature header")
    else if not (has_prefix signature "sha1=")
    then err (plain "invalid signature format: must start with 'sha1='")
    else if not (h.processor.externals.hmac_sha1_hex h.secret body == trim_prefix signature "sha1=")
    then err (plain "signature mismatch")
    else ok tt

-- w.WriteHeader(http.StatusOK)
abbrev pub status_ok : Response
status_ok = record { status = 200; body = "" }

unfoldable pub processed_response : Result (Unit {0}) → Response
processed_response (err e) = http_error "Failed to process event" 500
processed_response (ok a) = status_ok

unfoldable pub process : WebhookHandler → String → Handler
unfolding process_event processed_response on_result respond
process h body = on_result (process_event h.processor body) (λ r. respond (processed_response r))

-- A failure of the cache does not stop the processing.
unfoldable pub unless_blocked : WebhookHandler → String → Result Bool → Handler
unfolding process respond
unless_blocked h body (ok true) = respond status_ok
unless_blocked h body (ok false) = process h body
unless_blocked h body (err e) = process h body

unfoldable pub check_blocked : WebhookHandler → String → Result VideoData → Handler
unfolding unless_blocked is_blocked respond on_result
check_blocked h body (err e) = respond (http_error "Failed to parse feed" 400)
check_blocked h body (ok d) = on_result (is_blocked d.video_id) (unless_blocked h body)

unfoldable pub accept : WebhookHandler → String → Result (Unit {0}) → Handler
unfolding check_blocked process respond parse_atom_feed
accept h body (err e) = respond (http_error "Signature verification failed" 401)
accept h body (ok a) =
    if h.has_cache
    then check_blocked h body (parse_atom_feed h.processor.externals.unmarshal body)
    else process h body

unfoldable pub receive : WebhookHandler → String → Result String → Handler
unfolding accept verify_signature respond
receive h signature (err e) = respond (http_error "Failed to read request body" 400)
receive h signature (ok body) = accept h body (verify_signature h signature body)

-- handleNotification
unfoldable pub handle_notification : WebhookHandler → Request → Handler
unfolding receive
handle_notification h r = receive h (r.header "X-Hub-Signature") r.body

-- handleVerification
unfoldable pub handle_verification : Request → Handler
unfolding respond
handle_verification r =
    if r.query "hub.challenge" == ""
    then respond (http_error "Missing hub.challenge parameter" 400)
    else respond (record { status = 200; body = r.query "hub.challenge" })

-- ServeHTTP
unfoldable pub serve_http : WebhookHandler → Request → Handler
unfolding handle_verification handle_notification respond
serve_http h r =
    if r.method == "GET"
    then handle_verification r
    else if r.method == "POST"
    then handle_notification h r
    else respond (http_error "Method not allowed" 405)
