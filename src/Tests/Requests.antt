-- ===== src/Tests/Requests.antt =====
-- Runs of the webhook handler.
use youtube_webhook_ingestio.Base.{
  ℕ, String, ◌≡◌, ◌↔◌, refl, ap, length, [], ◌∷◌, ◌==◌, arith, if◌then◌else◌,
}
use youtube_webhook_ingestio.World.{World}
use youtube_webhook_ingestio.World.Action.{ok, next_fault, later_faults, context, remote, attempt}
use youtube_webhook_ingestio.Repository.WebhookEvents.{create_webhook_event, mark_event_processed}
use youtube_webhook_ingestio.Repository.Videos.{get_video_by_id, upsert_channel, upsert_video}
use youtube_webhook_ingestio.Repository.VideoUpdates.{create_video_update}
use youtube_webhook_ingestio.Repository.Jobs.{create_job}
use youtube_webhook_ingestio.Queue.Client.{enqueue_video_enrichment}
use youtube_webhook_ingestio.Errors.{is_not_found, wrap_failure}
use youtube_webhook_ingestio.Http.{Request}
use youtube_webhook_ingestio.Parser.{parse_atom_feed}
use youtube_webhook_ingestio.Webhook.{verify_signature, serve_http, status_ok}
use youtube_webhook_ingestio.Webhook.Signature.{
  signature_of, verify_signature_iff, serve_http-authentic, IsSigned,
}
use youtube_webhook_ingestio.Webhook.Delivery.{Handled, serve_http-acknowledged, serve_http-blocked}
use youtube_webhook_ingestio.Tests.{webhook, first_world, entry_video}

abbrev post : String → Request
post signature = record {
  method = "POST";
  path = "/webhook";
  query = λ k. "";
  header = λ k. if k == "X-Hub-Signature" then signature else "";
  body = ok "<feed>video</feed>";
}

abbrev signed : Request
signed = post "sha1=secret signs <feed>video</feed>"

verify_signature_iff_example :
    (verify_signature webhook "sha1=secret signs a" "a" ≡ ok tt)
    ↔ ("sha1=secret signs a" ≡ signature_of webhook "a")
verify_signature_iff_example = verify_signature_iff webhook "sha1=secret signs a" "a"

serve_http-acknowledged_example :
    Handled webhook "<feed>video</feed>" entry_video
      (first_world [])
      (serve_http webhook signed (first_world [])).1
unfolding serve_http context remote attempt create_webhook_event get_video_by_id is_not_found
    wrap_failure mark_event_processed upsert_channel upsert_video create_video_update
serve_http-acknowledged_example =
    serve_http-acknowledged webhook signed "<feed>video</feed>" entry_video (first_world []) refl
      refl refl refl refl

one-zero : ¬ (◌≡◌ {A = ℕ} 1 0)
one-zero e = ground (arith, e)

serve_http-authentic_example : IsSigned webhook signed
unfolding serve_http context remote attempt create_webhook_event get_video_by_id is_not_found
    wrap_failure mark_event_processed upsert_channel upsert_video create_video_update
    enqueue_video_enrichment create_job
serve_http-authentic_example =
    serve_http-authentic webhook signed (first_world [])
      (λ e. one-zero (ap (λ w. length w.db.webhook_events) e))

abbrev blocked_world : World
blocked_world = record (first_world []) { blocked_set = "dQw4w9WgXcQ" ∷ [] }

serve_http-blocked_example : serve_http webhook signed blocked_world ≡ (status_ok, blocked_world)
unfolding next_fault later_faults parse_atom_feed
serve_http-blocked_example =
    serve_http-blocked webhook signed "<feed>video</feed>" entry_video blocked_world refl refl refl
      refl refl refl refl
