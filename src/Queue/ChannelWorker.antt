-- ===== src/Queue/ChannelWorker.antt =====
-- internal/queue/handler.go: the handler of channel enrichment tasks.
use youtube_webhook_ingestio.Base.{
  ℤ, pos, negsuc, zero, suc, String, Bool, true, false, Option, none, some, [], ◌∷◌, ◌==◌,
  if◌then◌else◌,
}
use youtube_webhook_ingestio.Errors.{plain, wrapped, error_text}
use youtube_webhook_ingestio.Models.{Time, EnrichmentJob, QuotaInfo}
use youtube_webhook_ingestio.Models.Enrichment.{ChannelEnrichment}
use youtube_webhook_ingestio.World.{EnrichChannelPayload}
use youtube_webhook_ingestio.World.Action.{
  Result, ok, err, Action, fail, lift, attempt, context, now, ◌>>=◌, ◌>>◌,
}
use youtube_webhook_ingestio.Repository.Jobs.{
  get_job_by_asynq_id, mark_job_processing, mark_job_completed,
}
use youtube_webhook_ingestio.Repository.ChannelEnrichments.{create_channel_enrichment}
use youtube_webhook_ingestio.Quota.{check_quota_available}
use youtube_webhook_ingestio.YouTube.Channels.{ChannelDetails, get_channel_details}
use youtube_webhook_ingestio.Queue.Worker.{
  EnrichmentHandler, job_or_none, on_job, fail_job, exhausted_text,
}

-- strPtrIfNotEmpty
abbrev pub text_if_not_empty : String → Option String
text_if_not_empty s = if s == "" then none else some s

-- int64PtrIfNotZero
abbrev pub number_if_not_zero : ℤ → Option ℤ
number_if_not_zero (pos zero) = none
number_if_not_zero (pos (suc n)) = some (pos (suc n))
number_if_not_zero (negsuc n) = some (negsuc n)

-- mapYouTubeChannelEnrichmentToModel, at the time of its time.Now()
unfoldable pub channel_model : Time → ChannelDetails → ChannelEnrichment
channel_model time yt = record {
  id = 0;
  channel_id = yt.channel_id;
  description = text_if_not_empty yt.description;
  custom_url = text_if_not_empty yt.custom_url;
  country = text_if_not_empty yt.country;
  published_at = some yt.published_at;
  thumbnail_default_url = text_if_not_empty yt.thumbnail_default_url;
  thumbnail_medium_url = text_if_not_empty yt.thumbnail_medium_url;
  thumbnail_high_url = text_if_not_empty yt.thumbnail_high_url;
  view_count = number_if_not_zero yt.view_count;
  subscriber_count = number_if_not_zero yt.subscriber_count;
  video_count = number_if_not_zero yt.video_count;
  hidden_subscriber_count = none;
  banner_image_url = text_if_not_empty yt.banner_image_url;
  keywords = text_if_not_empty yt.keywords;
  related_playlists_likes = none;
  related_playlists_uploads = none;
  related_playlists_favorites = none;
  topic_categories = [];
  privacy_status = none;
  is_linked = none;
  long_uploads_status = none;
  made_for_kids = none;
  enriched_at = time;
  api_response_etag = text_if_not_empty yt.api_response_etag;
  quota_cost = yt.quota_cost;
  api_parts_requested = "snippet" ∷ "contentDetails" ∷ "statistics" ∷ "brandingSettings" ∷ [];
  raw_api_response = [];
  created_at = 0;
  updated_at = 0;
}

unfoldable pub channel_stored : Option EnrichmentJob → Result ChannelEnrichment → Action (Unit {0})
channel_stored job (err e) =
    fail_job job (error_text e) (wrapped "failed to store channel enrichment: " e "")
channel_stored job (ok enrichment) = on_job job mark_job_completed

unfoldable pub store_channel : Option EnrichmentJob → ChannelDetails → Action (Unit {0})
unfolding ◌>>=◌
store_channel job yt = do
  time ← now
  created ← attempt (create_channel_enrichment (channel_model time yt))
  channel_stored job created

unfoldable pub channel_fetched : Option EnrichmentJob → Result ChannelDetails → Action (Unit {0})
channel_fetched job (err e) =
    fail_job job (error_text e) (wrapped "failed to fetch channel from YouTube API: " e "")
channel_fetched job (ok yt) = store_channel job yt

unfoldable pub channel_if_available :
    EnrichmentHandler
    → EnrichChannelPayload
    → Option EnrichmentJob
    → Bool
    → QuotaInfo
    → Action (Unit {0})
unfolding ◌>>=◌
channel_if_available h payload job false info = fail (plain (exhausted_text info))
channel_if_available h payload job true info =
    attempt (get_channel_details h.youtube_client payload.channel_id) >>= channel_fetched job

unfoldable pub enrich_channel_tracked :
    EnrichmentHandler → EnrichChannelPayload → Option EnrichmentJob → Action (Unit {0})
unfolding ◌>>=◌
enrich_channel_tracked h payload job = do
  on_job job mark_job_processing
  answer ← context "failed to check quota" (check_quota_available h.quota_manager 1)
  channel_if_available h payload job answer.0 answer.1

unfoldable pub process_channel_payload :
    EnrichmentHandler → String → EnrichChannelPayload → Action (Unit {0})
unfolding ◌>>=◌
process_channel_payload h task_id payload = do
  job ← attempt (get_job_by_asynq_id task_id)
  enrich_channel_tracked h payload (job_or_none job)

-- HandleEnrichChannelTask, on the ID of the task and what UnmarshalEnrichChannelPayload returns
unfoldable pub handle_enrich_channel_task :
    EnrichmentHandler → String → Result EnrichChannelPayload → Action (Unit {0})
unfolding ◌>>=◌
handle_enrich_channel_task h task_id payload =
    context "failed to unmarshal payload" (lift payload) >>= process_channel_payload h task_id
