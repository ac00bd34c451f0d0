-- ===== src/Tests/Enrichment.antt =====
-- Runs of the enrichment worker and of the look-ups of the YouTube client.
use youtube_webhook_ingestio.Base.{◌+◌, ◌/◌, none, some, [], ◌∷◌, ◌≡◌, refl, arith}
use youtube_webhook_ingestio.Errors.{plain}
use youtube_webhook_ingestio.Models.{EnrichmentJob, Video, pending}
use youtube_webhook_ingestio.World.{World, EnrichVideoPayload, calm}
use youtube_webhook_ingestio.World.Action.{ok, err}
use youtube_webhook_ingestio.Quota.{Manager, threshold_quota}
use youtube_webhook_ingestio.Quota.Threshold.{used_today}
use youtube_webhook_ingestio.YouTube.Api.{ApiVideo, LiveStreamingDetails, ApiChannel}
use youtube_webhook_ingestio.YouTube.Mapping.{map_video_to_enrichment}
use youtube_webhook_ingestio.YouTube.Client.{Api}
use youtube_webhook_ingestio.YouTube.Channels.{ChannelDetails, map_channel}
use youtube_webhook_ingestio.YouTube.Url.{Urls, resolve_channel_by_url}
use youtube_webhook_ingestio.Queue.Worker.Panicking.{paid, process_task-panics}
use youtube_webhook_ingestio.YouTube.Accounting.{resolve_channel_by_url-accounted}
use youtube_webhook_ingestio.Repository.Jobs.{find_job}
use youtube_webhook_ingestio.Queue.Worker.{EnrichmentHandler, process_task, exhausted_text}
use youtube_webhook_ingestio.Queue.Worker.Enriched.{Enriched, process_task-Enriched}
use youtube_webhook_ingestio.Queue.Worker.Exhausted.{info_today, started, process_task-exhausted}
use youtube_webhook_ingestio.Tests.{no_rows_yet, first_world}
use youtube_webhook_ingestio.Queue.Worker.{
  process_payload, enrich_tracked, on_job, if_available, fetched, on_enrichments, complete, store,
  stored, trigger_callbacks,
}
use youtube_webhook_ingestio.World.Action.{context, attempt, lift, now, pure, remote, ◌>>=◌}
use youtube_webhook_ingestio.Repository.Jobs.{
  get_job_by_asynq_id, select_job, mark_job_processing, mark_job_completed, update_job,
}
use youtube_webhook_ingestio.Quota.{check_quota_available, is_available, record_quota_usage}
use youtube_webhook_ingestio.Repository.Quota.{
  get_todays_quota, select_todays_quota, find_day, increment_quota, increment_todays_quota,
  add_usage,
}
use youtube_webhook_ingestio.YouTube.Client.{fetch_videos, track_quota, track_with, map_items}
use youtube_webhook_ingestio.YouTube.Mapping.{with_live_details, with_parts}
use youtube_webhook_ingestio.Repository.Enrichments.{create_enrichment, insert_enrichment}
use youtube_webhook_ingestio.Repository.Statement.{statement}
use youtube_webhook_ingestio.Table.{find}
use youtube_webhook_ingestio.YouTube.Url.{
  parse_youtube_url, identify_url, contains, identify, first_segment, resolve_identifier,
}
use youtube_webhook_ingestio.Base.Text.{has_prefix, cut_prefix, trim_prefix}
use youtube_webhook_ingestio.Base.Decimal.{cut}
use youtube_webhook_ingestio.YouTube.Channels.{
  resolve_channel_by_handle, search_by_handle, details_at_cost, get_channel_details,
}

abbrev pub manager : Manager
manager = record { day = λ t. t / 86400; daily_limit = 10000; threshold_percent = 90 }

abbrev api_video : ApiVideo
api_video = record {
  id = "dQw4w9WgXcQ";
  etag = "v";
  kind = "youtube#video";
  snippet = none;
  content_details = none;
  statistics = some (record {
    view_count = 1500000000;
    like_count = 17000000;
    dislike_count = 0;
    favorite_count = 0;
    comment_count = 2300000;
  });
  status = none;
  topic_categories = none;
  recording_details = none;
  live_streaming_details = none;
}

abbrev channel : ApiChannel
channel = record {
  id = "UCuAXFkgsw1L7xaCfnd5JJOw";
  snippet = none;
  statistics = none;
  branding = none;
}

abbrev pub api : Api
api = record {
  videos_list = λ ids. ok (record { etag = "e"; items = api_video ∷ [] });
  channels_by_id = λ id. ok (record { etag = "e"; items = channel ∷ [] });
  channels_by_handle = λ handle. ok (record { etag = "e"; items = channel ∷ [] });
  channels_by_username = λ name. err (plain "not found");
  search_channels = λ text. ok ("UCuAXFkgsw1L7xaCfnd5JJOw" ∷ []);
  parse_time = λ s. none;
}

abbrev worker : EnrichmentHandler
worker = record {
  youtube_client = record { api = api; quota_tracker = some manager };
  quota_manager = manager;
  callbacks = [];
}

abbrev payload : EnrichVideoPayload
payload = record {
  video_id = "dQw4w9WgXcQ";
  channel_id = "UCuAXFkgsw1L7xaCfnd5JJOw";
  priority = 0;
  metadata = [];
}

abbrev video : Video
video = record {
  video_id = "dQw4w9WgXcQ";
  channel_id = "UCuAXFkgsw1L7xaCfnd5JJOw";
  title = "A title";
  video_url = "https://www.youtube.com/watch?v=dQw4w9WgXcQ";
  published_at = 100;
  first_seen_at = 150;
  last_updated_at = 150;
  created_at = 150;
  updated_at = 150;
}

abbrev job : EnrichmentJob
job = record {
  id = 1;
  asynq_task_id = some "task";
  job_type = "enrichment:video";
  video_id = "dQw4w9WgXcQ";
  status = pending;
  priority = 0;
  scheduled_at = 150;
  started_at = none;
  completed_at = none;
  attempts = 0;
  max_attempts = 3;
  error_message = none;
  error_stack_trace = none;
  metadata = [];
  created_at = 150;
  updated_at = 150;
}

abbrev pub queued : World
queued = record (first_world []) {
  db = record no_rows_yet { videos = video ∷ []; enrichment_jobs = job ∷ []; next_job_id = 2 };
}

abbrev used_up : World
used_up = record queued {
  db = record queued.db {
    api_quota_usage =
        record {
          date = 0;
          quota_used = 9000;
          quota_limit = 10000;
          operations_count = 9000;
          videos_list_calls = 9000;
          channels_list_calls = 0;
          search_list_calls = 0;
          other_calls = 0;
        }
        ∷ [];
  };
}

process_task-Enriched_example :
    Enriched worker "dQw4w9WgXcQ" queued (process_task worker "task" (ok payload) queued).1
unfolding process_task process_payload enrich_tracked on_job if_available fetched on_enrichments
    complete store stored trigger_callbacks context attempt lift now pure remote ◌>>=◌
    get_job_by_asynq_id select_job find_job mark_job_processing mark_job_completed update_job
    check_quota_available is_available threshold_quota record_quota_usage get_todays_quota
    select_todays_quota find_day increment_quota increment_todays_quota add_usage fetch_videos
    track_quota track_with map_items map_video_to_enrichment with_live_details with_parts
    create_enrichment insert_enrichment statement find
process_task-Enriched_example =
    process_task-Enriched worker "task" payload queued
      (process_task worker "task" (ok payload) queued).1 tt refl

process_task-exhausted_example :
    process_task worker "task" (ok payload) (calm used_up)
    ≡ (err (plain (exhausted_text (info_today manager used_up))), calm (started 1 used_up))
unfolding find_job threshold_quota find_day
process_task-exhausted_example =
    process_task-exhausted worker "task" payload job used_up refl (ground arith)

abbrev live : LiveStreamingDetails
live = record {
  concurrent_viewers = 12;
  scheduled_start_time = "";
  actual_start_time = "";
  actual_end_time = "";
}

-- a live stream without a status, behind another video
abbrev live_worker : EnrichmentHandler
live_worker = record worker {
  youtube_client = record {
    api = record api {
      videos_list = λ ids. ok (record {
        etag = "e";
        items = api_video ∷ (record api_video { live_streaming_details = some live }) ∷ [];
      });
    };
    quota_tracker = some manager;
  };
}

process_task-panics_example : process_task live_worker "task" (ok payload) (calm queued) ≡ (
  err (plain "panic: runtime error: invalid memory address or nil pointer dereference"),
  calm (paid manager (started 1 queued)),
)
unfolding find_job threshold_quota find_day
process_task-panics_example =
    process_task-panics live_worker "task" payload job queued manager "e" (api_video ∷ []) []
      (record api_video { live_streaming_details = some live }) live refl (ground arith) refl refl
      refl refl

abbrev pub urls : Urls
urls = record {
  trim_space = λ s. s;
  to_lower = λ s. s;
  parse = λ s. ok (record { host = "www.youtube.com"; path = "/@RickAstleyYT" });
}

abbrev pub resolved : ChannelDetails
resolved = record (map_channel api.parse_time "e" channel) { quota_cost = 2 }

abbrev after_resolution : World
after_resolution =
    (resolve_channel_by_url urls (record { api = api; quota_tracker = some manager })
      "https://www.youtube.com/@RickAstleyYT" (calm queued)).1

resolve_channel_by_url-accounted_example :
    used_today manager after_resolution ≡ used_today manager queued + resolved.quota_cost
unfolding resolve_channel_by_url parse_youtube_url identify_url contains identify first_segment
    resolve_identifier has_prefix cut_prefix trim_prefix cut resolve_channel_by_handle
    search_by_handle track_quota track_with details_at_cost get_channel_details record_quota_usage
    increment_quota get_todays_quota context attempt lift pure remote ◌>>=◌ statement
resolve_channel_by_url-accounted_example =
    resolve_channel_by_url-accounted api manager urls "https://www.youtube.com/@RickAstleyYT" queued
      after_resolution resolved refl
