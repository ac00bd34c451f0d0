-- ===== src/Tests.antt =====
-- Concrete runs of the modelled code: the data they share, and a child module for each part.
mod Notifications
mod Requests
mod Keys
mod Blocking
mod Usage
mod Hub
mod YouTube
mod Subscriptions
mod Enrichment
mod Jobs
mod Sponsors
mod Resolver
mod Listings
use Prim.Native.String.{◌++◌ as ◌<>◌}
use youtube_webhook_ingestio.Base.{
  ℕ, String, Bool, true, false, Option, none, some, List, [], ◌∷◌, ◌==◌, if◌then◌else◌,
}
use youtube_webhook_ingestio.Errors.{plain}
use youtube_webhook_ingestio.World.{World, Db, Fault}
use youtube_webhook_ingestio.World.Action.{Result, ok, err}
use youtube_webhook_ingestio.Externals.{Externals}
use youtube_webhook_ingestio.Parser.{AtomEntry, AtomFeed, VideoData}
use youtube_webhook_ingestio.Processor.{EventProcessor}
use youtube_webhook_ingestio.Webhook.{WebhookHandler}

abbrev pub entry : AtomEntry
entry = record {
  video_id = "dQw4w9WgXcQ";
  channel_id = "UCuAXFkgsw1L7xaCfnd5JJOw";
  title = "A title";
  link = record { rel = "alternate"; href = "" };
  published = 100;
  updated = 120;
}

-- What the parser returns for `entry`.
abbrev pub entry_video : VideoData
entry_video = record {
  video_id = "dQw4w9WgXcQ";
  channel_id = "UCuAXFkgsw1L7xaCfnd5JJOw";
  title = "A title";
  video_url = "https://www.youtube.com/watch?v=dQw4w9WgXcQ";
  published_at = 100;
  updated_at = 120;
  is_deleted = false;
}

abbrev pub unmarshal : String → Result AtomFeed
unmarshal s =
    if s == "<feed>video</feed>"
    then ok (record { entry = some entry; deleted = none })
    else if s == "<feed>deleted</feed>"
    then ok (record {
      entry = none;
      deleted = some (record { ref = "yt:video:dQw4w9WgXcQ"; when = 130 });
    })
    else err (plain "EOF")

abbrev pub externals : Externals
externals = record {
  unmarshal = unmarshal;
  content_hash = λ s. "hash of " <> s;
  hmac_sha1_hex = λ key s. key <> " signs " <> s;
  task_id = λ n. "task";
  rfc3339 = λ t. "2024-01-01T00:00:00Z";
}

abbrev pub processor : EventProcessor
processor = record { externals = externals; has_queue = true }

abbrev pub webhook : WebhookHandler
webhook = record { processor = processor; has_cache = true; secret = "secret" }

abbrev pub no_rows_yet : Db
no_rows_yet = record {
  webhook_events = [];
  channels = [];
  videos = [];
  video_updates = [];
  enrichment_jobs = [];
  blocked_videos = [];
  api_quota_usage = [];
  pubsub_subscriptions = [];
  video_api_enrichments = [];
  channel_api_enrichments = [];
  sponsor_detection_prompts = [];
  sponsors = [];
  sponsor_detection_jobs = [];
  video_sponsors = [];
  next_event_id = 1;
  next_update_id = 1;
  next_job_id = 1;
  next_blocked_id = 1;
  next_subscription_id = 1;
  next_enrichment_id = 1;
  next_channel_enrichment_id = 1;
  next_prompt_id = 1;
  next_sponsor_id = 1;
  next_detection_job_id = 1;
  next_video_sponsor_id = 1;
}

abbrev pub first_world : List Fault → World
first_world faults = record {
  db = no_rows_yet;
  blocked_set = "9bZkp7q19f0" ∷ [];
  tasks = [];
  faults = faults;
  clock = 200;
  delays = 3 ∷ 2 ∷ [];
}
