-- ===== src/Models/New.antt =====
-- The constructors of internal/db/models, at the time that `time.Now()` returns. A row's id is given
-- by the database, and is 0 until then.
use youtube_webhook_ingestio.Base.{ℕ, String, false, Option, none, some, ◌==◌, if◌then◌else◌}
use youtube_webhook_ingestio.Models.{Time, WebhookEvent, Channel, Video, UpdateType, VideoUpdate}

-- sqlNullString of internal/db/models/webhook_event.go
unfoldable pub sql_null_string : String → Option String
sql_null_string s = if s == "" then none else some s

-- models.NewWebhookEvent at the time `now`. The database gives the id.
unfoldable pub new_webhook_event : Time → String → String → String → String → WebhookEvent
unfolding sql_null_string
new_webhook_event now raw_xml content_hash video_id channel_id = record {
  id = 0;
  raw_xml = raw_xml;
  content_hash = content_hash;
  received_at = now;
  processed = false;
  processed_at = none;
  processing_error = none;
  video_id = sql_null_string video_id;
  channel_id = sql_null_string channel_id;
  created_at = now;
}

-- models.NewChannel
unfoldable pub new_channel : Time → String → String → String → Channel
new_channel now channel_id title channel_url = record {
  channel_id = channel_id;
  title = title;
  channel_url = channel_url;
  first_seen_at = now;
  last_updated_at = now;
  created_at = now;
  updated_at = now;
}

-- models.NewVideo
unfoldable pub new_video : Time → String → String → String → String → Time → Video
new_video now video_id channel_id title video_url published_at = record {
  video_id = video_id;
  channel_id = channel_id;
  title = title;
  video_url = video_url;
  published_at = published_at;
  first_seen_at = now;
  last_updated_at = now;
  created_at = now;
  updated_at = now;
}

-- models.NewVideoUpdate
unfoldable pub new_video_update :
    Time → ℕ → String → String → String → Time → Time → UpdateType → VideoUpdate
new_video_update now event_id video_id channel_id title published_at feed_updated_at kind = record {
  id = 0;
  webhook_event_id = event_id;
  video_id = video_id;
  channel_id = channel_id;
  title = title;
  published_at = published_at;
  feed_updated_at = feed_updated_at;
  update_type = kind;
  created_at = now;
}
