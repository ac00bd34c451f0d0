-- ===== src/YouTube/Mapping.antt =====
-- internal/service/youtube/client.go: mapVideoToEnrichment, with a function for each part of the API's
-- video. Where the code reads through a nil pointer, which panics, the result is `none`.
use youtube_webhook_ingestio.Base.{
  String, Bool, Option, none, some, List, [], ◌∷◌, ◌==◌, if◌then◌else◌,
}
use youtube_webhook_ingestio.Base.Int64.{from_bits}
use youtube_webhook_ingestio.Models.{Time}
use youtube_webhook_ingestio.Models.Enrichment.{VideoEnrichment}
use youtube_webhook_ingestio.YouTube.Api.{
  Thumbnail, Thumbnails, Snippet, ContentDetails, Statistics, Status, GeoPoint, RecordingDetails,
  LiveStreamingDetails, ApiVideo,
}

-- strPtr
abbrev pub str_ptr : String → Option String
str_ptr s = if s == "" then none else some s

-- The enrichment before any part is mapped. A list that is nil is not told from an empty one: without a
-- snippet, the tags stay nil.
abbrev pub unmapped : ApiVideo → List String → String → VideoEnrichment
unmapped video parts etag = record {
  id = 0;
  video_id = video.id;
  description = none;
  duration = none;
  dimension = none;
  definition = none;
  caption = none;
  licensed_content = none;
  projection = none;
  thumbnail_default_url = none;
  thumbnail_default_width = none;
  thumbnail_default_height = none;
  thumbnail_medium_url = none;
  thumbnail_medium_width = none;
  thumbnail_medium_height = none;
  thumbnail_high_url = none;
  thumbnail_high_width = none;
  thumbnail_high_height = none;
  thumbnail_standard_url = none;
  thumbnail_standard_width = none;
  thumbnail_standard_height = none;
  thumbnail_maxres_url = none;
  thumbnail_maxres_width = none;
  thumbnail_maxres_height = none;
  view_count = none;
  like_count = none;
  dislike_count = none;
  favorite_count = none;
  comment_count = none;
  category_id = none;
  tags = [];
  default_language = none;
  default_audio_language = none;
  topic_categories = [];
  privacy_status = none;
  license = none;
  embeddable = none;
  public_stats_viewable = none;
  made_for_kids = none;
  self_declared_made_for_kids = none;
  upload_status = none;
  failure_reason = none;
  rejection_reason = none;
  live_broadcast_content = none;
  scheduled_start_time = none;
  actual_start_time = none;
  actual_end_time = none;
  concurrent_viewers = none;
  location_description = none;
  location_latitude = none;
  location_longitude = none;
  content_rating = none;
  channel_title = none;
  enriched_at = 0;
  api_response_etag = str_ptr etag;
  quota_cost = 1;
  api_parts_requested = parts;
  raw_api_response = ("id", video.id) ∷ ("etag", video.etag) ∷ ("kind", video.kind) ∷ [];
  created_at = 0;
  updated_at = 0;
}

abbrev default_thumbnail : Option Thumbnail → VideoEnrichment → VideoEnrichment
default_thumbnail none e = e
default_thumbnail (some t) e = record e {
  thumbnail_default_url = str_ptr t.url;
  thumbnail_default_width = some t.width;
  thumbnail_default_height = some t.height;
}

abbrev medium_thumbnail : Option Thumbnail → VideoEnrichment → VideoEnrichment
medium_thumbnail none e = e
medium_thumbnail (some t) e = record e {
  thumbnail_medium_url = str_ptr t.url;
  thumbnail_medium_width = some t.width;
  thumbnail_medium_height = some t.height;
}

abbrev high_thumbnail : Option Thumbnail → VideoEnrichment → VideoEnrichment
high_thumbnail none e = e
high_thumbnail (some t) e = record e {
  thumbnail_high_url = str_ptr t.url;
  thumbnail_high_width = some t.width;
  thumbnail_high_height = some t.height;
}

abbrev standard_thumbnail : Option Thumbnail → VideoEnrichment → VideoEnrichment
standard_thumbnail none e = e
standard_thumbnail (some t) e = record e {
  thumbnail_standard_url = str_ptr t.url;
  thumbnail_standard_width = some t.width;
  thumbnail_standard_height = some t.height;
}

abbrev maxres_thumbnail : Option Thumbnail → VideoEnrichment → VideoEnrichment
maxres_thumbnail none e = e
maxres_thumbnail (some t) e = record e {
  thumbnail_maxres_url = str_ptr t.url;
  thumbnail_maxres_width = some t.width;
  thumbnail_maxres_height = some t.height;
}

abbrev with_thumbnails : Option Thumbnails → VideoEnrichment → VideoEnrichment
with_thumbnails none e = e
with_thumbnails (some t) e = maxres_thumbnail t.maxres_size (
    standard_thumbnail t.standard_size (
      high_thumbnail t.high_size
        (medium_thumbnail t.medium_size (default_thumbnail t.default_size e))))

abbrev or_no_texts : Option (List String) → List String
or_no_texts none = []
or_no_texts (some texts) = texts

abbrev pub with_snippet : Option Snippet → VideoEnrichment → VideoEnrichment
with_snippet none e = e
with_snippet (some s) e = with_thumbnails s.thumbnails (record e {
  description = str_ptr s.description;
  channel_title = str_ptr s.channel_title;
  default_language = str_ptr s.default_language;
  default_audio_language = str_ptr s.default_audio_language;
  category_id = str_ptr s.category_id;
  tags = or_no_texts s.tags;
})

abbrev rating : Bool → Option (List (String × String))
rating b = if b then some [] else none

abbrev pub with_content_details : Option ContentDetails → VideoEnrichment → VideoEnrichment
with_content_details none e = e
with_content_details (some c) e = record e {
  duration = str_ptr c.duration;
  dimension = str_ptr c.dimension;
  definition = str_ptr c.definition;
  caption = str_ptr c.caption;
  licensed_content = some c.licensed_content;
  projection = str_ptr c.projection;
  content_rating = rating c.has_content_rating;
}

abbrev pub with_statistics : Option Statistics → VideoEnrichment → VideoEnrichment
with_statistics none e = e
with_statistics (some s) e = record e {
  view_count = some (from_bits s.view_count);
  like_count = some (from_bits s.like_count);
  dislike_count = some (from_bits s.dislike_count);
  favorite_count = some (from_bits s.favorite_count);
  comment_count = some (from_bits s.comment_count);
}

abbrev pub with_status : Option Status → VideoEnrichment → VideoEnrichment
with_status none e = e
with_status (some s) e = record e {
  upload_status = str_ptr s.upload_status;
  failure_reason = str_ptr s.failure_reason;
  rejection_reason = str_ptr s.rejection_reason;
  privacy_status = str_ptr s.privacy_status;
  license = str_ptr s.license;
  embeddable = some s.embeddable;
  public_stats_viewable = some s.public_stats_viewable;
  made_for_kids = some s.made_for_kids;
  self_declared_made_for_kids = some s.self_declared_made_for_kids;
}

abbrev with_location : Option GeoPoint → VideoEnrichment → VideoEnrichment
with_location none e = e
with_location (some p) e = record e {
  location_latitude = some p.latitude;
  location_longitude = some p.longitude;
}

abbrev pub with_recording_details : Option RecordingDetails → VideoEnrichment → VideoEnrichment
with_recording_details none e = e
with_recording_details (some r) e =
    with_location r.location (record e { location_description = str_ptr r.location_description })

-- A time that is empty or is not parsed is left out.
abbrev time_or_none : (String → Option Time) → String → Option Time
time_or_none parse_time s = if s == "" then none else parse_time s

-- The privacy status is read from the video's status, whether that is there or not.
unfoldable pub with_live_details :
    (String → Option Time)
    → Option Status
    → Option LiveStreamingDetails
    → VideoEnrichment
    → Option VideoEnrichment
with_live_details parse_time status none e = some e
with_live_details parse_time none (some l) e = none
with_live_details parse_time (some s) (some l) e = some (record e {
  live_broadcast_content = str_ptr s.privacy_status;
  concurrent_viewers = some (from_bits l.concurrent_viewers);
  scheduled_start_time = time_or_none parse_time l.scheduled_start_time;
  actual_start_time = time_or_none parse_time l.actual_start_time;
  actual_end_time = time_or_none parse_time l.actual_end_time;
})

-- The parts that are mapped before the live streaming details
unfoldable pub with_parts : ApiVideo → VideoEnrichment → VideoEnrichment
with_parts video e =
    with_recording_details video.recording_details
      (record (with_status video.status (
        with_statistics video.statistics
          (with_content_details video.content_details (with_snippet video.snippet e)))) {
            topic_categories = or_no_texts video.topic_categories;
          })

-- mapVideoToEnrichment
unfoldable pub map_video_to_enrichment :
    (String → Option Time) → ApiVideo → List String → String → Option VideoEnrichment
map_video_to_enrichment parse_time video parts etag =
    with_live_details parse_time video.status video.live_streaming_details
      (with_parts video (unmapped video parts etag))
