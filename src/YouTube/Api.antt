-- ===== src/YouTube/Api.antt =====
-- The video of the YouTube Data API, with the fields that internal/service/youtube/client.go reads: a part
-- that the response does not have is `none`. Counts are uint64, sizes int64.
use youtube_webhook_ingestio.Base.{ℕ, ℤ, String, Bool, List, Option}

pub record Thumbnail : Type 0 where
  pub url : String
  pub width : ℤ
  pub height : ℤ

pub record Thumbnails : Type 0 where
  pub default_size : Option Thumbnail
  pub medium_size : Option Thumbnail
  pub high_size : Option Thumbnail
  pub standard_size : Option Thumbnail
  pub maxres_size : Option Thumbnail

pub record Snippet : Type 0 where
  pub description : String
  pub channel_title : String
  pub default_language : String
  pub default_audio_language : String
  pub category_id : String
  pub tags : Option (List String)
  pub thumbnails : Option Thumbnails

pub record ContentDetails : Type 0 where
  pub duration : String
  pub dimension : String
  pub definition : String
  pub caption : String
  pub licensed_content : Bool
  pub projection : String
  pub has_content_rating : Bool

pub record Statistics : Type 0 where
  pub view_count : ℕ
  pub like_count : ℕ
  pub dislike_count : ℕ
  pub favorite_count : ℕ
  pub comment_count : ℕ

pub record Status : Type 0 where
  pub upload_status : String
  pub failure_reason : String
  pub rejection_reason : String
  pub privacy_status : String
  pub license : String
  pub embeddable : Bool
  pub public_stats_viewable : Bool
  pub made_for_kids : Bool
  pub self_declared_made_for_kids : Bool

pub record GeoPoint : Type 0 where
  pub latitude : ℕ
  pub longitude : ℕ

pub record RecordingDetails : Type 0 where
  pub location_description : String
  pub location : Option GeoPoint

pub record LiveStreamingDetails : Type 0 where
  pub concurrent_viewers : ℕ
  pub scheduled_start_time : String
  pub actual_start_time : String
  pub actual_end_time : String

pub record ApiVideo : Type 0 where
  pub id : String
  pub etag : String
  pub kind : String
  pub snippet : Option Snippet
  pub content_details : Option ContentDetails
  pub statistics : Option Statistics
  pub status : Option Status
  -- the categories of the topic details, if both are there
  pub topic_categories : Option (List String)
  pub recording_details : Option RecordingDetails
  pub live_streaming_details : Option LiveStreamingDetails

-- VideoListResponse
pub record VideoListResponse : Type 0 where
  pub etag : String
  pub items : List ApiVideo

pub record ChannelSnippet : Type 0 where
  pub title : String
  pub description : String
  pub custom_url : String
  pub country : String
  pub published_at : String
  pub thumbnails : Option Thumbnails

pub record ChannelStatistics : Type 0 where
  pub view_count : ℕ
  pub subscriber_count : ℕ
  pub video_count : ℕ

-- the keywords of the branding's channel and the banner of its image, if these are there
pub record Branding : Type 0 where
  pub channel_keywords : Option String
  pub image_banner_url : Option String

pub record ApiChannel : Type 0 where
  pub id : String
  pub snippet : Option ChannelSnippet
  pub statistics : Option ChannelStatistics
  pub branding : Option Branding

-- ChannelListResponse
pub record ChannelListResponse : Type 0 where
  pub etag : String
  pub items : List ApiChannel
