-- ===== src/Models/Enrichment.antt =====
-- VideoEnrichment and ChannelEnrichment of internal/model/enrichment.go. A float64 is carried along by its 64 bits. The rating
-- is only ever an empty object or none, and the raw response an object of texts.
use youtube_webhook_ingestio.Base.{ℕ, ℤ, String, Bool, List, Option}
use youtube_webhook_ingestio.Models.{Time}

pub record VideoEnrichment : Type 0 where
  pub id : ℕ
  pub video_id : String
  pub description : Option String
  pub duration : Option String
  pub dimension : Option String
  pub definition : Option String
  pub caption : Option String
  pub licensed_content : Option Bool
  pub projection : Option String
  pub thumbnail_default_url : Option String
  pub thumbnail_default_width : Option ℤ
  pub thumbnail_default_height : Option ℤ
  pub thumbnail_medium_url : Option String
  pub thumbnail_medium_width : Option ℤ
  pub thumbnail_medium_height : Option ℤ
  pub thumbnail_high_url : Option String
  pub thumbnail_high_width : Option ℤ
  pub thumbnail_high_height : Option ℤ
  pub thumbnail_standard_url : Option String
  pub thumbnail_standard_width : Option ℤ
  pub thumbnail_standard_height : Option ℤ
  pub thumbnail_maxres_url : Option String
  pub thumbnail_maxres_width : Option ℤ
  pub thumbnail_maxres_height : Option ℤ
  pub view_count : Option ℤ
  pub like_count : Option ℤ
  pub dislike_count : Option ℤ
  pub favorite_count : Option ℤ
  pub comment_count : Option ℤ
  pub category_id : Option String
  pub tags : List String
  pub default_language : Option String
  pub default_audio_language : Option String
  pub topic_categories : List String
  pub privacy_status : Option String
  pub license : Option String
  pub embeddable : Option Bool
  pub public_stats_viewable : Option Bool
  pub made_for_kids : Option Bool
  pub self_declared_made_for_kids : Option Bool
  pub upload_status : Option String
  pub failure_reason : Option String
  pub rejection_reason : Option String
  pub live_broadcast_content : Option String
  pub scheduled_start_time : Option Time
  pub actual_start_time : Option Time
  pub actual_end_time : Option Time
  pub concurrent_viewers : Option ℤ
  pub location_description : Option String
  pub location_latitude : Option ℕ
  pub location_longitude : Option ℕ
  pub content_rating : Option (List (String × String))
  pub channel_title : Option String
  pub enriched_at : Time
  pub api_response_etag : Option String
  pub quota_cost : ℕ
  pub api_parts_requested : List String
  pub raw_api_response : List (String × String)
  pub created_at : Time
  pub updated_at : Time

-- ChannelEnrichment
pub record ChannelEnrichment : Type 0 where
  pub id : ℕ
  pub channel_id : String
  pub description : Option String
  pub custom_url : Option String
  pub country : Option String
  pub published_at : Option Time
  pub thumbnail_default_url : Option String
  pub thumbnail_medium_url : Option String
  pub thumbnail_high_url : Option String
  pub view_count : Option ℤ
  pub subscriber_count : Option ℤ
  pub video_count : Option ℤ
  pub hidden_subscriber_count : Option Bool
  pub banner_image_url : Option String
  pub keywords : Option String
  pub related_playlists_likes : Option String
  pub related_playlists_uploads : Option String
  pub related_playlists_favorites : Option String
  pub topic_categories : List String
  pub privacy_status : Option String
  pub is_linked : Option Bool
  pub long_uploads_status : Option String
  pub made_for_kids : Option Bool
  pub enriched_at : Time
  pub api_response_etag : Option String
  pub quota_cost : ℕ
  pub api_parts_requested : List String
  pub raw_api_response : List (String × String)
  pub created_at : Time
  pub updated_at : Time
