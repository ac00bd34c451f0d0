-- ===== src/Models.antt =====
-- internal/db/models and internal/model: the rows of the tables. A `time.Time` is the number of
-- seconds since an epoch that lies before every value; a nullable column is an `Option`.
pub mod New
pub mod Enrichment
pub mod Sponsor
use youtube_webhook_ingestio.Base.{ℕ, ℤ, String, Bool, List, Option}

abbrev pub Time : Type 0
Time = ℕ

pub record WebhookEvent : Type 0 where
  pub id : ℕ
  pub raw_xml : String
  pub content_hash : String
  pub received_at : Time
  pub processed : Bool
  pub processed_at : Option Time
  pub processing_error : Option String
  pub video_id : Option String
  pub channel_id : Option String
  pub created_at : Time

pub record Channel : Type 0 where
  pub channel_id : String
  pub title : String
  pub channel_url : String
  pub first_seen_at : Time
  pub last_updated_at : Time
  pub created_at : Time
  pub updated_at : Time

pub record Video : Type 0 where
  pub video_id : String
  pub channel_id : String
  pub title : String
  pub video_url : String
  pub published_at : Time
  pub first_seen_at : Time
  pub last_updated_at : Time
  pub created_at : Time
  pub updated_at : Time

pub data UpdateType : Type 0 where
  new_video title_update description_update unknown : UpdateType

pub record VideoUpdate : Type 0 where
  pub id : ℕ
  pub webhook_event_id : ℕ
  pub video_id : String
  pub channel_id : String
  pub title : String
  pub published_at : Time
  pub feed_updated_at : Time
  pub update_type : UpdateType
  pub created_at : Time

pub data JobStatus : Type 0 where
  pending processing completed failed cancelled : JobStatus

-- model.EnrichmentJob, less `next_retry_at`, which no statement of the program writes.
pub record EnrichmentJob : Type 0 where
  pub id : ℕ
  pub asynq_task_id : Option String
  pub job_type : String
  pub video_id : String
  pub status : JobStatus
  pub priority : ℕ
  pub scheduled_at : Time
  pub started_at : Option Time
  pub completed_at : Option Time
  pub attempts : ℕ
  pub max_attempts : ℕ
  pub error_message : Option String
  pub error_stack_trace : Option String
  pub metadata : List (String × String)
  pub created_at : Time
  pub updated_at : Time

-- internal/db/models/blocked_video.go
pub record BlockedVideo : Type 0 where
  pub id : ℕ
  pub video_id : String
  pub reason : String
  pub created_at : Time
  pub created_by : Option String

-- APIQuotaUsage of internal/model/enrichment.go, without its id and the times that the code does not
-- read; `date` counts days.
pub record ApiQuotaUsage : Type 0 where
  pub date : ℕ
  pub quota_used : ℕ
  pub quota_limit : ℕ
  pub operations_count : ℕ
  pub videos_list_calls : ℕ
  pub channels_list_calls : ℕ
  pub search_list_calls : ℕ
  pub other_calls : ℕ

-- QuotaInfo of internal/model/enrichment.go; `quota_remaining` is `quota_limit` less `quota_used`, which
-- may be below zero.
pub record QuotaInfo : Type 0 where
  pub quota_used : ℕ
  pub quota_limit : ℕ
  pub quota_remaining : ℤ
  pub operations_count : ℕ

-- internal/db/models/subscription.go
pub record Subscription : Type 0 where
  pub id : ℕ
  pub channel_id : String
  pub topic_url : String
  pub hub_url : String
  pub lease_seconds : ℤ
  pub expires_at : Time
  pub status : String
  pub last_verified_at : Option Time
  pub created_at : Time
  pub updated_at : Time
