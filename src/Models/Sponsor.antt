-- ===== src/Models/Sponsor.antt =====
-- internal/db/models/sponsor_detection.go. A UUID is a number; a confidence is a number of ten-thousandths,
-- to which the column NUMERIC(5,4) rounds it.
use youtube_webhook_ingestio.Base.{ℕ, ℤ, String, Option}
use youtube_webhook_ingestio.Models.{Time}

pub record SponsorDetectionPrompt : Type 0 where
  pub id : ℕ
  pub prompt_text : String
  pub prompt_hash : String
  pub version : Option String
  pub description : Option String
  pub usage_count : ℕ
  pub created_at : Time

pub record Sponsor : Type 0 where
  pub id : ℕ
  pub name : String
  pub normalized_name : String
  pub category : Option String
  pub website_url : Option String
  pub description : Option String
  pub first_seen_at : Time
  pub last_seen_at : Time
  pub video_count : ℕ
  pub created_at : Time
  pub updated_at : Time

pub record SponsorDetectionJob : Type 0 where
  pub id : ℕ
  pub video_id : String
  pub prompt_id : Option ℕ
  pub llm_model : String
  pub llm_response_raw : Option String
  pub sponsors_detected_count : ℕ
  pub processing_time_ms : Option ℕ
  pub status : String
  pub error_message : Option String
  pub detected_at : Option Time
  pub created_at : Time
  pub updated_at : Time

pub record VideoSponsor : Type 0 where
  pub id : ℕ
  pub video_id : String
  pub sponsor_id : ℕ
  pub detection_job_id : ℕ
  pub confidence : ℤ
  pub evidence : String
  pub detected_at : Time
  pub created_at : Time
  pub updated_at : Time

-- VideoSponsorDetail
pub record VideoSponsorDetail : Type 0 where
  pub video_sponsor : VideoSponsor
  pub sponsor_name : String
  pub sponsor_category : Option String

-- LLMSponsorResult
pub record LlmSponsorResult : Type 0 where
  pub name : String
  pub confidence : ℤ
  pub evidence : String
