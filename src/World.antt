-- ===== src/World.antt =====
-- What the program's processes share: the PostgreSQL tables, the Redis set of blocked videos and
-- the asynq queue, together with what the environment decides: the faults of the coming calls and
-- the passing of time.
pub mod Action
pub mod Keeps
pub mod Yields
pub mod Fails
use youtube_webhook_ingestio.Base.{ℕ, String, List, []}
use youtube_webhook_ingestio.Models.{
  Time, WebhookEvent, Channel, Video, VideoUpdate, EnrichmentJob, BlockedVideo, ApiQuotaUsage,
  Subscription,
}
use youtube_webhook_ingestio.Models.Enrichment.{VideoEnrichment, ChannelEnrichment}
use youtube_webhook_ingestio.Models.Sponsor.{
  SponsorDetectionPrompt, Sponsor, SponsorDetectionJob, VideoSponsor,
}

-- The tables of migrations/ that the modelled code writes; `next_…` are the sequences of their ids,
-- and stand for gen_random_uuid() where the ids are UUIDs.
pub record Db : Type 0 where
  pub webhook_events : List WebhookEvent
  pub channels : List Channel
  pub videos : List Video
  pub video_updates : List VideoUpdate
  pub enrichment_jobs : List EnrichmentJob
  pub blocked_videos : List BlockedVideo
  pub api_quota_usage : List ApiQuotaUsage
  pub pubsub_subscriptions : List Subscription
  pub video_api_enrichments : List VideoEnrichment
  pub channel_api_enrichments : List ChannelEnrichment
  pub sponsor_detection_prompts : List SponsorDetectionPrompt
  pub sponsors : List Sponsor
  pub sponsor_detection_jobs : List SponsorDetectionJob
  pub video_sponsors : List VideoSponsor
  pub next_event_id : ℕ
  pub next_update_id : ℕ
  pub next_job_id : ℕ
  pub next_blocked_id : ℕ
  pub next_subscription_id : ℕ
  pub next_enrichment_id : ℕ
  pub next_channel_enrichment_id : ℕ
  pub next_prompt_id : ℕ
  pub next_sponsor_id : ℕ
  pub next_detection_job_id : ℕ
  pub next_video_sponsor_id : ℕ

-- internal/queue/tasks.go: EnrichVideoPayload
pub record EnrichVideoPayload : Type 0 where
  pub video_id : String
  pub channel_id : String
  pub priority : ℕ
  pub metadata : List (String × String)

-- internal/queue/tasks.go: EnrichChannelPayload
pub record EnrichChannelPayload : Type 0 where
  pub channel_id : String
  pub priority : ℕ
  pub metadata : List (String × String)

-- internal/queue/tasks.go: SponsorDetectionPayload
pub record SponsorDetectionPayload : Type 0 where
  pub video_id : String
  pub title : String
  pub description : String
  pub detection_job_id : String
  pub metadata : List (String × String)

-- The payloads of the task types that the program enqueues.
pub data Task : Type 0 where
  enrich_video : EnrichVideoPayload → Task
  enrich_channel : EnrichChannelPayload → Task
  detect_sponsors : SponsorDetectionPayload → Task

-- How the environment answers one call over the network: the call is served, or it fails before it
-- has an effect, or it takes effect and the answer is lost. The text is the driver's error.
pub data Fault : Type 0 where
  served : Fault
  refused : String → Fault
  lost : String → Fault

pub record World : Type 0 where
  pub db : Db
  pub blocked_set : List String
  pub tasks : List Task
  -- one for each coming call; when the list is used up, every call is served
  pub faults : List Fault
  pub clock : Time
  -- the time that passes before each coming reading of the clock
  pub delays : List ℕ

-- The same world in an environment that serves every call.
abbrev pub calm : World → World
calm w = record w { faults = [] }
