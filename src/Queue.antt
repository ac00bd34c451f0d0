-- ===== src/Queue.antt =====
-- internal/queue: the tasks of the asynq queue, and who puts them there and works on them.
pub mod Client
pub mod Others
pub mod Redis
pub mod Worker
pub mod ChannelWorker
pub mod SponsorWorker
use youtube_webhook_ingestio.Base.{ℕ, String, Option, none, some, List, [], ◌==◌, if◌then◌else◌}
use youtube_webhook_ingestio.Errors.{plain}
use youtube_webhook_ingestio.World.{
  EnrichVideoPayload, EnrichChannelPayload, SponsorDetectionPayload,
}
use youtube_webhook_ingestio.World.Action.{Result, ok, err}

abbrev pub Metadata : Type 0
Metadata = List (String × String)

-- `if metadata == nil { metadata = make(map[string]interface{}) }`
abbrev or_empty : Option Metadata → Metadata
or_empty none = []
or_empty (some m) = m

-- NewEnrichVideoTask of internal/queue/tasks.go
unfoldable pub new_enrich_video_task :
    String → String → ℕ → Option Metadata → Result EnrichVideoPayload
new_enrich_video_task video_id channel_id priority metadata =
    if video_id == ""
    then err (plain "video ID is required")
    else ok (record {
      video_id = video_id;
      channel_id = channel_id;
      priority = priority;
      metadata = or_empty metadata;
    })

-- strPtr of internal/queue/client.go
unfoldable pub str_ptr : String → Option String
str_ptr s = if s == "" then none else some s

-- NewEnrichChannelTask
unfoldable pub new_enrich_channel_task : String → ℕ → Option Metadata → Result EnrichChannelPayload
new_enrich_channel_task channel_id priority metadata =
    if channel_id == ""
    then err (plain "channel ID is required")
    else ok (record { channel_id = channel_id; priority = priority; metadata = or_empty metadata })

-- NewSponsorDetectionTask
unfoldable pub new_sponsor_detection_task :
    String → String → String → String → Option Metadata → Result SponsorDetectionPayload
new_sponsor_detection_task video_id title description detection_job_id metadata =
    if video_id == ""
    then err (plain "video ID is required")
    else if detection_job_id == ""
    then err (plain "detection job ID is required")
    else ok (record {
      video_id = video_id;
      title = title;
      description = description;
      detection_job_id = detection_job_id;
      metadata = or_empty metadata;
    })
