-- ===== src/Queue/Others.antt =====
-- internal/queue/client.go: EnqueueChannelEnrichment and EnqueueSponsorDetection.
use youtube_webhook_ingestio.Base.{ℕ, String, none, some, [], ◌∷◌}
use youtube_webhook_ingestio.Models.{EnrichmentJob, pending}
use youtube_webhook_ingestio.World.{enrich_channel, detect_sponsors}
use youtube_webhook_ingestio.World.Action.{
  Action, pure, lift, attempt, context, remote, now, ◌>>=◌, ◌>>◌,
}
use youtube_webhook_ingestio.Externals.{Externals}
use youtube_webhook_ingestio.Repository.Jobs.{create_job}
use youtube_webhook_ingestio.Queue.{new_enrich_channel_task, new_sponsor_detection_task, str_ptr}
use youtube_webhook_ingestio.Queue.Client.{push_task}

-- EnqueueChannelEnrichment, which records no job
unfoldable pub enqueue_channel_enrichment : Externals → String → Action (Unit {0})
unfolding ◌>>=◌
enqueue_channel_enrichment x channel_id = do
  enqueued_at ← now
  payload ← context "failed to create task payload" (
      lift (
        new_enrich_channel_task channel_id 0
          (some (("source", "manual") ∷ ("enqueued_at", x.rfc3339 enqueued_at) ∷ []))))
  context "failed to enqueue task" (remote (push_task x (enrich_channel payload)))
  pure tt

abbrev pub sponsor_job : String → String → String → ℕ → ℕ → EnrichmentJob
sponsor_job task_id video_id detection_job_id priority time = record {
  id = 0;
  asynq_task_id = str_ptr task_id;
  job_type = "sponsor_detection:video";
  video_id = video_id;
  status = pending;
  priority = priority;
  scheduled_at = time;
  started_at = none;
  completed_at = none;
  attempts = 0;
  max_attempts = 3;
  error_message = none;
  error_stack_trace = none;
  metadata = ("detection_job_id", detection_job_id) ∷ ("source", "enrichment_callback") ∷ [];
  created_at = 0;
  updated_at = 0;
}

-- EnqueueSponsorDetection; a failure to record the job is logged and dropped.
unfoldable pub enqueue_sponsor_detection :
    Externals → String → String → String → String → ℕ → Action (Unit {0})
unfolding ◌>>=◌
enqueue_sponsor_detection x video_id title description detection_job_id priority = do
  enqueued_at ← now
  payload ← context "failed to create sponsor detection task payload" (
      lift (
        new_sponsor_detection_task video_id title description detection_job_id
          (some (("source", "enrichment_callback") ∷ ("enqueued_at", x.rfc3339 enqueued_at) ∷ []))))
  task_id ←
      context "failed to enqueue sponsor detection task"
        (remote (push_task x (detect_sponsors payload)))
  time ← now
  attempt (create_job (sponsor_job task_id video_id detection_job_id priority time))
  pure tt
