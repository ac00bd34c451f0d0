-- ===== src/Queue/Client.antt =====
-- internal/queue/client.go: EnqueueVideoEnrichment and its batch. json.Marshal of a payload, which
-- holds texts and numbers alone, does not fail, and a task is kept with its payload unmarshalled.
pub mod Effects
use youtube_webhook_ingestio.Base.{ℕ, String, Option, none, some, List, [], ◌∷◌, ◌++◌, length}
use youtube_webhook_ingestio.Models.{EnrichmentJob, pending}
use youtube_webhook_ingestio.World.{World, Task, enrich_video, EnrichVideoPayload}
use youtube_webhook_ingestio.World.Action.{
  Result, ok, Action, pure, lift, attempt, context, remote, now, ◌>>=◌, ◌>>◌,
}
use youtube_webhook_ingestio.Externals.{Externals}
use youtube_webhook_ingestio.Repository.Jobs.{create_job}
use youtube_webhook_ingestio.Queue.{new_enrich_video_task, str_ptr}

-- asynqClient.Enqueue: the task goes to the end of the queue and is given an ID.
unfoldable pub push_task : Externals → Task → World → Result String × World
push_task x task w = (ok (x.task_id (length w.tasks)), record w { tasks = w.tasks ++ task ∷ [] })

abbrev pub video_job : String → String → String → ℕ → ℕ → EnrichmentJob
video_job task_id video_id channel_id priority time = record {
  id = 0;
  asynq_task_id = str_ptr task_id;
  job_type = "enrichment:video";
  video_id = video_id;
  status = pending;
  priority = priority;
  scheduled_at = time;
  started_at = none;
  completed_at = none;
  attempts = 0;
  max_attempts = 3;
  error_message = none;
  error_stack_trace = none;
  metadata = ("channel_id", channel_id) ∷ ("source", "webhook") ∷ [];
  created_at = 0;
  updated_at = 0;
}

-- A failure to record the job is logged and dropped.
unfoldable pub track_job : String → String → String → ℕ → Action (Unit {0})
unfolding str_ptr ◌>>=◌
track_job task_id video_id channel_id priority = do
  time ← now
  attempt (create_job (video_job task_id video_id channel_id priority time))
  pure tt

unfoldable pub submit_task : Externals → EnrichVideoPayload → String → ℕ → Action (Unit {0})
unfolding push_task track_job ◌>>=◌
submit_task x payload channel_id priority = do
  task_id ← context "failed to enqueue task" (remote (push_task x (enrich_video payload)))
  track_job task_id payload.video_id channel_id priority

abbrev pub webhook_task : Externals → String → String → ℕ → ℕ → Result EnrichVideoPayload
webhook_task x video_id channel_id priority time =
    new_enrich_video_task video_id channel_id priority
      (some (("source", "webhook") ∷ ("enqueued_at", x.rfc3339 time) ∷ []))

-- EnqueueVideoEnrichment
unfoldable pub enqueue_video_enrichment : Externals → String → String → ℕ → Action (Unit {0})
unfolding new_enrich_video_task submit_task ◌>>=◌
enqueue_video_enrichment x video_id channel_id priority = do
  enqueued_at ← now
  payload ←
      context "failed to create task payload"
        (lift (webhook_task x video_id channel_id priority enqueued_at))
  submit_task x payload channel_id priority

-- EnqueueVideoEnrichmentBatch: one failure does not stop the others.
unfoldable pub enqueue_video_enrichment_batch :
    Externals → List String → String → ℕ → Action (Unit {0})
unfolding ◌>>=◌
enqueue_video_enrichment_batch x [] channel_id priority = pure tt
enqueue_video_enrichment_batch x (video_id ∷ rest) channel_id priority = do
  attempt (enqueue_video_enrichment x video_id channel_id priority)
  enqueue_video_enrichment_batch x rest channel_id priority
