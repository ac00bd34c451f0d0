-- ===== src/Queue/Worker.antt =====
-- internal/queue/handler.go: the handler of video enrichment tasks, and internal/queue/hooks.go, the
-- callbacks that it triggers. Logging is left out. asynq turns a panic of a handler into an error.
pub mod Untouched
pub mod Stored
pub mod Fetched
pub mod Enriched
pub mod Exhausted
pub mod Panicking
use Prim.Native.String.{◌++◌ as ◌<>◌}
use youtube_webhook_ingestio.Base.{
  ℕ, String, Bool, true, false, Option, none, some, List, [], ◌∷◌, ◌++◌, length, if◌then◌else◌,
}
use youtube_webhook_ingestio.Base.Decimal.{itoa}
use youtube_webhook_ingestio.Errors.{Error, plain, error_text}
use youtube_webhook_ingestio.Models.{EnrichmentJob, QuotaInfo}
use youtube_webhook_ingestio.Models.Enrichment.{VideoEnrichment}
use youtube_webhook_ingestio.World.{EnrichVideoPayload}
use youtube_webhook_ingestio.World.Action.{
  Result, ok, err, Action, pure, fail, lift, attempt, context, ◌>>=◌, ◌>>◌,
}
use youtube_webhook_ingestio.Repository.Jobs.{
  get_job_by_asynq_id, mark_job_processing, mark_job_completed, mark_job_failed,
}
use youtube_webhook_ingestio.Repository.Enrichments.{create_enrichment}
use youtube_webhook_ingestio.Quota.{Manager, check_quota_available}
use youtube_webhook_ingestio.YouTube.Client.{Client, fetch_videos}

-- EnrichmentCallback, of the video, its channel and its enrichment
abbrev pub EnrichmentCallback : Type 0
EnrichmentCallback = String → String → VideoEnrichment → Action (Unit {0})

-- RegisterCallback, on the list of a CallbackManager
unfoldable pub register_callback :
    EnrichmentCallback → List EnrichmentCallback → List EnrichmentCallback
register_callback cb callbacks = callbacks ++ cb ∷ []

-- TriggerCallbacks: a failure is logged and does not stop the others.
unfoldable pub trigger_callbacks :
    List EnrichmentCallback → String → String → VideoEnrichment → Action (Unit {0})
unfolding ◌>>=◌
trigger_callbacks [] video_id channel_id enrichment = pure tt
trigger_callbacks (cb ∷ rest) video_id channel_id enrichment = do
  attempt (cb video_id channel_id enrichment)
  trigger_callbacks rest video_id channel_id enrichment

-- EnrichmentHandler, with what video enrichment uses of it
pub record EnrichmentHandler : Type 0 where
  pub youtube_client : Client
  pub quota_manager : Manager
  pub callbacks : List EnrichmentCallback

abbrev pub job_or_none : Result EnrichmentJob → Option EnrichmentJob
job_or_none (ok j) = some j
job_or_none (err e) = none

-- `if job != nil { … }`, with an error that is logged or dropped
unfoldable pub on_job : Option EnrichmentJob → (ℕ → Action (Unit {0})) → Action (Unit {0})
unfolding ◌>>=◌
on_job none mark = pure tt
on_job (some j) mark = attempt (mark j.id) >> pure tt

unfoldable pub complete :
    EnrichmentHandler
    → EnrichVideoPayload
    → Option EnrichmentJob
    → VideoEnrichment
    → Action (Unit {0})
unfolding ◌>>=◌
complete h payload job enrichment = do
  on_job job mark_job_completed
  trigger_callbacks h.callbacks payload.video_id payload.channel_id enrichment

-- MarkJobFailed with the text of an error, and the error
unfoldable pub fail_job : {A : Type 0} → Option EnrichmentJob → String → Error → Action A
unfolding ◌>>=◌
fail_job job message e = on_job job (λ id. mark_job_failed id message none) >> fail e

unfoldable pub stored :
    EnrichmentHandler
    → EnrichVideoPayload
    → Option EnrichmentJob
    → Result VideoEnrichment
    → Action (Unit {0})
stored h payload job (err e) =
    fail_job job (error_text e) (Error.wrapped "failed to store enrichment: " e "")
stored h payload job (ok enrichment) = complete h payload job enrichment

unfoldable pub store :
    EnrichmentHandler
    → EnrichVideoPayload
    → Option EnrichmentJob
    → VideoEnrichment
    → Action (Unit {0})
unfolding ◌>>=◌
store h payload job enrichment = attempt (create_enrichment enrichment) >>= stored h payload job

-- The first of the enrichments, with the cost of the call
unfoldable pub on_enrichments :
    EnrichmentHandler
    → EnrichVideoPayload
    → Option EnrichmentJob
    → Option (List VideoEnrichment)
    → ℕ
    → Action (Unit {0})
on_enrichments h payload job none cost =
    fail (plain "panic: runtime error: invalid memory address or nil pointer dereference")
on_enrichments h payload job (some []) cost =
    let message = "no data returned for video " <> payload.video_id in
    fail_job job message (plain message)
on_enrichments h payload job (some (e ∷ rest)) cost =
    store h payload job (record e { quota_cost = cost })

unfoldable pub fetched :
    EnrichmentHandler
    → EnrichVideoPayload
    → Option EnrichmentJob
    → Result (Option (List VideoEnrichment) × ℕ)
    → Action (Unit {0})
fetched h payload job (err e) =
    fail_job job (error_text e) (Error.wrapped "failed to fetch video from YouTube API: " e "")
fetched h payload job (ok (enrichments, cost)) = on_enrichments h payload job enrichments cost

abbrev pub exhausted_text : QuotaInfo → String
exhausted_text info =
    "quota exhausted: " <> itoa info.quota_used <> "/" <> itoa info.quota_limit <> " used"

-- On an exhausted quota the job is left as it is, which is processing.
unfoldable pub if_available :
    EnrichmentHandler
    → EnrichVideoPayload
    → Option EnrichmentJob
    → Bool
    → QuotaInfo
    → Action (Unit {0})
unfolding ◌>>=◌
if_available h payload job false info = fail (plain (exhausted_text info))
if_available h payload job true info =
    attempt (fetch_videos h.youtube_client (payload.video_id ∷ [])) >>= fetched h payload job

unfoldable pub enrich_tracked :
    EnrichmentHandler → EnrichVideoPayload → Option EnrichmentJob → Action (Unit {0})
unfolding ◌>>=◌
enrich_tracked h payload job = do
  on_job job mark_job_processing
  answer ← context "failed to check quota" (check_quota_available h.quota_manager 1)
  if_available h payload job answer.0 answer.1

unfoldable pub process_payload : EnrichmentHandler → String → EnrichVideoPayload → Action (Unit {0})
unfolding ◌>>=◌
process_payload h task_id payload = do
  job ← attempt (get_job_by_asynq_id task_id)
  enrich_tracked h payload (job_or_none job)

-- ProcessTask, on the ID of the task and what UnmarshalEnrichVideoPayload returns for its payload
unfoldable pub process_task :
    EnrichmentHandler → String → Result EnrichVideoPayload → Action (Unit {0})
unfolding ◌>>=◌
process_task h task_id payload =
    context "failed to unmarshal payload" (lift payload) >>= process_payload h task_id
