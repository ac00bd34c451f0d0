-- ===== src/Queue/Worker/Exhausted.antt =====
-- What a video enrichment task does when the quota of the day is used up.
use youtube_webhook_ingestio.Base.{ℕ, String, false, some, ◌≡◌, ◌≤◌, refl, arith}
use youtube_webhook_ingestio.Errors.{plain}
use youtube_webhook_ingestio.Models.{EnrichmentJob, QuotaInfo}
use youtube_webhook_ingestio.World.{World, EnrichVideoPayload, calm}
use youtube_webhook_ingestio.World.Action.{
  ok, err, pure, fail, lift, attempt, context, remote, ◌>>=◌,
}
use youtube_webhook_ingestio.Repository.Statement.{statement}
use youtube_webhook_ingestio.Repository.Jobs.{
  find_job, select_job, update_job, as_processing, get_job_by_asynq_id, mark_job_processing,
}
use youtube_webhook_ingestio.Repository.Quota.{
  find_day, todays_info, select_todays_quota, get_todays_quota,
}
use youtube_webhook_ingestio.Quota.{Manager, threshold_quota, is_available, check_quota_available}
use youtube_webhook_ingestio.Quota.Threshold.{used_today}
use youtube_webhook_ingestio.Queue.Worker.{
  EnrichmentHandler, on_job, if_available, enrich_tracked, process_payload, process_task,
  exhausted_text,
}

-- What the table says of the day of the clock.
abbrev pub info_today : Manager → World → QuotaInfo
info_today m w = todays_info (find_day (m.day w.clock) w.db.api_quota_usage)

-- The world in which the job is marked as processing.
abbrev pub started : ℕ → World → World
started id w = record w {
  db = record w.db { enrichment_jobs = update_job id (as_processing w.clock) w.db.enrichment_jobs };
}

pub get_job-calm :
    (task_id : String) (w : World) (j : EnrichmentJob)
    → find_job task_id w.db.enrichment_jobs ≡ some j
    → get_job_by_asynq_id task_id (calm w) ≡ (ok j, calm w)
unfolding get_job_by_asynq_id select_job remote
get_job-calm task_id w j q = ground (arith, q)

pub check-calm :
    (m : Manager) (w : World)
    → check_quota_available m 1 (calm w)
      ≡ (ok (is_available m 1 (info_today m w), info_today m w), calm w)
unfolding check_quota_available get_todays_quota select_todays_quota statement remote context ◌>>=◌
    pure
check-calm m w = refl

is_available-exhausted :
    (m : Manager) (info : QuotaInfo)
    → threshold_quota m ≤ info.quota_used
    → is_available m 1 info ≡ false
unfolding is_available
is_available-exhausted m info h = ground arith

pub mark-calm :
    (j : EnrichmentJob) (w : World)
    → on_job (some j) mark_job_processing (calm w) ≡ (ok tt, calm (started j.id w))
unfolding on_job mark_job_processing statement remote attempt ◌>>=◌ pure
mark-calm j w = refl

tracked-calm :
    (h : EnrichmentHandler) (payload : EnrichVideoPayload) (j : EnrichmentJob) (w : World)
    → threshold_quota h.quota_manager ≤ used_today h.quota_manager w
    → enrich_tracked h payload (some j) (calm w)
      ≡ (err (plain (exhausted_text (info_today h.quota_manager w))), calm (started j.id w))
unfolding enrich_tracked ◌>>=◌ context if_available fail
tracked-calm h payload j w full =
    simp
      (
        mark-calm j w,
        check-calm h.quota_manager (started j.id w),
        is_available-exhausted h.quota_manager (info_today h.quota_manager w) full,
      )
      refl

-- When the usage of the day has reached the threshold and no call fails, a video enrichment task returns
-- a plain error that names the usage, and all it has done is to mark its job as processing: no quota is
-- recorded, no enrichment is stored, and the job is neither failed nor pending again.
pub process_task-exhausted :
    (h : EnrichmentHandler) (task_id : String) (payload : EnrichVideoPayload) (j : EnrichmentJob)
    (w : World)
    → find_job task_id w.db.enrichment_jobs ≡ some j
    → threshold_quota h.quota_manager ≤ used_today h.quota_manager w
    → process_task h task_id (ok payload) (calm w)
      ≡ (err (plain (exhausted_text (info_today h.quota_manager w))), calm (started j.id w))
unfolding process_task process_payload context lift attempt ◌>>=◌
process_task-exhausted h task_id payload j w q full =
    simp (get_job-calm task_id w j q) (tracked-calm h payload j w full)
