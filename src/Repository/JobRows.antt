-- ===== src/Repository/JobRows.antt =====
-- internal/db/repository/enrichment_job.go: the statements that look jobs up and count their attempts. A
-- column that a statement does not read has its zero value in the result.
pub mod Urgency
use youtube_webhook_ingestio.Base.{
  ℕ, suc, ℤ, pos, negsuc, Bool, true, false, Option, none, some, List, [], ◌&&◌, keep, take, drop,
  length, map, eqb, leb, if◌then◌else◌,
}
use youtube_webhook_ingestio.Errors.{Error, pg, sentinel, not_found, no_rows, wrap_failure}
use youtube_webhook_ingestio.Models.{
  Time, EnrichmentJob, JobStatus, pending, processing, completed, failed, cancelled,
}
use youtube_webhook_ingestio.World.Action.{Result, ok, err, Action, remote, pure, ◌>>=◌}
use youtube_webhook_ingestio.Repository.Enrichments.{limit_or}
use youtube_webhook_ingestio.Repository.Jobs.{update_job}
use youtube_webhook_ingestio.Repository.Rows.{
  rows_where, first_rows, descending, head_row, row_or_none,
}
use youtube_webhook_ingestio.Repository.Statement.{Statement, statement, on_tables}

abbrev pub same_status : JobStatus → JobStatus → Bool
same_status pending pending = true
same_status processing processing = true
same_status completed completed = true
same_status failed failed = true
same_status cancelled cancelled = true
same_status s t = false

-- `if err == pgx.ErrNoRows { return nil, db.ErrNotFound }`, which is not wrapped
abbrev job_by_id_result : Result EnrichmentJob → Result EnrichmentJob
job_by_id_result (ok j) = ok j
job_by_id_result (err no_rows) = err (sentinel not_found)
job_by_id_result (err e) = err (wrap_failure e "get job by ID")

abbrev pub job_with_id : ℕ → List EnrichmentJob → Option EnrichmentJob
job_with_id id jobs = head_row (keep (λ j. eqb j.id id) jobs)

-- GetJobByID
unfoldable pub get_job_by_id : ℕ → Action EnrichmentJob
unfolding remote
get_job_by_id id w =
    let (r, w') =
      remote (on_tables λ time db. (row_or_none (job_with_id id db.enrichment_jobs), db)) w in
    (job_by_id_result r, w')

attempts_violation : Error
attempts_violation = pg (record {
  code = "23514";
  constraint_name = "chk_attempts";
  message = "new row violates check constraint";
})

-- UPDATE … SET attempts = attempts + 1, updated_at = NOW(), where CHECK (attempts <= max_attempts) holds
unfoldable pub add_attempt : ℕ → Statement (Unit {0})
unfolding attempts_violation update_job
add_attempt id time db = elim (job_with_id id db.enrichment_jobs) [
  | none ↦ (ok tt, db)
  | some job ↦
      if leb (suc job.attempts) job.max_attempts
      then (
        ok tt,
        record db {
          enrichment_jobs =
              update_job id (λ j. record j { attempts = suc j.attempts; updated_at = time })
                db.enrichment_jobs;
        },
      )
      else (err attempts_violation, db)
]

-- IncrementAttempts
unfoldable pub increment_attempts : ℕ → Action (Unit {0})
increment_attempts id = statement "increment attempts" (add_attempt id)

-- The columns that GetJobsByStatus reads.
abbrev pub status_columns : EnrichmentJob → EnrichmentJob
status_columns j = record j { error_stack_trace = none; metadata = [] }

-- The columns that GetPendingJobs reads.
abbrev pub pending_columns : EnrichmentJob → EnrichmentJob
pending_columns j = record j {
  started_at = none;
  completed_at = none;
  error_message = none;
  error_stack_trace = none;
  metadata = [];
}

-- ORDER BY priority DESC, scheduled_at ASC
abbrev pub more_urgent : EnrichmentJob → EnrichmentJob → Bool
more_urgent i j =
    if eqb i.priority j.priority
    then leb i.scheduled_at j.scheduled_at
    else leb j.priority i.priority

-- GetPendingJobs
unfoldable pub get_pending_jobs : ℤ → Action (List EnrichmentJob)
get_pending_jobs limit = statement "get pending jobs" λ time db. (
  ok (
      map pending_columns (
        first_rows (λ j. same_status pending j.status) more_urgent (limit_or 100 limit)
          db.enrichment_jobs)),
  db,
)

-- GetJobsByStatus
unfoldable pub get_jobs_by_status : JobStatus → ℤ → Action (List EnrichmentJob)
get_jobs_by_status status limit = statement "get jobs by status" λ time db. (
  ok (
      map status_columns (
        first_rows (λ j. same_status status j.status) (descending (λ j. j.created_at))
          (limit_or 100 limit) db.enrichment_jobs)),
  db,
)

-- JobFilters; a `none` is the empty status, which filters nothing.
pub record JobFilters : Type 0 where
  pub status : Option JobStatus
  pub limit : ℤ
  pub offset : ℤ

abbrev pub has_status : Option JobStatus → EnrichmentJob → Bool
has_status none j = true
has_status (some status) j = same_status status j.status

-- `if filters.Offset < 0 { filters.Offset = 0 }`
abbrev pub offset_or_zero : ℤ → ℕ
offset_or_zero (pos n) = n
offset_or_zero (negsuc n) = 0

-- ListJobs, with the number of all jobs of the status
unfoldable pub list_jobs : JobFilters → Action (List EnrichmentJob × ℕ)
unfolding ◌>>=◌
list_jobs filters = do
  total ←
      statement "count jobs"
        (λ time db. (ok (length (keep (has_status filters.status) db.enrichment_jobs)), db))
  jobs ← statement "list jobs" (λ time db. (
    ok (
        take (limit_or 100 filters.limit) (
          drop (offset_or_zero filters.offset) (
            rows_where (has_status filters.status) (descending (λ j. j.created_at))
              db.enrichment_jobs))),
    db,
  ))
  pure (jobs, total)

-- GetJobStats: the number of jobs of each status, where `week_ago` is CURRENT_DATE - INTERVAL '7 days' at
-- the time NOW(). A status without a job is not in the map.
unfoldable pub get_job_stats : (Time → Time) → Action (JobStatus → Option ℕ)
get_job_stats week_ago = statement "get job stats" λ time db. (
  ok (λ status.
      let count = length (
        keep (λ j. same_status status j.status && leb (week_ago time) j.created_at)
          db.enrichment_jobs) in
      if eqb count 0 then none else some count),
  db,
)
