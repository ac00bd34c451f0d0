-- ===== src/Repository/Jobs.antt =====
-- internal/db/repository/enrichment_job.go: the statements that create and mark enrichment jobs.
use youtube_webhook_ingestio.Base.{
  ℕ, suc, String, Bool, false, Option, none, some, List, [], ◌∷◌, ◌++◌, ◌==◌, eqb, if◌then◌else◌,
  is_some,
}
use youtube_webhook_ingestio.Errors.{sentinel, not_found, no_rows, wrap_failure}
use youtube_webhook_ingestio.Models.{Time, EnrichmentJob, JobStatus, processing, completed, failed}
use youtube_webhook_ingestio.Table.{find}
use youtube_webhook_ingestio.World.Action.{Result, ok, err, Action, now, remote, ◌>>=◌}
use youtube_webhook_ingestio.Repository.Statement.{
  Statement, statement, on_tables, unique_violation, foreign_key_failure,
}
use youtube_webhook_ingestio.Repository.Videos.{by_video_id}

abbrev pub has_task_id : String → Option String → Bool
has_task_id task_id none = false
has_task_id task_id (some t) = t == task_id

-- WHERE asynq_task_id = $1
unfoldable pub find_job : String → List EnrichmentJob → Option EnrichmentJob
find_job task_id [] = none
find_job task_id (j ∷ js) =
    if has_task_id task_id j.asynq_task_id then some j else find_job task_id js

abbrev pub task_id_taken : Option String → List EnrichmentJob → Bool
task_id_taken none jobs = false
task_id_taken (some t) jobs = is_some (find_job t jobs)

unfoldable pub update_job :
    ℕ → (EnrichmentJob → EnrichmentJob) → List EnrichmentJob → List EnrichmentJob
update_job id f [] = []
update_job id f (j ∷ js) = (if eqb j.id id then f j else j) ∷ update_job id f js

-- INSERT INTO enrichment_jobs …
unfoldable pub insert_job : EnrichmentJob → Statement (Unit {0})
unfolding find find_job
insert_job job time db =
    let row : EnrichmentJob = record job { id = db.next_job_id } in
    if task_id_taken job.asynq_task_id db.enrichment_jobs
    then (err (unique_violation "enrichment_jobs_asynq_task_id_key"), db)
    else if is_some (find by_video_id job.video_id db.videos)
    then (
      ok tt,
      record db {
        enrichment_jobs = db.enrichment_jobs ++ row ∷ [];
        next_job_id = suc db.next_job_id;
      },
    )
    else (err (foreign_key_failure "enrichment_jobs_video_id_fkey"), db)

-- The defaults that CreateJob fills in. The zero time is 0.
abbrev pub as_created : Time → EnrichmentJob → EnrichmentJob
as_created time job = record job {
  scheduled_at = if eqb job.scheduled_at 0 then time else job.scheduled_at;
  max_attempts = if eqb job.max_attempts 0 then 3 else job.max_attempts;
  created_at = time;
  updated_at = time;
}

-- CreateJob
unfoldable pub create_job : EnrichmentJob → Action (Unit {0})
unfolding insert_job statement now ◌>>=◌
create_job job = do time ← now; statement "create enrichment job" (insert_job (as_created time job))

unfoldable pub select_job : String → Statement EnrichmentJob
unfolding find_job
select_job task_id time db = elim (find_job task_id db.enrichment_jobs) [
  | none ↦ (err no_rows, db)
  | some j ↦ (ok j, db)
]

-- `if err == pgx.ErrNoRows { return nil, db.ErrNotFound }`, which is not wrapped
abbrev job_result : Result EnrichmentJob → Result EnrichmentJob
job_result (ok j) = ok j
job_result (err no_rows) = err (sentinel not_found)
job_result (err e) = err (wrap_failure e "get job by asynq ID")

-- GetJobByAsynqID
unfoldable pub get_job_by_asynq_id : String → Action EnrichmentJob
unfolding select_job remote wrap_failure
get_job_by_asynq_id task_id w =
    let (r, w') = remote (on_tables (select_job task_id)) w in (job_result r, w')

-- UPDATE enrichment_jobs SET … WHERE id = $1, which says nothing of a missing row.
abbrev pub change_job : ℕ → (Time → EnrichmentJob → EnrichmentJob) → Statement (Unit {0})
change_job id f time db =
    (ok tt, record db { enrichment_jobs = update_job id (f time) db.enrichment_jobs })

abbrev pub as_processing : Time → EnrichmentJob → EnrichmentJob
as_processing time j = record j { status = processing; started_at = some time; updated_at = time }

abbrev pub as_completed : Time → EnrichmentJob → EnrichmentJob
as_completed time j = record j { status = completed; completed_at = some time; updated_at = time }

abbrev pub as_failed : String → Option String → Time → EnrichmentJob → EnrichmentJob
as_failed message trace time j = record j {
  status = failed;
  completed_at = some time;
  error_message = some message;
  error_stack_trace = trace;
  updated_at = time;
}

unfoldable pub mark_job_processing : ℕ → Action (Unit {0})
unfolding update_job statement
mark_job_processing id = statement "mark job processing" (change_job id as_processing)

unfoldable pub mark_job_completed : ℕ → Action (Unit {0})
unfolding update_job statement
mark_job_completed id = statement "mark job completed" (change_job id as_completed)

unfoldable pub mark_job_failed : ℕ → String → Option String → Action (Unit {0})
unfolding update_job statement
mark_job_failed id message trace =
    statement "mark job failed" (change_job id (as_failed message trace))

unfoldable pub update_job_status : ℕ → JobStatus → Option String → Action (Unit {0})
unfolding update_job statement
update_job_status id status message = statement "update job status" (
    change_job id
      (λ time j. record j { status = status; error_message = message; updated_at = time }))
