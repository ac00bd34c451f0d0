-- ===== src/Tests/Jobs.antt =====
-- A run of the look-up of pending jobs.
use youtube_webhook_ingestio.Base.{ℕ, pos, none, some, [], ◌∷◌, ◌≡◌, refl, map, List}
use youtube_webhook_ingestio.Models.{Time, EnrichmentJob, JobStatus, pending, completed}
use youtube_webhook_ingestio.World.{World}
use youtube_webhook_ingestio.World.Action.{remote}
use youtube_webhook_ingestio.Repository.Statement.{statement}
use youtube_webhook_ingestio.Repository.Rows.{first_rows, rows_where, ordered, insert_ordered}
use youtube_webhook_ingestio.Repository.JobRows.{pending_columns, get_pending_jobs}
use youtube_webhook_ingestio.Repository.JobRows.Urgency.{MostUrgent, get_pending_jobs-MostUrgent}
use youtube_webhook_ingestio.Tests.{no_rows_yet, first_world}

abbrev job_of : ℕ → ℕ → Time → JobStatus → EnrichmentJob
job_of id priority time status = record {
  id = id;
  asynq_task_id = none;
  job_type = "enrichment:video";
  video_id = "dQw4w9WgXcQ";
  status = status;
  priority = priority;
  scheduled_at = time;
  started_at = some 10;
  completed_at = none;
  attempts = 0;
  max_attempts = 3;
  error_message = none;
  error_stack_trace = none;
  metadata = [];
  created_at = 150;
  updated_at = 150;
}

abbrev four_jobs : List EnrichmentJob
four_jobs =
    job_of 1 0 150 pending
    ∷ job_of 2 5 180 pending
    ∷ job_of 3 9 100 completed
    ∷ job_of 4 5 160 pending
    ∷ []

abbrev with_jobs : World
with_jobs = record (first_world []) { db = record no_rows_yet { enrichment_jobs = four_jobs } }

-- The two most urgent of the three pending jobs, the earlier one first.
abbrev two_jobs : List EnrichmentJob
two_jobs = pending_columns (job_of 4 5 160 pending) ∷ pending_columns (job_of 2 5 180 pending) ∷ []

get_pending_jobs-MostUrgent_example :
    (rows : List EnrichmentJob) × (two_jobs ≡ map pending_columns rows)
    × MostUrgent (pos 2) with_jobs.db.enrichment_jobs rows
unfolding get_pending_jobs statement remote first_rows rows_where ordered insert_ordered
get_pending_jobs-MostUrgent_example =
    get_pending_jobs-MostUrgent (pos 2) with_jobs with_jobs two_jobs refl
