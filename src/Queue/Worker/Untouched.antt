-- ===== src/Queue/Worker/Untouched.antt =====
-- The steps of the worker that leave the table of enrichments alone.
use youtube_webhook_ingestio.Base.{
  ℕ, String, Option, none, some, ◌≡◌, refl, sym, ◌∙◌, arith, List, [], ◌∷◌, All, length, eqb, ltb,
}
use youtube_webhook_ingestio.Models.{Time, EnrichmentJob}
use youtube_webhook_ingestio.Models.Enrichment.{VideoEnrichment}
use youtube_webhook_ingestio.World.{World, Db}
use youtube_webhook_ingestio.World.Action.{Action, remote, attempt, pure}
use youtube_webhook_ingestio.World.Keeps.{
  IsSteady, Keeps, Keeps-bind, Keeps-attempt, Keeps-pure, Keeps-fail, Keeps-lift, Keeps-context,
  Keeps-remote, Keeps-if,
}
use youtube_webhook_ingestio.Repository.Statement.{Statement, statement, on_tables}
use youtube_webhook_ingestio.Repository.Jobs.{
  get_job_by_asynq_id, mark_job_processing, mark_job_completed, change_job, as_processing,
  as_completed, select_job,
}
use youtube_webhook_ingestio.Repository.Quota.{
  get_todays_quota, select_todays_quota, increment_quota, increment_todays_quota,
}
use youtube_webhook_ingestio.Quota.{Manager, check_quota_available, record_quota_usage}
use youtube_webhook_ingestio.YouTube.Client.{Client, track_with, track_quota, fetch_videos}
use youtube_webhook_ingestio.Queue.Worker.{EnrichmentCallback, trigger_callbacks, on_job}

pub record SameEnrichments (w w' : World) : Type 0 where
  pub rows : w'.db.video_api_enrichments ≡ w.db.video_api_enrichments

pub SameEnrichments-IsSteady : IsSteady SameEnrichments
SameEnrichments-IsSteady = record {
  refl_at = λ w. record { rows = refl };
  trans_at = λ u v w p q. record { rows = q.rows ∙ p.rows };
  environment = λ w v d b t. record { rows = λ i. (sym d i).video_api_enrichments };
}

Steady : IsSteady SameEnrichments
Steady = SameEnrichments-IsSteady

tables-Same :
    {A : Type 0} (s : Statement A)
    → ((time : Time) (db : Db) → (s time db).1.video_api_enrichments ≡ db.video_api_enrichments)
    → Keeps SameEnrichments (remote (on_tables s))
tables-Same s h =
    Keeps-remote Steady (on_tables s) (record { at = λ w. record { rows = h w.clock w.db } })

statement-Same :
    {A : Type 0} (operation : String) (s : Statement A)
    → ((time : Time) (db : Db) → (s time db).1.video_api_enrichments ≡ db.video_api_enrichments)
    → Keeps SameEnrichments (statement operation s)
unfolding statement
statement-Same operation s h = record { at = λ w. (tables-Same s h).at w }

pub get_job-Same : (task_id : String) → Keeps SameEnrichments (get_job_by_asynq_id task_id)
unfolding get_job_by_asynq_id select_job
get_job-Same task_id = record {
  at = λ w. (tables-Same (select_job task_id) (λ time db. ground arith)).at w;
}

pub processing-Same : (id : ℕ) → Keeps SameEnrichments (mark_job_processing id)
unfolding mark_job_processing
processing-Same id =
    statement-Same "mark job processing" (change_job id as_processing) λ time db. refl

pub completed-Same : (id : ℕ) → Keeps SameEnrichments (mark_job_completed id)
unfolding mark_job_completed
completed-Same id = statement-Same "mark job completed" (change_job id as_completed) λ time db. refl

todays-Same : (day : Time → ℕ) → Keeps SameEnrichments (get_todays_quota day)
unfolding get_todays_quota select_todays_quota
todays-Same day = statement-Same "get todays quota" (select_todays_quota day) λ time db. refl

increment-Same :
    (day : Time → ℕ) (cost : ℕ) (operation : String)
    → Keeps SameEnrichments (increment_quota day cost operation)
unfolding increment_quota increment_todays_quota
increment-Same day cost operation = statement-Same "increment quota" _ λ time db. refl

pub check-Same : (m : Manager) (n : ℕ) → Keeps SameEnrichments (check_quota_available m n)
unfolding check_quota_available
check-Same m n =
    Keeps-bind Steady _ _ (Keeps-context Steady _ _ (todays-Same m.day)) λ info. Keeps-pure Steady _

record-Same :
    (m : Manager) (cost : ℕ) (operation : String)
    → Keeps SameEnrichments (record_quota_usage m cost operation)
unfolding record_quota_usage
record-Same m cost operation =
    Keeps-bind Steady _ _ (Keeps-context Steady _ _ (increment-Same m.day cost operation)) λ a.
      Keeps-bind Steady _ _ (Keeps-attempt Steady _ (todays-Same m.day)) λ b. Keeps-pure Steady _

track-Same :
    (t : Option Manager) (cost : ℕ) (operation : String)
    → Keeps SameEnrichments (track_with t cost operation)
unfolding track_with
track-Same none cost operation = Keeps-pure Steady tt
track-Same (some m) cost operation =
    Keeps-bind Steady (attempt (record_quota_usage m cost operation)) (λ r. pure tt)
      (Keeps-attempt Steady _ (record-Same m cost operation)) λ r. Keeps-pure Steady tt

pub fetch-Same : (c : Client) (ids : List String) → Keeps SameEnrichments (fetch_videos c ids)
unfolding fetch_videos track_quota
fetch-Same c ids =
    Keeps-if Steady (eqb (length ids) 0) _ _ (λ p. Keeps-fail Steady _)
      λ p.
        Keeps-if Steady (ltb 50 (length ids)) _ _ (λ q. Keeps-fail Steady _)
          λ q. Keeps-bind Steady _ _ (Keeps-context Steady _ _ (Keeps-lift Steady _)) λ response.
            Keeps-bind Steady _ _ (track-Same c.quota_tracker 1 "videos_list")
              λ a. Keeps-pure Steady _

pub on_job-Same :
    (job : Option EnrichmentJob) (mark : ℕ → Action (Unit {0}))
    → ((id : ℕ) → Keeps SameEnrichments (mark id))
    → Keeps SameEnrichments (on_job job mark)
unfolding on_job
on_job-Same none mark k = Keeps-pure Steady tt
on_job-Same (some j) mark k =
    Keeps-bind Steady (attempt (mark j.id)) (λ r. pure tt) (Keeps-attempt Steady _ (k j.id))
      λ r. Keeps-pure Steady tt

-- Callbacks that do not write the table of enrichments.
abbrev pub LeaveEnrichments : List EnrichmentCallback → Type 0
LeaveEnrichments = All λ cb.
    (video_id channel_id : String) (e : VideoEnrichment)
    → Keeps SameEnrichments (cb video_id channel_id e)

pub trigger-Same :
    (callbacks : List EnrichmentCallback) (video_id channel_id : String) (e : VideoEnrichment)
    → LeaveEnrichments callbacks
    → Keeps SameEnrichments (trigger_callbacks callbacks video_id channel_id e)
unfolding trigger_callbacks
trigger-Same [] video_id channel_id e h = Keeps-pure Steady tt
trigger-Same (cb ∷ rest) video_id channel_id e h =
    Keeps-bind Steady _ _ (Keeps-attempt Steady _ (h.0 video_id channel_id e))
      λ r. trigger-Same rest video_id channel_id e h.1
