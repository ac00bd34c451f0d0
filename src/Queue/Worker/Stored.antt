-- ===== src/Queue/Worker/Stored.antt =====
-- The storing of an enrichment, and what follows it.
use youtube_webhook_ingestio.Base.{
  ℕ, String, Option, none, some, ◌≡◌, refl, sym, ◌∙◌, ap, arith, [], ◌∷◌, ◌++◌,
}
use youtube_webhook_ingestio.Errors.{Error}
use youtube_webhook_ingestio.Models.{Time, EnrichmentJob}
use youtube_webhook_ingestio.Models.Enrichment.{VideoEnrichment}
use youtube_webhook_ingestio.World.{World, EnrichVideoPayload}
use youtube_webhook_ingestio.World.Action.{
  Result, ok, err, pure, fail, attempt, now, ◌>>=◌, bind-eq-ok,
}
use youtube_webhook_ingestio.World.Keeps.{Keeps, Keeps-bind}
use youtube_webhook_ingestio.Repository.Outcome.{statement-eq-ok, attempt-eq-ok}
use youtube_webhook_ingestio.Repository.Enrichments.{
  as_enriched, insert_enrichment, create_enrichment,
}
use youtube_webhook_ingestio.Repository.Jobs.{mark_job_completed}
use youtube_webhook_ingestio.Queue.Worker.{
  EnrichmentHandler, on_job, complete, fail_job, stored, store,
}
use youtube_webhook_ingestio.Queue.Worker.Untouched.{
  SameEnrichments, SameEnrichments-IsSteady, completed-Same, on_job-Same, LeaveEnrichments,
  trigger-Same,
}

pub record Added (e : VideoEnrichment) (w w' : World) : Type 0 where
  pub id : ℕ
  pub time : Time
  pub rows :
      w'.db.video_api_enrichments
      ≡ w.db.video_api_enrichments ++ record (as_enriched time e) { id = id } ∷ []

pub fail_job-not_ok :
    {A : Type 0} (job : Option EnrichmentJob) (message : String) (e : Error) (w w' : World) {a : A}
    → fail_job job message e w ≡ (ok a, w')
    → ⊥
unfolding fail_job on_job ◌>>=◌ attempt fail pure
fail_job-not_ok none message e w w' h = cc
fail_job-not_ok (some j) message e w w' h = cc

create-Added :
    (e a : VideoEnrichment) (w w' : World) → create_enrichment e w ≡ (ok a, w') → Added e w w'
unfolding create_enrichment insert_enrichment ◌>>=◌ now
create-Added e a w w' h =
    let v = (now w).1 in
    let ran = statement-eq-ok "create enrichment" (insert_enrichment (as_enriched v.clock e)) v h in
    record { id = w.db.next_enrichment_id; time = v.clock; rows = ground arith }

module _ (h : EnrichmentHandler) (payload : EnrichVideoPayload) (job : Option EnrichmentJob)
    (leave : LeaveEnrichments h.callbacks) where
  complete-Same : (e : VideoEnrichment) → Keeps SameEnrichments (complete h payload job e)
  unfolding complete
  complete-Same e =
      Keeps-bind SameEnrichments-IsSteady _ _ (on_job-Same job mark_job_completed completed-Same)
        λ a. trigger-Same h.callbacks payload.video_id payload.channel_id e leave

  stored-ok :
      (r : Result VideoEnrichment) (w w' : World)
      → stored h payload job r w ≡ (ok tt, w')
      → (a : VideoEnrichment) × (r ≡ ok a) × SameEnrichments w w'
  unfolding stored
  stored-ok (err e) w w' q = absurd (fail_job-not_ok job _ _ w w' q)
  stored-ok (ok a) w w' q = (
    a,
    refl,
    record {
      rows = ap (λ x. x.1.db.video_api_enrichments) (sym q) ∙ ((complete-Same a).at w).rows;
    },
  )

  pub store-Added :
      (e : VideoEnrichment) (w w' : World) → store h payload job e w ≡ (ok tt, w') → Added e w w'
  unfolding store
  store-Added e w w' q =
      let (r, v, p, k) = bind-eq-ok (attempt (create_enrichment e)) (stored h payload job) w q in
      let (a, is_ok, same) = stored-ok r v w' k in
      let created : create_enrichment e w ≡ (ok a, v) =
        attempt-eq-ok (create_enrichment e) w p ∙ ap (λ x. (x, v)) is_ok in
      let added = create-Added e a w v created in
      record { id = added.id; time = added.time; rows = same.rows ∙ added.rows }
