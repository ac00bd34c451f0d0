-- ===== src/Queue/Worker/Enriched.antt =====
-- What a video enrichment task has done when it returns no error.
use youtube_webhook_ingestio.Base.{
  ℕ, String, Bool, true, false, Option, none, some, ◌≡◌, sym, ◌∙◌, ap, arith, List, [], ◌∷◌, ◌++◌,
}
use youtube_webhook_ingestio.Models.{Time, EnrichmentJob, QuotaInfo}
use youtube_webhook_ingestio.Models.Enrichment.{VideoEnrichment}
use youtube_webhook_ingestio.World.{World, EnrichVideoPayload}
use youtube_webhook_ingestio.World.Action.{
  Result, ok, err, Action, fail, lift, attempt, context, ◌>>=◌, bind-eq-ok,
}
use youtube_webhook_ingestio.World.Keeps.{Keeps}
use youtube_webhook_ingestio.Repository.Outcome.{context-eq-ok, attempt-eq-ok}
use youtube_webhook_ingestio.Repository.Enrichments.{as_enriched}
use youtube_webhook_ingestio.Repository.Jobs.{get_job_by_asynq_id, mark_job_processing}
use youtube_webhook_ingestio.Quota.{check_quota_available}
use youtube_webhook_ingestio.YouTube.Api.{ApiVideo, VideoListResponse}
use youtube_webhook_ingestio.YouTube.Mapping.{map_video_to_enrichment}
use youtube_webhook_ingestio.YouTube.Client.{video_parts, fetch_videos}
use youtube_webhook_ingestio.Queue.Worker.{
  EnrichmentHandler, on_job, on_enrichments, fetched, if_available, enrich_tracked, process_payload,
  process_task, job_or_none,
}
use youtube_webhook_ingestio.Queue.Worker.Untouched.{
  SameEnrichments, get_job-Same, processing-Same, check-Same, fetch-Same, on_job-Same,
  LeaveEnrichments,
}
use youtube_webhook_ingestio.Queue.Worker.Stored.{fail_job-not_ok, store-Added}
use youtube_webhook_ingestio.Queue.Worker.Fetched.{Fetched, fetch_videos-Fetched, map_items-first}

-- The API knows the video, and one row was added: its first item, mapped, with the time and the cost.
pub record Enriched (h : EnrichmentHandler) (video_id : String) (w w' : World) : Type 0 where
  pub response : VideoListResponse
  pub answered : h.youtube_client.api.videos_list (video_id ∷ []) ≡ ok response
  pub video : ApiVideo
  pub others : List ApiVideo
  pub items : response.items ≡ video ∷ others
  pub enrichment : VideoEnrichment
  pub mapped :
      map_video_to_enrichment h.youtube_client.api.parse_time video video_parts response.etag
      ≡ some enrichment
  pub id : ℕ
  pub time : Time
  pub rows :
      w'.db.video_api_enrichments
      ≡ w.db.video_api_enrichments
        ++ record (as_enriched time (record enrichment { quota_cost = 1 })) { id = id } ∷ []

module _ (h : EnrichmentHandler) (payload : EnrichVideoPayload) (job : Option EnrichmentJob)
    (leave : LeaveEnrichments h.callbacks) where
  found-Enriched :
      (found : Option (List VideoEnrichment)) (cost : ℕ) (w w' : World)
      → Fetched h.youtube_client payload.video_id found cost
      → on_enrichments h payload job found cost w ≡ (ok tt, w')
      → Enriched h payload.video_id w w'
  unfolding on_enrichments fail
  found-Enriched none cost w w' f q = absurd (ground arith)
  found-Enriched (some []) cost w w' f q = absurd (fail_job-not_ok job _ _ w w' q)
  found-Enriched (some (e ∷ rest)) cost w w' f q =
      let (video, others, items, mapped) =
        map_items-first h.youtube_client.api.parse_time f.response.etag f.response.items e rest
          (sym f.found_is) in
      let added = store-Added h payload job leave (record e { quota_cost = cost }) w w' q in
      record {
        response = f.response;
        answered = f.answered;
        video = video;
        others = others;
        items = items;
        enrichment = e;
        mapped = mapped;
        id = added.id;
        time = added.time;
        rows =
            added.rows
            ∙ ap
                (λ n.
                  w.db.video_api_enrichments
                  ++ record (as_enriched added.time (record e { quota_cost = n })) { id = added.id }
                    ∷ [])
                f.cost_is;
      }

  after-Same :
      {u w w' : World}
      → SameEnrichments u w
      → Enriched h payload.video_id w w'
      → Enriched h payload.video_id u w'
  after-Same {u} {w} {w'} same e = record {
    response = e.response;
    answered = e.answered;
    video = e.video;
    others = e.others;
    items = e.items;
    enrichment = e.enrichment;
    mapped = e.mapped;
    id = e.id;
    time = e.time;
    rows =
        e.rows
        ∙ ap
            (λ rows.
              rows
              ++ record (as_enriched e.time (record e.enrichment { quota_cost = 1 })) { id = e.id }
                ∷ [])
            same.rows;
  }

  fetched-Enriched :
      (r : Result (Option (List VideoEnrichment) × ℕ)) (w v w' : World)
      → fetch_videos h.youtube_client (payload.video_id ∷ []) w ≡ (r, v)
      → fetched h payload job r v ≡ (ok tt, w')
      → Enriched h payload.video_id v w'
  unfolding fetched
  fetched-Enriched (err e) w v w' f q = absurd (fail_job-not_ok job _ _ v w' q)
  fetched-Enriched (ok (found, cost)) w v w' f q =
      found-Enriched found cost v w'
        (fetch_videos-Fetched h.youtube_client payload.video_id found cost w v f) q

  available-Enriched :
      (b : Bool) (info : QuotaInfo) (w w' : World)
      → if_available h payload job b info w ≡ (ok tt, w')
      → Enriched h payload.video_id w w'
  unfolding if_available fail
  available-Enriched false info w w' q = absurd (ground arith)
  available-Enriched true info w w' q =
      let fetch = fetch_videos h.youtube_client (payload.video_id ∷ []) in
      let (r, v, p, k) = bind-eq-ok (attempt fetch) (fetched h payload job) w q in
      let e : fetch w ≡ (r, v) = attempt-eq-ok fetch w p in
      after-Same
        (record {
          rows =
              ap (λ x. x.1.db.video_api_enrichments) (sym e)
              ∙ ((fetch-Same h.youtube_client (payload.video_id ∷ [])).at w).rows;
        })
        (fetched-Enriched r w v w' e k)

  step-Same :
      {A : Type 0} (m : Action A) (w v : World) {a : A}
      → Keeps SameEnrichments m
      → m w ≡ (ok a, v)
      → SameEnrichments w v
  step-Same m w v k e = record {
    rows = ap (λ x. x.1.db.video_api_enrichments) (sym e) ∙ (k.at w).rows;
  }

  tracked-Enriched :
      (w w' : World)
      → enrich_tracked h payload job w ≡ (ok tt, w')
      → Enriched h payload.video_id w w'
  unfolding enrich_tracked
  tracked-Enriched w w' q =
      let mark : Action (Unit {0}) = on_job job mark_job_processing in
      let check : Action (Bool × QuotaInfo) =
        context "failed to check quota" (check_quota_available h.quota_manager 1) in
      let go : Bool × QuotaInfo → Action (Unit {0}) =
        λ answer. if_available h payload job answer.0 answer.1 in
      let (a, v, p, k) = bind-eq-ok mark (λ a. check >>= go) w q in
      let (answer, u, r, l) = bind-eq-ok check go v k in
      let marked = step-Same mark w v (on_job-Same job mark_job_processing processing-Same) p in
      let checked =
        step-Same (check_quota_available h.quota_manager 1) v u (check-Same h.quota_manager 1)
          (context-eq-ok "failed to check quota" (check_quota_available h.quota_manager 1) v r) in
      after-Same marked (after-Same checked (available-Enriched answer.0 answer.1 u w' l))

payload-Enriched :
    (h : EnrichmentHandler) (task_id : String) (payload : EnrichVideoPayload) (w w' : World)
    → LeaveEnrichments h.callbacks
    → process_payload h task_id payload w ≡ (ok tt, w')
    → Enriched h payload.video_id w w'
unfolding process_payload
payload-Enriched h task_id payload w w' leave q =
    let get : Action EnrichmentJob = get_job_by_asynq_id task_id in
    let go : Result EnrichmentJob → Action (Unit {0}) =
      λ job. enrich_tracked h payload (job_or_none job) in
    let (r, v, p, k) = bind-eq-ok (attempt get) go w q in
    after-Same h payload (job_or_none r) leave
      (record {
        rows =
            ap (λ x. x.1.db.video_api_enrichments) (sym (attempt-eq-ok get w p))
            ∙ ((get_job-Same task_id).at w).rows;
      })
      (tracked-Enriched h payload (job_or_none r) leave v w' k)

-- A video enrichment task that ends without an error has enriched its video, whatever calls have failed
-- on the way: the API has answered with the video, and exactly one row was added to the enrichments,
-- which is the API's first item, mapped, with a quota cost of 1. The callbacks must leave the table alone.
pub process_task-Enriched :
    (h : EnrichmentHandler) (task_id : String) (payload : EnrichVideoPayload) (w w' : World)
    → LeaveEnrichments h.callbacks
    → process_task h task_id (ok payload) w ≡ (ok tt, w')
    → Enriched h payload.video_id w w'
unfolding process_task context lift
process_task-Enriched h task_id payload w w' leave q =
    payload-Enriched h task_id payload w w' leave q
