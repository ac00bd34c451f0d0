-- ===== src/Queue/Worker/Panicking.antt =====
-- What a video enrichment task has done when the mapping of the API's answer panics, which asynq recovers
-- from as from an error.
use youtube_webhook_ingestio.Base.{
  ◌+◌, ◌≤◌, String, true, Option, none, some, List, [], ◌∷◌, ◌++◌, ◌≡◌, refl, arith,
}
use youtube_webhook_ingestio.Errors.{plain}
use youtube_webhook_ingestio.Models.{Time, EnrichmentJob, QuotaInfo}
use youtube_webhook_ingestio.Models.Enrichment.{VideoEnrichment}
use youtube_webhook_ingestio.World.{World, EnrichVideoPayload, calm}
use youtube_webhook_ingestio.World.Action.{
  ok, err, pure, fail, lift, attempt, context, remote, ◌>>=◌,
}
use youtube_webhook_ingestio.Repository.Statement.{statement}
use youtube_webhook_ingestio.Repository.Jobs.{find_job}
use youtube_webhook_ingestio.Repository.Quota.{
  add_usage, get_todays_quota, select_todays_quota, increment_quota, increment_todays_quota,
}
use youtube_webhook_ingestio.Quota.{Manager, threshold_quota, is_available, record_quota_usage}
use youtube_webhook_ingestio.Quota.Threshold.{used_today, is_available_iff}
use youtube_webhook_ingestio.YouTube.Api.{LiveStreamingDetails, ApiVideo, VideoListResponse}
use youtube_webhook_ingestio.YouTube.Mapping.{map_video_to_enrichment}
use youtube_webhook_ingestio.YouTube.Panic.{map_video_to_enrichment-panics}
use youtube_webhook_ingestio.YouTube.Client.{
  and_more, map_items, track_with, track_quota, fetch_videos, video_parts,
}
use youtube_webhook_ingestio.Queue.Worker.{
  EnrichmentHandler, fetched, on_enrichments, if_available, enrich_tracked, process_payload,
  process_task,
}
use youtube_webhook_ingestio.Queue.Worker.Exhausted.{
  info_today, started, get_job-calm, check-calm, mark-calm,
}

and_more-none : (e : Option VideoEnrichment) → and_more e none ≡ none
and_more-none none = refl
and_more-none (some e) = refl

map_items-panics :
    (parse_time : String → Option Time) (etag : String) (first rest : List ApiVideo)
    (video : ApiVideo)
    → map_video_to_enrichment parse_time video video_parts etag ≡ none
    → map_items parse_time etag (first ++ video ∷ rest) ≡ none
unfolding map_items
map_items-panics parse_time etag [] rest video h = simp h refl
map_items-panics parse_time etag (v ∷ first) rest video h =
    simp (map_items-panics parse_time etag first rest video h) (and_more-none _)

-- The world in which a call of the API is recorded.
abbrev pub paid : Manager → World → World
paid m w = record w {
  db = record w.db {
    api_quota_usage = add_usage (m.day w.clock) 1 "videos_list" w.db.api_quota_usage;
  };
}

track-calm :
    (m : Manager) (w : World)
    → track_with (some m) 1 "videos_list" (calm w) ≡ (ok tt, calm (paid m w))
unfolding track_with record_quota_usage increment_quota increment_todays_quota get_todays_quota
    select_todays_quota statement remote context attempt ◌>>=◌ pure
track-calm m w = refl

if_available-panics :
    (h : EnrichmentHandler) (payload : EnrichVideoPayload) (job : Option EnrichmentJob)
    (m : Manager) (w : World) (response : VideoListResponse) (info : QuotaInfo)
    → h.youtube_client.quota_tracker ≡ some m
    → h.youtube_client.api.videos_list (payload.video_id ∷ []) ≡ ok response
    → map_items h.youtube_client.api.parse_time response.etag response.items ≡ none
    → if_available h payload job true info (calm w) ≡ (
      err (plain "panic: runtime error: invalid memory address or nil pointer dereference"),
      calm (paid m w),
    )
unfolding if_available fetch_videos fetched on_enrichments track_quota context lift attempt fail
    pure ◌>>=◌
if_available-panics h payload job m w response info q a p = simp (a, q, track-calm m w, p) refl

available_info :
    (m : Manager) (info : QuotaInfo)
    → info.quota_used + 1 ≤ threshold_quota m
    → is_available m 1 info ≡ true
available_info m info h = (is_available_iff m 1 info).1 (omega (arith, h), h)

-- When the job of a video enrichment task is in the table, the quota has room for one unit, the client has a
-- quota tracker, no call fails, and the API's answer has an item with live streaming details and no status,
-- the task panics. All it has done is to mark its job as processing and to record one unit of quota: no
-- enrichment is stored, also of the other items, and the job is neither failed nor pending again.
pub process_task-panics :
    (h : EnrichmentHandler) (task_id : String) (payload : EnrichVideoPayload) (j : EnrichmentJob)
    (w : World) (m : Manager) (etag : String) (first rest : List ApiVideo) (video : ApiVideo)
    (live : LiveStreamingDetails)
    → find_job task_id w.db.enrichment_jobs ≡ some j
    → used_today h.quota_manager w + 1 ≤ threshold_quota h.quota_manager
    → h.youtube_client.quota_tracker ≡ some m
    → h.youtube_client.api.videos_list (payload.video_id ∷ [])
      ≡ ok (record { etag = etag; items = first ++ video ∷ rest })
    → video.status ≡ none
    → video.live_streaming_details ≡ some live
    → process_task h task_id (ok payload) (calm w) ≡ (
      err (plain "panic: runtime error: invalid memory address or nil pointer dereference"),
      calm (paid m (started j.id w)),
    )
unfolding process_task process_payload enrich_tracked context lift attempt ◌>>=◌
process_task-panics h task_id payload j w m etag first rest video live q room tracker a s l =
    let parse_time = h.youtube_client.api.parse_time in
    let panic = (map_video_to_enrichment-panics parse_time video video_parts etag).1 (s, live, l) in
    simp
      (
        get_job-calm task_id w j q,
        mark-calm j w,
        check-calm h.quota_manager (started j.id w),
        available_info h.quota_manager (info_today h.quota_manager w) room,
      )
      (if_available-panics h payload (some j) m (started j.id w)
        (record { etag = etag; items = first ++ video ∷ rest }) (info_today h.quota_manager w)
        tracker a (map_items-panics parse_time etag first rest video panic))
