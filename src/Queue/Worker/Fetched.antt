-- ===== src/Queue/Worker/Fetched.antt =====
-- What FetchVideos returns for one video.
use youtube_webhook_ingestio.Base.{
  ℕ, String, Option, none, some, ◌≡◌, refl, ap, arith, List, [], ◌∷◌,
}
use youtube_webhook_ingestio.Models.{Time}
use youtube_webhook_ingestio.Models.Enrichment.{VideoEnrichment}
use youtube_webhook_ingestio.World.{World}
use youtube_webhook_ingestio.World.Action.{
  Result, ok, Action, pure, lift, context, ◌>>=◌, bind-eq-ok,
}
use youtube_webhook_ingestio.Repository.Outcome.{context-eq-ok}
use youtube_webhook_ingestio.YouTube.Api.{ApiVideo, VideoListResponse}
use youtube_webhook_ingestio.YouTube.Mapping.{map_video_to_enrichment}
use youtube_webhook_ingestio.YouTube.Client.{
  Client, video_parts, map_items, and_more, fetch_videos, track_quota,
}

-- The answer of the API that an enrichment comes from.
pub record Fetched (c : Client) (video_id : String) (found : Option (List VideoEnrichment))
    (cost : ℕ) : Type 0 where
  pub response : VideoListResponse
  pub answered : c.api.videos_list (video_id ∷ []) ≡ ok response
  pub found_is : found ≡ map_items c.api.parse_time response.etag response.items
  pub cost_is : cost ≡ 1

lift-ok :
    {A : Type 0} (before : String) (r : Result A) (w v : World) {a : A}
    → context before (lift r) w ≡ (ok a, v)
    → r ≡ ok a
unfolding lift
lift-ok before r w v h = ap (λ x. x.0) (context-eq-ok before (lift r) w h)

pub fetch_videos-Fetched :
    (c : Client) (video_id : String) (found : Option (List VideoEnrichment)) (cost : ℕ)
    (w v : World)
    → fetch_videos c (video_id ∷ []) w ≡ (ok (found, cost), v)
    → Fetched c video_id found cost
unfolding fetch_videos pure
fetch_videos-Fetched c video_id found cost w v h =
    let call : Action VideoListResponse =
      context "failed to fetch videos from YouTube API"
        (lift (c.api.videos_list (video_id ∷ []))) in
    let finish : VideoListResponse → Action (Option (List VideoEnrichment) × ℕ) =
      λ response. pure (map_items c.api.parse_time response.etag response.items, 1) in
    let (response, u, p, k) =
      bind-eq-ok call (λ response. track_quota c 1 "videos_list" >>= λ a. finish response) w h in
    let (a, t, q, l) = bind-eq-ok (track_quota c 1 "videos_list") (λ a. finish response) u k in
    record {
      response = response;
      answered =
          lift-ok "failed to fetch videos from YouTube API" (c.api.videos_list (video_id ∷ [])) w u
            p;
      found_is = ground (arith, l);
      cost_is = ground (arith, l);
    }

and_more-some :
    (x : Option VideoEnrichment) (y : Option (List VideoEnrichment)) (e : VideoEnrichment)
    (rest : List VideoEnrichment)
    → and_more x y ≡ some (e ∷ rest)
    → x ≡ some e
and_more-some none y e rest h = cc
and_more-some (some a) none e rest h = cc
and_more-some (some a) (some b) e rest h = ground arith

pub map_items-first :
    (parse_time : String → Option Time) (etag : String) (items : List ApiVideo)
    (e : VideoEnrichment) (rest : List VideoEnrichment)
    → map_items parse_time etag items ≡ some (e ∷ rest)
    → (video : ApiVideo) × (others : List ApiVideo) × (items ≡ video ∷ others)
      × (map_video_to_enrichment parse_time video video_parts etag ≡ some e)
unfolding map_items
map_items-first parse_time etag [] e rest h = absurd (ground arith)
map_items-first parse_time etag (video ∷ others) e rest h =
    (video, others, refl, and_more-some _ (map_items parse_time etag others) e rest h)
