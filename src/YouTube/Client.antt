-- ===== src/YouTube/Client.antt =====
-- internal/service/youtube/client.go: the client and FetchVideos, on the World for the quota that
-- it records. The HTTP client of Google's library is a parameter: what it answers.
use Prim.Native.String.{◌++◌ as ◌<>◌}
use youtube_webhook_ingestio.Base.{
  ℕ, String, Option, none, some, List, [], ◌∷◌, length, ltb, eqb, if◌then◌else◌,
}
use youtube_webhook_ingestio.Base.Decimal.{itoa}
use youtube_webhook_ingestio.Errors.{plain}
use youtube_webhook_ingestio.Models.{Time}
use youtube_webhook_ingestio.Models.Enrichment.{VideoEnrichment}
use youtube_webhook_ingestio.World.Action.{
  Result, Action, pure, fail, lift, attempt, context, ◌>>=◌, ◌>>◌,
}
use youtube_webhook_ingestio.Quota.{Manager, record_quota_usage}
use youtube_webhook_ingestio.YouTube.Api.{ApiVideo, VideoListResponse, ChannelListResponse}
use youtube_webhook_ingestio.YouTube.Mapping.{map_video_to_enrichment}

-- The calls of the API: videos.list, channels.list by id, by handle and by user name, and the channel IDs
-- that search.list finds.
pub record Api : Type 0 where
  pub videos_list : List String → Result VideoListResponse
  pub channels_by_id : String → Result ChannelListResponse
  pub channels_by_handle : String → Result ChannelListResponse
  pub channels_by_username : String → Result ChannelListResponse
  pub search_channels : String → Result (List String)
  -- time.Parse(time.RFC3339, s)
  pub parse_time : String → Option Time

-- Client; a quota tracker that is nil is `none`.
pub record Client : Type 0 where
  pub api : Api
  pub quota_tracker : Option Manager

-- SetQuotaTracker
unfoldable pub set_quota_tracker : Client → Option Manager → Client
set_quota_tracker c tracker = record c { quota_tracker = tracker }

-- `if c.quotaTracker != nil { … }`, with an error that is only logged
unfoldable pub track_with : Option Manager → ℕ → String → Action (Unit {0})
unfolding ◌>>=◌ pure
track_with none cost operation = pure tt
track_with (some m) cost operation = do attempt (record_quota_usage m cost operation); pure tt

unfoldable pub track_quota : Client → ℕ → String → Action (Unit {0})
track_quota c cost operation = track_with c.quota_tracker cost operation

abbrev pub video_parts : List String
video_parts =
    "snippet" ∷ "contentDetails" ∷ "statistics" ∷ "status" ∷ "topicDetails" ∷ "recordingDetails"
    ∷ "liveStreamingDetails" ∷ "player" ∷ []

abbrev pub and_more :
    Option VideoEnrichment → Option (List VideoEnrichment) → Option (List VideoEnrichment)
and_more none rest = none
and_more (some e) none = none
and_more (some e) (some rest) = some (e ∷ rest)

-- The loop over the items; `none` is the panic of mapVideoToEnrichment.
unfoldable pub map_items :
    (String → Option Time) → String → List ApiVideo → Option (List VideoEnrichment)
map_items parse_time etag [] = some []
map_items parse_time etag (video ∷ videos) =
    and_more (map_video_to_enrichment parse_time video video_parts etag)
      (map_items parse_time etag videos)

-- FetchVideos: the enrichments, `none` where the mapping panics, and the quota cost.
unfoldable pub fetch_videos : Client → List String → Action (Option (List VideoEnrichment) × ℕ)
unfolding ◌>>=◌ pure fail
fetch_videos c video_ids =
    if eqb (length video_ids) 0
    then fail (plain "no video IDs provided")
    else if ltb 50 (length video_ids)
    then fail (plain ("too many video IDs (max 50, got " <> itoa (length video_ids) <> ")"))
    else (do
      response ←
          context "failed to fetch videos from YouTube API" (lift (c.api.videos_list video_ids))
      track_quota c 1 "videos_list"
      pure (map_items c.api.parse_time response.etag response.items, 1))

-- FetchVideosBatch
unfoldable pub fetch_videos_batch :
    Client → List String → Action (Option (List VideoEnrichment) × ℕ)
fetch_videos_batch c video_ids = fetch_videos c video_ids
