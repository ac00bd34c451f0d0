-- ===== src/YouTube/Panic.antt =====
-- When mapVideoToEnrichment panics.
use youtube_webhook_ingestio.Base.{String, Option, none, some, List, ◌≡◌, ◌↔◌, refl, arith}
use youtube_webhook_ingestio.Models.{Time}
use youtube_webhook_ingestio.Models.Enrichment.{VideoEnrichment}
use youtube_webhook_ingestio.YouTube.Api.{Status, LiveStreamingDetails, ApiVideo}
use youtube_webhook_ingestio.YouTube.Mapping.{
  with_live_details, with_parts, unmapped, map_video_to_enrichment,
}

with_live_details_iff :
    (parse_time : String → Option Time) (status : Option Status)
    (live : Option LiveStreamingDetails) (e : VideoEnrichment)
    → (with_live_details parse_time status live e ≡ none)
      ↔ ((status ≡ none) × (l : LiveStreamingDetails) × (live ≡ some l))
unfolding with_live_details
with_live_details_iff parse_time none none e = (λ h. absurd (ground arith), λ x. absurd (cc (x.2)))
with_live_details_iff parse_time none (some l) e = (λ h. (refl, l, refl), λ x. refl)
with_live_details_iff parse_time (some s) none e =
    (λ h. absurd (ground arith), λ x. absurd (cc (x.0)))
with_live_details_iff parse_time (some s) (some l) e =
    (λ h. absurd (ground arith), λ x. absurd (cc (x.0)))

-- The mapping of a video panics exactly when the API's answer has live streaming details for it and no
-- status, whatever else the answer has.
pub map_video_to_enrichment-panics :
    (parse_time : String → Option Time) (video : ApiVideo) (parts : List String) (etag : String)
    → (map_video_to_enrichment parse_time video parts etag ≡ none) ↔ (
        (video.status ≡ none)
        × (l : LiveStreamingDetails) × (video.live_streaming_details ≡ some l))
unfolding map_video_to_enrichment
map_video_to_enrichment-panics parse_time video parts etag =
    with_live_details_iff parse_time video.status video.live_streaming_details
      (with_parts video (unmapped video parts etag))
