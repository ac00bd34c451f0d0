-- ===== src/Tests/Listings.antt =====
-- Runs of the deletions and of the listings.
use youtube_webhook_ingestio.Base.{
  String, Bool, none, some, [], ◌∷◌, ◌≡◌, ◌==◌, if◌then◌else◌, refl, true, leb, arith,
}
use youtube_webhook_ingestio.Models.{Channel, Video, Time}
use youtube_webhook_ingestio.World.{World}
use youtube_webhook_ingestio.Repository.Listings.{OrderBy, VideoFilters, list_video_page}
use youtube_webhook_ingestio.Repository.Listings.Pages.{Paged}
use youtube_webhook_ingestio.Repository.Listings.Videos.{IsWanted, list_video_page-Paged}
use youtube_webhook_ingestio.Repository.Deletions.{delete_channel, any}
use youtube_webhook_ingestio.Repository.Deletions.References.{
  IsReferential, delete_channel-IsReferential,
}
use youtube_webhook_ingestio.Tests.Enrichment.{queued}
use youtube_webhook_ingestio.Repository.Listings.{list_page, select_listed}
use youtube_webhook_ingestio.Repository.Statement.{statement}
use youtube_webhook_ingestio.World.Action.{remote}
use youtube_webhook_ingestio.Repository.Rows.{rows_where, ordered, insert_ordered}

abbrev channel : Channel
channel = record {
  channel_id = "UCuAXFkgsw1L7xaCfnd5JJOw";
  title = "A channel";
  channel_url = "https://www.youtube.com/channel/UCuAXFkgsw1L7xaCfnd5JJOw";
  first_seen_at = 1;
  last_updated_at = 1;
  created_at = 1;
  updated_at = 1;
}

abbrev referring : World
referring = record queued { db = record queued.db { channels = channel ∷ [] } }

is_referential : IsReferential referring.db
unfolding any
is_referential = record {
  videos = (refl, tt);
  updates = tt;
  enrichments = tt;
  jobs = (refl, tt);
  channel_enrichments = tt;
  detections = tt;
  links = tt;
}

delete_channel-IsReferential_example :
    IsReferential (delete_channel "UCuAXFkgsw1L7xaCfnd5JJOw" referring).1.db
delete_channel-IsReferential_example =
    delete_channel-IsReferential "UCuAXFkgsw1L7xaCfnd5JJOw" referring is_referential

abbrev video_at : String → String → Time → Video
video_at id channel_id time = record {
  video_id = id;
  channel_id = channel_id;
  title = "A title";
  video_url = "";
  published_at = time;
  first_seen_at = time;
  last_updated_at = time;
  created_at = time;
  updated_at = time;
}

-- two videos of the channel, and one of another channel between them
abbrev with_videos : World
with_videos = record referring {
  db = record referring.db {
    videos =
        video_at "a" "UCuAXFkgsw1L7xaCfnd5JJOw" 10
        ∷ video_at "b" "UCanother" 20
        ∷ video_at "c" "UCuAXFkgsw1L7xaCfnd5JJOw" 30
        ∷ [];
  };
}

-- the second page of one video
abbrev of_the_channel : VideoFilters
of_the_channel = record {
  limit = 1;
  offset = 1;
  channel_id = "UCuAXFkgsw1L7xaCfnd5JJOw";
  title = "";
  published_after = some 1;
  published_before = none;
  order_by = "";
  order_dir = "";
}

abbrev newest_first : Video → Video → Bool
newest_first s t = leb t.published_at s.published_at

abbrev published_desc : OrderBy Video
published_desc text = if text == "published_at DESC" then some newest_first else none

list_video_page-Paged_example :
    Paged
      (IsWanted (λ text pattern. true) of_the_channel)
      newest_first
      with_videos.db.videos
      1
      1
      2
      (video_at "a" "UCuAXFkgsw1L7xaCfnd5JJOw" 10 ∷ [])
    × (with_videos.db ≡ with_videos.db)
unfolding list_video_page list_page statement remote select_listed rows_where ordered insert_ordered
list_video_page-Paged_example =
    list_video_page-Paged (λ text pattern. true) published_desc of_the_channel newest_first
      with_videos with_videos (video_at "a" "UCuAXFkgsw1L7xaCfnd5JJOw" 10 ∷ []) 2 refl
      (λ s t h. ground (arith, h)) (λ s t u p q. ground (arith, p, q)) refl
