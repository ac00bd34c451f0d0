-- ===== src/Repository/Deletions.antt =====
-- internal/db/repository/video.go and channel.go: Delete. The foreign keys of the migrations on a video, on a
-- channel and on the job of a detection say ON DELETE CASCADE, so the statement deletes the rows that refer
-- to the rows deleted, too.
pub mod References
use youtube_webhook_ingestio.Base.{
  String, Bool, true, false, not, ◌&&◌, ◌==◌, List, [], ◌∷◌, keep, eqb, if◌then◌else◌, ℕ,
}
use youtube_webhook_ingestio.Errors.{no_rows, wrap_failure}
use youtube_webhook_ingestio.Models.{Channel, Video}
use youtube_webhook_ingestio.Models.Sponsor.{SponsorDetectionJob}
use youtube_webhook_ingestio.World.{Db}
use youtube_webhook_ingestio.World.Action.{ok, Action, pure, fail, ◌>>=◌}
use youtube_webhook_ingestio.Repository.Statement.{Statement, statement}

-- A row of the list meets the test.
unfoldable pub any : {A : Type 0} → (A → Bool) → List A → Bool
any p [] = false
any p (x ∷ rows) = if p x then true else any p rows

abbrev pub has_video : List Video → String → Bool
has_video videos id = any (λ v. v.video_id == id) videos

abbrev pub has_channel : List Channel → String → Bool
has_channel channels id = any (λ c. c.channel_id == id) channels

abbrev pub has_detection_job : List SponsorDetectionJob → ℕ → Bool
has_detection_job jobs id = any (λ j. eqb j.id id) jobs

-- The foreign key of video_updates on videos
abbrev pub without_updates_of : (String → Bool) → Db → Db
without_updates_of gone db = record db {
  video_updates = keep (λ u. not (gone u.video_id)) db.video_updates;
}

-- The foreign key of video_api_enrichments
abbrev pub without_enrichments_of : (String → Bool) → Db → Db
without_enrichments_of gone db = record db {
  video_api_enrichments = keep (λ e. not (gone e.video_id)) db.video_api_enrichments;
}

-- The foreign key of enrichment_jobs
abbrev pub without_jobs_of : (String → Bool) → Db → Db
without_jobs_of gone db = record db {
  enrichment_jobs = keep (λ j. not (gone j.video_id)) db.enrichment_jobs;
}

-- The foreign key of video_sponsors on videos
abbrev pub without_links_of : (String → Bool) → Db → Db
without_links_of gone db = record db {
  video_sponsors = keep (λ l. not (gone l.video_id)) db.video_sponsors;
}

-- The foreign key of video_sponsors on the jobs of detections, for the jobs whose video is gone
abbrev pub without_links_of_jobs : (String → Bool) → Db → Db
without_links_of_jobs gone db = record db {
  video_sponsors =
      keep
        (λ l. not (
          has_detection_job (keep (λ j. gone j.video_id) db.sponsor_detection_jobs)
            l.detection_job_id))
        db.video_sponsors;
}

-- The foreign key of sponsor_detection_jobs on videos
abbrev pub without_detection_jobs_of : (String → Bool) → Db → Db
without_detection_jobs_of gone db = record db {
  sponsor_detection_jobs = keep (λ j. not (gone j.video_id)) db.sponsor_detection_jobs;
}

-- The deletion of the videos that meet a test, with all that refers to them
abbrev pub without_videos : (Video → Bool) → Db → Db
without_videos p db =
    let gone = has_video (keep p db.videos) in
    without_detection_jobs_of gone (
      without_links_of_jobs gone (
        without_links_of gone (
          without_jobs_of gone (
            without_enrichments_of gone
              (without_updates_of gone (record db { videos = keep (λ v. not (p v)) db.videos }))))))

-- DELETE FROM videos WHERE video_id = $1; the result is whether RowsAffected is above 0.
unfoldable pub delete_video_rows : String → Statement Bool
delete_video_rows id time db =
    (ok (has_video db.videos id), without_videos (λ v. v.video_id == id) db)

-- The foreign key of video_updates on channels
abbrev pub without_updates_of_channel : String → Db → Db
without_updates_of_channel id db = record db {
  video_updates = keep (λ u. not (u.channel_id == id)) db.video_updates;
}

-- The foreign key of channel_api_enrichments
abbrev pub without_enrichments_of_channel : String → Db → Db
without_enrichments_of_channel id db = record db {
  channel_api_enrichments = keep (λ e. not (e.channel_id == id)) db.channel_api_enrichments;
}

-- The channel, with the rows that refer to it themselves
abbrev pub without_channel : String → Db → Db
without_channel id db = without_enrichments_of_channel id (
    without_updates_of_channel id
      (record db { channels = keep (λ c. not (c.channel_id == id)) db.channels }))

-- DELETE FROM channels WHERE channel_id = $1; the result is whether RowsAffected is above 0.
unfoldable pub delete_channel_rows : String → Statement Bool
delete_channel_rows id time db = (
  ok (has_channel db.channels id),
  without_channel id (without_videos (λ v. v.channel_id == id) db),
)

-- `if result.RowsAffected() == 0 { return db.WrapError(pgx.ErrNoRows, …) }`
abbrev pub unless_missing : String → Bool → Action (Unit {0})
unless_missing operation deleted =
    if deleted then pure tt else fail (wrap_failure no_rows operation)

-- Delete of the videos
unfoldable pub delete_video : String → Action (Unit {0})
unfolding ◌>>=◌
delete_video id = statement "delete video" (delete_video_rows id) >>= unless_missing "delete video"

-- Delete of the channels
unfoldable pub delete_channel : String → Action (Unit {0})
unfolding ◌>>=◌
delete_channel id =
    statement "delete channel" (delete_channel_rows id) >>= unless_missing "delete channel"
