-- ===== src/Repository/VideoRows.antt =====
-- internal/db/repository/video.go: the statements of the API, but for Delete, which cascades, and List,
-- which sorts by a column of the query.
use youtube_webhook_ingestio.Base.{
  ℕ, String, true, List, [], ◌∷◌, ◌++◌, ◌==◌, if◌then◌else◌, is_some, take, drop, leb, none, some,
}
use youtube_webhook_ingestio.Errors.{no_rows}
use youtube_webhook_ingestio.Models.{Time, Video}
use youtube_webhook_ingestio.Table.{find}
use youtube_webhook_ingestio.World.Action.{ok, err, Action, now, ◌>>=◌}
use youtube_webhook_ingestio.Repository.Rows.{rows_where, first_rows, descending}
use youtube_webhook_ingestio.Repository.Statement.{
  Statement, statement, unique_violation, foreign_key_failure,
}
use youtube_webhook_ingestio.Repository.Videos.{by_channel_id, by_video_id}

-- GetVideosByChannelID. A LIMIT or OFFSET below zero, which PostgreSQL refuses, is one more fault.
unfoldable pub get_videos_by_channel_id : String → ℕ → Action (List Video)
get_videos_by_channel_id channel_id limit = statement "get videos by channel id" λ time db. (
  ok (
      first_rows (λ v. v.channel_id == channel_id) (descending (λ v. v.published_at)) limit
        db.videos),
  db,
)

-- ListVideos
unfoldable pub list_videos : ℕ → ℕ → Action (List Video)
list_videos limit offset = statement "list videos" λ time db. (
  ok (
      take limit
        (drop offset (rows_where (λ v. true) (descending (λ v. v.published_at)) db.videos))),
  db,
)

-- GetVideosByPublishedDate
unfoldable pub get_videos_by_published_date : Time → ℕ → Action (List Video)
get_videos_by_published_date since limit = statement "get videos by published date" λ time db. (
  ok (
      first_rows (λ v. leb since v.published_at) (descending (λ v. v.published_at)) limit
        db.videos),
  db,
)

-- INSERT INTO videos … RETURNING …
unfoldable pub insert_video : Video → Statement Video
unfolding find
insert_video video time db =
    if is_some (find by_video_id video.video_id db.videos)
    then (err (unique_violation "videos_pkey"), db)
    else if is_some (find by_channel_id video.channel_id db.channels)
    then (ok video, record db { videos = db.videos ++ video ∷ [] })
    else (err (foreign_key_failure "videos_channel_id_fkey"), db)

-- Create; the result is the video with what the statement returns.
unfoldable pub create_video : Video → Action Video
create_video video = statement "create video" (insert_video video)

-- SET title = $1, video_url = $2, published_at = $3, last_updated_at = $4, updated_at = $5
abbrev pub video_as_updated : Time → Video → Video → Video
video_as_updated time video row = record row {
  title = video.title;
  video_url = video.video_url;
  published_at = video.published_at;
  last_updated_at = time;
  updated_at = time;
}

-- UPDATE … WHERE video_id = $6
unfoldable pub replace_video : (Video → Video) → String → List Video → List Video
replace_video f video_id [] = []
replace_video f video_id (v ∷ rows) =
    (if v.video_id == video_id then f v else v) ∷ replace_video f video_id rows

-- `time` is that of time.Now(); the result is the row that RETURNING gives.
unfoldable pub change_video : Time → Video → Statement Video
change_video time video statement_time db = elim (find by_video_id video.video_id db.videos) [
  | none ↦ (err no_rows, db)
  | some row ↦ (
    ok (video_as_updated time video row),
    record db { videos = replace_video (video_as_updated time video) video.video_id db.videos },
  )
]

-- Update; the result is the video with what the statement returns.
unfoldable pub update_video_row : Video → Action Video
unfolding ◌>>=◌
update_video_row video = do time ← now; statement "update video" (change_video time video)
