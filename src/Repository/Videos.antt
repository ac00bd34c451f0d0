-- ===== src/Repository/Videos.antt =====
-- internal/db/repository/video.go and channel.go: the statements that the event processor runs.
use youtube_webhook_ingestio.Base.{String, ◌||◌, none, some, ◌==◌, if◌then◌else◌, is_some}
use youtube_webhook_ingestio.Errors.{no_rows}
use youtube_webhook_ingestio.Models.{Channel, Video}
use youtube_webhook_ingestio.Table.{find, upsert}
use youtube_webhook_ingestio.World.Action.{ok, err, Action}
use youtube_webhook_ingestio.Repository.Statement.{Statement, statement, foreign_key_failure}

abbrev pub by_channel_id : Channel → String
by_channel_id c = c.channel_id

abbrev pub by_video_id : Video → String
by_video_id v = v.video_id

-- DO UPDATE SET title = CASE WHEN EXCLUDED.title != '' THEN EXCLUDED.title ELSE channels.title END, …
abbrev pub update_channel : Channel → Channel → Channel
update_channel excluded c = record c {
  title = if excluded.title == "" then c.title else excluded.title;
  channel_url = excluded.channel_url;
  last_updated_at = excluded.last_updated_at;
  updated_at = excluded.updated_at;
}

unfoldable pub put_channel : Channel → Statement (Unit {0})
unfolding upsert
put_channel channel time db = (
  ok tt,
  record db {
    channels = upsert by_channel_id channel.channel_id channel (update_channel channel) db.channels;
  },
)

-- UpsertChannel
unfoldable pub upsert_channel : Channel → Action (Unit {0})
unfolding put_channel statement
upsert_channel channel = statement "upsert channel" (put_channel channel)

select_channel : String → Statement Channel
unfolding find
select_channel channel_id time db = elim (find by_channel_id channel_id db.channels) [
  | none ↦ (err no_rows, db)
  | some c ↦ (ok c, db)
]

-- GetChannelByID
unfoldable pub get_channel_by_id : String → Action Channel
unfolding select_channel statement
get_channel_by_id channel_id = statement "get channel by id" (select_channel channel_id)

-- DO UPDATE SET title = EXCLUDED.title, …: the row keeps its channel.
abbrev pub update_video : Video → Video → Video
update_video excluded v = record v {
  title = excluded.title;
  video_url = excluded.video_url;
  published_at = excluded.published_at;
  last_updated_at = excluded.last_updated_at;
  updated_at = excluded.updated_at;
}

-- The reference to the channel is checked where a row is inserted; an update leaves it as it is.
unfoldable pub put_video : Video → Statement (Unit {0})
unfolding find upsert
put_video video time db =
    if is_some (find by_video_id video.video_id db.videos)
      || is_some (find by_channel_id video.channel_id db.channels)
    then (
      ok tt,
      record db { videos = upsert by_video_id video.video_id video (update_video video) db.videos },
    )
    else (err (foreign_key_failure "videos_channel_id_fkey"), db)

-- UpsertVideo
unfoldable pub upsert_video : Video → Action (Unit {0})
unfolding put_video statement
upsert_video video = statement "upsert video" (put_video video)

unfoldable pub select_video : String → Statement Video
unfolding find
select_video video_id time db = elim (find by_video_id video_id db.videos) [
  | none ↦ (err no_rows, db)
  | some v ↦ (ok v, db)
]

-- GetVideoByID
unfoldable pub get_video_by_id : String → Action Video
unfolding select_video statement
get_video_by_id video_id = statement "get video by id" (select_video video_id)
