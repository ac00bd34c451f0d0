-- ===== src/Repository/VideoUpdates.antt =====
-- internal/db/repository/video_update.go: the history of the videos, which only grows.
use youtube_webhook_ingestio.Base.{
  ℕ, String, true, List, ◌==◌, eqb, keep, suc, not, [], ◌∷◌, ◌++◌, if◌then◌else◌, is_some,
}
use youtube_webhook_ingestio.Models.{VideoUpdate}
use youtube_webhook_ingestio.Table.{find}
use youtube_webhook_ingestio.World.Action.{ok, err, Action}
use youtube_webhook_ingestio.Repository.Statement.{Statement, statement, foreign_key_failure}
use youtube_webhook_ingestio.Repository.Rows.{first_rows, descending, row_or_none, head_row}
use youtube_webhook_ingestio.Repository.WebhookEvents.{find_event}
use youtube_webhook_ingestio.Repository.Videos.{by_channel_id, by_video_id}

-- INSERT INTO video_updates …: the row refers to an event, a video and a channel.
unfoldable pub insert_update : VideoUpdate → Statement (Unit {0})
unfolding find find_event
insert_update update time db =
    let row : VideoUpdate = record update { id = db.next_update_id } in
    if not (is_some (find_event update.webhook_event_id db.webhook_events))
    then (err (foreign_key_failure "video_updates_webhook_event_id_fkey"), db)
    else if not (is_some (find by_video_id update.video_id db.videos))
    then (err (foreign_key_failure "video_updates_video_id_fkey"), db)
    else if not (is_some (find by_channel_id update.channel_id db.channels))
    then (err (foreign_key_failure "video_updates_channel_id_fkey"), db)
    else (
      ok tt,
      record db {
        video_updates = db.video_updates ++ row ∷ [];
        next_update_id = suc db.next_update_id;
      },
    )

-- CreateVideoUpdate
unfoldable pub create_video_update : VideoUpdate → Action (Unit {0})
unfolding insert_update statement
create_video_update update = statement "create video update" (insert_update update)

-- GetUpdatesByVideoID. A LIMIT below zero, which PostgreSQL refuses, is one more fault.
unfoldable pub get_updates_by_video_id : String → ℕ → Action (List VideoUpdate)
get_updates_by_video_id video_id limit = statement "get updates by video id" λ time db. (
  ok (
      first_rows (λ u. u.video_id == video_id) (descending (λ u. u.created_at)) limit
        db.video_updates),
  db,
)

-- GetUpdatesByChannelID
unfoldable pub get_updates_by_channel_id : String → ℕ → Action (List VideoUpdate)
get_updates_by_channel_id channel_id limit = statement "get updates by channel id" λ time db. (
  ok (
      first_rows (λ u. u.channel_id == channel_id) (descending (λ u. u.created_at)) limit
        db.video_updates),
  db,
)

-- GetRecentUpdates
unfoldable pub get_recent_updates : ℕ → Action (List VideoUpdate)
get_recent_updates limit = statement "get recent updates" λ time db.
    (ok (first_rows (λ u. true) (descending (λ u. u.created_at)) limit db.video_updates), db)

-- GetUpdateByID
unfoldable pub get_update_by_id : ℕ → Action VideoUpdate
get_update_by_id id =
    statement "get video update by id"
      λ time db. (row_or_none (head_row (keep (λ u. eqb u.id id) db.video_updates)), db)
