-- ===== src/Repository/Blocked.antt =====
-- internal/db/repository/blocked_video.go
use youtube_webhook_ingestio.Base.{
  suc, String, Bool, true, false, not, Option, none, some, List, [], ◌∷◌, ◌++◌, map, keep, ◌==◌,
  is_some, if◌then◌else◌,
}
use Prim.Native.String.{◌++◌ as ◌<>◌}
use youtube_webhook_ingestio.Errors.{no_rows, plain}
use youtube_webhook_ingestio.Models.{BlockedVideo}
use youtube_webhook_ingestio.Table.{find}
use youtube_webhook_ingestio.World.Action.{ok, err, Action, pure, fail, context, remote, ◌>>=◌}
use youtube_webhook_ingestio.Repository.Statement.{Statement, on_tables, unique_violation}

abbrev pub by_blocked_id : BlockedVideo → String
by_blocked_id b = b.video_id

-- INSERT INTO blocked_videos … RETURNING …
unfoldable pub insert_blocked : String → String → Option String → Statement BlockedVideo
unfolding find
insert_blocked video_id reason created_by time db =
    let row : BlockedVideo = record {
      id = db.next_blocked_id;
      video_id = video_id;
      reason = reason;
      created_at = time;
      created_by = created_by;
    } in
    if is_some (find by_blocked_id video_id db.blocked_videos)
    then (err (unique_violation "blocked_videos_video_id_key"), db)
    else (
      ok row,
      record db {
        blocked_videos = db.blocked_videos ++ row ∷ [];
        next_blocked_id = suc db.next_blocked_id;
      },
    )

-- CreateBlockedVideo
unfoldable pub create_blocked_video : String → String → Option String → Action BlockedVideo
unfolding insert_blocked
create_blocked_video video_id reason created_by =
    context "failed to create blocked video"
      (remote (on_tables (insert_blocked video_id reason created_by)))

-- DELETE FROM blocked_videos WHERE video_id = $1; the result says whether a row was deleted.
unfoldable pub delete_rows : String → Statement Bool
unfolding find
delete_rows video_id time db = (
  ok (is_some (find by_blocked_id video_id db.blocked_videos)),
  record db { blocked_videos = keep (λ b. not (b.video_id == video_id)) db.blocked_videos },
)

unfoldable pub deleted_or_missing : String → Bool → Action (Unit {0})
unfolding pure fail
deleted_or_missing video_id true = pure tt
deleted_or_missing video_id false = fail (plain ("blocked video not found: " <> video_id))

-- DeleteBlockedVideo
unfoldable pub delete_blocked_video : String → Action (Unit {0})
unfolding delete_rows deleted_or_missing ◌>>=◌
delete_blocked_video video_id = do
  deleted ← context "failed to delete blocked video" (remote (on_tables (delete_rows video_id)))
  deleted_or_missing video_id deleted

unfoldable pub select_blocked : String → Statement BlockedVideo
unfolding find
select_blocked video_id time db = elim (find by_blocked_id video_id db.blocked_videos) [
  | none ↦ (err no_rows, db)
  | some b ↦ (ok b, db)
]

-- GetBlockedVideo. The driver's error for a missing row is pgx.ErrNoRows, which is not the value
-- sql.ErrNoRows that the code compares with, so it is wrapped like any other.
unfoldable pub get_blocked_video : String → Action (Option BlockedVideo)
unfolding select_blocked pure ◌>>=◌
get_blocked_video video_id = do
  b ← context "failed to get blocked video" (remote (on_tables (select_blocked video_id)))
  pure (some b)

-- SELECT video_id FROM blocked_videos
unfoldable pub select_blocked_ids : Statement (List String)
select_blocked_ids time db = (ok (map by_blocked_id db.blocked_videos), db)

-- GetAllBlockedVideoIDs
unfoldable pub get_all_blocked_video_ids : Action (List String)
unfolding select_blocked_ids
get_all_blocked_video_ids =
    context "failed to get all blocked video IDs" (remote (on_tables select_blocked_ids))
