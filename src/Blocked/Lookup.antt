-- ===== src/Blocked/Lookup.antt =====
-- GET /api/v1/blocked-videos/{video_id} by the table.
use youtube_webhook_ingestio.Base.{String, ◌≡◌, arith, if◌then◌else◌}
use youtube_webhook_ingestio.World.{World, calm}
use youtube_webhook_ingestio.World.Action.{
  pure, context, remote, answer, next_fault, later_faults, ◌>>=◌,
}
use youtube_webhook_ingestio.Repository.Blocked.{select_blocked, get_blocked_video}
use youtube_webhook_ingestio.Blocked.Handler.{Json, found_response, handle_get}
use youtube_webhook_ingestio.Blocked.Consistency.{in_table}

-- When no call fails, the answer to the look-up of a blocked video is 200 for a video of the table and
-- 500 for any other, and no table is changed.
pub handle_get-status :
    (json : Json) (video_id : String) (w : World)
    → ((handle_get json video_id (calm w)).0.status ≡ (if in_table video_id w then 200 else 500))
      × ((handle_get json video_id (calm w)).1.db ≡ w.db)
unfolding handle_get found_response get_blocked_video select_blocked context remote answer
    next_fault later_faults pure ◌>>=◌
handle_get-status json video_id w = (ground arith, ground arith)
