-- ===== src/Tests/Blocking.antt =====
-- Runs of the cache and the handler of blocked videos.
use youtube_webhook_ingestio.Base.{◌≡◌, refl, none, [], ◌∷◌, if◌then◌else◌}
use youtube_webhook_ingestio.Models.{BlockedVideo}
use youtube_webhook_ingestio.Table.{find}
use youtube_webhook_ingestio.World.{World, calm}
use youtube_webhook_ingestio.World.Action.{ok, context, remote, attempt}
use youtube_webhook_ingestio.Blocked.{load_from_db}
use youtube_webhook_ingestio.Blocked.Handler.{Json, handle_create, handle_get, handle_delete}
use youtube_webhook_ingestio.Blocked.Consistency.{in_table, Consistent}
use youtube_webhook_ingestio.Blocked.Sync.{
  Loaded, load_from_db-ok, handle_create-Consistent, handle_delete-Consistent,
}
use youtube_webhook_ingestio.Blocked.Lookup.{handle_get-status}
use youtube_webhook_ingestio.Repository.Blocked.{get_all_blocked_video_ids}
use youtube_webhook_ingestio.Tests.{first_world, no_rows_yet}

abbrev row : BlockedVideo
row = record {
  id = 1;
  video_id = "dQw4w9WgXcQ";
  reason = "not an advertisement";
  created_at = 150;
  created_by = none;
}

-- One video in the table, another in the set.
abbrev stale : World
stale = record (first_world []) {
  db = record no_rows_yet { blocked_videos = row ∷ []; next_blocked_id = 2 };
}

abbrev loaded : World
loaded = record stale { blocked_set = "dQw4w9WgXcQ" ∷ [] }

abbrev json : Json
json = record { row = λ b. "{}"; error = λ e m. "{}" }

load_from_db-ok_example : Loaded stale loaded
unfolding load_from_db get_all_blocked_video_ids context remote attempt
load_from_db-ok_example = load_from_db-ok stale loaded refl

abbrev unblocked : World
unblocked = record (first_world []) { blocked_set = [] }

unblocked-Consistent : Consistent unblocked
unfolding find
unblocked-Consistent = record { same = λ k. refl }

handle_create-Consistent_example :
    Consistent
      (handle_create json
        (ok (record { video_id = "dQw4w9WgXcQ"; reason = "spam"; created_by = none }))
        (calm unblocked)).1
handle_create-Consistent_example =
    handle_create-Consistent json
      (ok (record { video_id = "dQw4w9WgXcQ"; reason = "spam"; created_by = none })) unblocked
      unblocked-Consistent

handle_delete-Consistent_example : Consistent (handle_delete json "dQw4w9WgXcQ" (calm unblocked)).1
handle_delete-Consistent_example =
    handle_delete-Consistent json "dQw4w9WgXcQ" unblocked unblocked-Consistent

handle_get-status_example :
    ((handle_get json "9bZkp7q19f0" (calm stale)).0.status
      ≡ (if in_table "9bZkp7q19f0" stale then 200 else 500))
    × ((handle_get json "9bZkp7q19f0" (calm stale)).1.db ≡ stale.db)
handle_get-status_example = handle_get-status json "9bZkp7q19f0" stale
