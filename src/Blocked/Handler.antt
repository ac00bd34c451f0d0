-- ===== src/Blocked/Handler.antt =====
-- internal/handler/blocked_video.go, without its listing. encoding/json is a parameter: the text of a
-- row and of an error, and the request that the decoder reads from the body.
use youtube_webhook_ingestio.Base.{ℕ, String, Option, none, some, ◌==◌, if◌then◌else◌}
use youtube_webhook_ingestio.Errors.{error_text}
use youtube_webhook_ingestio.Models.{BlockedVideo}
use youtube_webhook_ingestio.World.Action.{Result, ok, err}
use youtube_webhook_ingestio.Http.{Response, Handler, respond, on_result}
use youtube_webhook_ingestio.Repository.Blocked.{
  create_blocked_video, delete_blocked_video, get_blocked_video,
}
use youtube_webhook_ingestio.Blocked.{add, remove}

pub record Json : Type 0 where
  pub row : BlockedVideo → String
  -- the object with the fields `error` and `message`
  pub error : String → String → String

-- CreateBlockedVideoRequest
pub record CreateBlockedVideoRequest : Type 0 where
  pub video_id : String
  pub reason : String
  pub created_by : Option String

-- sendError without details
abbrev pub send_error : Json → ℕ → String → String → Response
send_error json status error message = record { status = status; body = json.error error message }

-- sendJSON
abbrev pub send_json : Json → ℕ → BlockedVideo → Response
send_json json status b = record { status = status; body = json.row b }

-- A failure of the cache is logged and dropped.
unfoldable pub after_insert : Json → String → Result BlockedVideo → Handler
unfolding respond on_result
after_insert json video_id (err e) =
    respond (send_error json 500 "internal server error" "failed to create blocked video")
after_insert json video_id (ok b) = on_result (add video_id) (λ r. respond (send_json json 201 b))

-- CreateBlockedVideo, on what the decoder returns
unfoldable pub handle_create : Json → Result CreateBlockedVideoRequest → Handler
unfolding after_insert respond on_result
handle_create json (err e) = respond (send_error json 400 "invalid request body" (error_text e))
handle_create json (ok r) =
    if r.video_id == ""
    then respond (send_error json 400 "validation failed" "video_id is required")
    else if r.reason == ""
    then respond (send_error json 400 "validation failed" "reason is required")
    else on_result (create_blocked_video r.video_id r.reason r.created_by)
        (after_insert json r.video_id)

unfoldable pub found_response : Json → Result (Option BlockedVideo) → Response
found_response json (err e) =
    send_error json 500 "internal server error" "failed to get blocked video"
found_response json (ok none) = send_error json 404 "not found" "blocked video not found"
found_response json (ok (some b)) = send_json json 200 b

-- GetBlockedVideoByPath
unfoldable pub handle_get : Json → String → Handler
unfolding found_response respond on_result
handle_get json video_id =
    on_result (get_blocked_video video_id) (λ r. respond (found_response json r))

unfoldable pub after_delete : Json → String → Result (Unit {0}) → Handler
unfolding respond on_result
after_delete json video_id (err e) =
    respond (send_error json 500 "internal server error" "failed to delete blocked video")
after_delete json video_id (ok a) =
    on_result (remove video_id) (λ r. respond (record { status = 204; body = "" }))

-- DeleteBlockedVideoByPath
unfoldable pub handle_delete : Json → String → Handler
unfolding after_delete on_result
handle_delete json video_id = on_result (delete_blocked_video video_id) (after_delete json video_id)
