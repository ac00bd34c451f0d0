-- ===== src/Blocked.antt =====
-- internal/service/blocked_video_cache.go
pub mod Consistency
pub mod Handler
pub mod Sync
pub mod Lookup
use Prim.Native.String.{◌++◌ as ◌<>◌}
use youtube_webhook_ingestio.Base.{
  ℕ, String, Bool, true, false, not, List, [], ◌∷◌, ◌++◌, ◌==◌, keep, length, is_member,
  if◌then◌else◌,
}
use youtube_webhook_ingestio.Errors.{Error, wrapped}
use youtube_webhook_ingestio.World.{World}
use youtube_webhook_ingestio.World.Action.{
  Result, ok, err, Action, pure, fail, context, attempt, remote, ◌>>=◌,
}
use youtube_webhook_ingestio.Repository.Blocked.{get_all_blocked_video_ids}

-- SISMEMBER blocked_videos:set
unfoldable pub sis_member : String → World → Result Bool × World
sis_member video_id w = (ok (is_member video_id w.blocked_set), w)

-- IsBlocked
unfoldable pub is_blocked : String → Action Bool
unfolding sis_member
is_blocked video_id = context "failed to check if video is blocked" (remote (sis_member video_id))

abbrev pub with_member : String → List String → List String
with_member video_id set = if is_member video_id set then set else set ++ video_id ∷ []

abbrev pub with_members : List String → List String → List String
with_members [] set = set
with_members (id ∷ ids) set = with_members ids (with_member id set)

-- SADD, SREM, DEL and SCARD on the key blocked_videos:set
unfoldable pub s_add : List String → World → Result (Unit {0}) × World
s_add ids w = (ok tt, record w { blocked_set = with_members ids w.blocked_set })

unfoldable pub s_rem : String → World → Result (Unit {0}) × World
s_rem video_id w = (ok tt, record w { blocked_set = keep (λ x. not (x == video_id)) w.blocked_set })

unfoldable pub del : World → Result (Unit {0}) × World
del w = (ok tt, record w { blocked_set = [] })

unfoldable pub s_card : World → Result ℕ × World
s_card w = (ok (length w.blocked_set), w)

-- Add
unfoldable pub add : String → Action (Unit {0})
unfolding s_add
add video_id = context "failed to add video to blocked cache" (remote (s_add (video_id ∷ [])))

-- Remove
unfoldable pub remove : String → Action (Unit {0})
unfolding s_rem
remove video_id = context "failed to remove video from blocked cache" (remote (s_rem video_id))

-- GetCount
unfoldable pub get_count : Action ℕ
unfolding s_card
get_count = context "failed to get blocked videos count" (remote s_card)

-- The error of a pipeline: that of its first command that failed.
unfoldable pub first_error : Result (Unit {0}) → Result (Unit {0}) → Action (Unit {0})
unfolding pure fail
first_error (err e) r = fail (wrapped "failed to load blocked videos into Redis: " e "")
first_error (ok a) (err e) = fail (wrapped "failed to load blocked videos into Redis: " e "")
first_error (ok a) (ok b) = pure tt

-- The pipeline DEL, SADD of LoadFromDB. Its commands are not a transaction: each may fail.
unfoldable pub replace_set : List String → Action (Unit {0})
unfolding del s_add first_error ◌>>=◌
replace_set ids = do
  deleted ← attempt (remote del)
  added ← attempt (remote (s_add ids))
  first_error deleted added

unfoldable pub load_ids : List String → Action (Unit {0})
unfolding pure replace_set
load_ids [] = pure tt
load_ids (id ∷ ids) = replace_set (id ∷ ids)

-- LoadFromDB, which is Sync too
unfoldable pub load_from_db : Action (Unit {0})
unfolding load_ids ◌>>=◌
load_from_db = do
  video_ids ← context "failed to load blocked video IDs from database" get_all_blocked_video_ids
  load_ids video_ids
