-- ===== src/Blocked/Consistency.antt =====
-- The Redis set against the table of blocked videos.
use youtube_webhook_ingestio.Base.{
  String, ◌≡◌, ap, arith, inl, inr, Bool, true, false, not, List, [], ◌∷◌, ◌++◌, map, ◌==◌, eq_iff,
  keep, is_member, is_some, if◌then◌else◌, Bool-cases,
}
use youtube_webhook_ingestio.Models.{BlockedVideo}
use youtube_webhook_ingestio.Table.{find}
use youtube_webhook_ingestio.World.{World}
use youtube_webhook_ingestio.Repository.Blocked.{by_blocked_id}
use youtube_webhook_ingestio.Blocked.{with_member, with_members}

abbrev pub in_table : String → World → Bool
in_table video_id w = is_some (find by_blocked_id video_id w.db.blocked_videos)

-- The set has the videos of the table and no others.
pub record Consistent (w : World) : Type 0 where
  pub same : (video_id : String) → is_member video_id w.blocked_set ≡ in_table video_id w

pub is_member-append :
    (k x : String) (ys : List String)
    → is_member k (ys ++ x ∷ []) ≡ (if is_member k ys then true else k == x)
is_member-append k x [] = ground arith
is_member-append k x (y ∷ ys) = ground (arith, is_member-append k x ys)

pub is_member-with_member :
    (k x : String) (s : List String)
    → is_member k (with_member x s) ≡ (if is_member k s then true else k == x)
is_member-with_member k x s = elim (Bool-cases (k == x)) [
  | inl q ↦ ground (arith, q, is_member-append k x s, ap (λ y. is_member y s) ((eq_iff k x).0 q))
  | inr q ↦ ground (arith, q, is_member-append k x s)
]

pub is_member-with_members :
    (k : String) (xs s : List String)
    → is_member k (with_members xs s) ≡ (if is_member k s then true else is_member k xs)
is_member-with_members k [] s = ground arith
is_member-with_members k (x ∷ xs) s =
    ground (arith, is_member-with_members k xs (with_member x s), is_member-with_member k x s)

pub is_member-keep :
    (k x : String) (s : List String)
    → is_member k (keep (λ y. not (y == x)) s) ≡ (if k == x then false else is_member k s)
is_member-keep k x [] = ground arith
is_member-keep k x (y ∷ s) =
    ground (arith, is_member-keep k x s, eq_iff k x, eq_iff k y, eq_iff y x)

pub is_member-map :
    (k : String) (rows : List BlockedVideo)
    → is_member k (map by_blocked_id rows) ≡ is_some (find by_blocked_id k rows)
unfolding find
is_member-map k [] = ground arith
is_member-map k (b ∷ rows) =
    ground (arith, is_member-map k rows, eq_iff k b.video_id, eq_iff b.video_id k)

pub find-append_row :
    (k : String) (b : BlockedVideo) (rows : List BlockedVideo)
    → is_some (find by_blocked_id k (rows ++ b ∷ []))
      ≡ (if is_some (find by_blocked_id k rows) then true else b.video_id == k)
unfolding find
find-append_row k b [] = ground arith
find-append_row k b (x ∷ rows) = ground (arith, find-append_row k b rows)

pub find-keep :
    (k x : String) (rows : List BlockedVideo)
    → is_some (find by_blocked_id k (keep (λ b. not (b.video_id == x)) rows))
      ≡ (if k == x then false else is_some (find by_blocked_id k rows))
unfolding find
find-keep k x [] = ground arith
find-keep k x (b ∷ rows) =
    ground (arith, find-keep k x rows, eq_iff k x, eq_iff b.video_id k, eq_iff b.video_id x)
