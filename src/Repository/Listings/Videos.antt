-- ===== src/Repository/Listings/Videos.antt =====
-- What List of the videos returns, against its filters one by one.
use Prim.Native.String.{◌++◌ as ◌<>◌}
use youtube_webhook_ingestio.Base.{
  ℕ, ◌≤◌, ◌&&◌, String, Bool, true, false, ◌≡◌, ◌↔◌, ◌⊎◌, inl, inr, refl, subst, Option, none, some,
  List, ◌==◌, eq_iff, Bool-cases, if◌then◌else◌, arith,
}
use youtube_webhook_ingestio.Models.{Time, Video}
use youtube_webhook_ingestio.World.{World}
use youtube_webhook_ingestio.World.Action.{ok}
use youtube_webhook_ingestio.Repository.Listings.{
  OrderBy, VideoFilters, unset_or, is_from, is_until, matches_video, list_page, list_video_page,
}
use youtube_webhook_ingestio.Repository.Listings.Pages.{Paged, list_page-Paged}

-- The time is not before the bound, if there is one.
abbrev pub IsFrom : Option Time → Time → Type 0
IsFrom none time = Unit
IsFrom (some t) time = t ≤ time

-- The time is not after the bound, if there is one.
abbrev pub IsUntil : Option Time → Time → Type 0
IsUntil none time = Unit
IsUntil (some t) time = time ≤ t

-- A video that the filters ask for. A filter with the empty text, or without a time, asks for all.
pub record IsWanted (ilike : String → String → Bool) (f : VideoFilters) (v : Video) : Type 0 where
  pub of_channel : (f.channel_id ≡ "") ⊎ (v.channel_id ≡ f.channel_id)
  pub titled : (f.title ≡ "") ⊎ (ilike v.title ("%" <> f.title <> "%") ≡ true)
  pub after : IsFrom f.published_after v.published_at
  pub before : IsUntil f.published_before v.published_at

unset_or_iff :
    (filter : String) (test : Bool) (P : Type 0)
    → (test ≡ true) ↔ P
    → (unset_or filter test ≡ true) ↔ ((filter ≡ "") ⊎ P)
unset_or_iff filter test P means = (
  λ h. elim (Bool-cases (filter == "")) [
    | inl q ↦ inl ((eq_iff filter "").0 q)
    | inr q ↦ inr (means.0 (simp q at h))
  ],
  λ h. elim h [ inl q ↦ simp ((eq_iff filter "").1 q) refl | inr p ↦ ground (arith, means.1 p) ],
)

is_from_iff : (o : Option Time) (t : Time) → (is_from o t ≡ true) ↔ IsFrom o t
is_from_iff none t = (λ h. tt, λ h. refl)
is_from_iff (some s) t = ground arith

is_until_iff : (o : Option Time) (t : Time) → (is_until o t ≡ true) ↔ IsUntil o t
is_until_iff none t = (λ h. tt, λ h. refl)
is_until_iff (some s) t = ground arith

and_iff : (a b : Bool) → (a && b ≡ true) ↔ ((a ≡ true) × (b ≡ true))
and_iff a b = ground arith

matches_video_iff :
    (ilike : String → String → Bool) (f : VideoFilters) (v : Video)
    → (matches_video ilike f v ≡ true) ↔ IsWanted ilike f v
matches_video_iff ilike f v =
    let channel =
      unset_or_iff f.channel_id (v.channel_id == f.channel_id) _
        (eq_iff v.channel_id f.channel_id) in
    let title = unset_or_iff f.title (ilike v.title ("%" <> f.title <> "%")) _ (λ h. h, λ h. h) in
    (
      λ h.
          let (g, until) = (and_iff _ _).0 h in
          let (k, from) = (and_iff _ _).0 g in
          let (c, t) = (and_iff _ _).0 k in
          record {
            of_channel = channel.0 c;
            titled = title.0 t;
            after = (is_from_iff f.published_after v.published_at).0 from;
            before = (is_until_iff f.published_before v.published_at).0 until;
          },
      λ w. (and_iff _ _).1 (
        (and_iff _ _).1 (
          (and_iff _ _).1 (channel.1 w.of_channel, title.1 w.titled),
          (is_from_iff f.published_after v.published_at).1 w.after,
        ),
        (is_until_iff f.published_before v.published_at).1 w.before,
      ),
    )

-- When List of the videos returns a page and a total, for a total and transitive order that PostgreSQL makes of
-- the column and the direction of the filters, which are published_at and DESC where a text is empty, then the
-- rows of the table, each once, are the videos that the filters ask for and others that they do not; the
-- page is the part of the former, in order, that stands behind the offset, up to the limit, and the total is
-- their number. No table has changed.
pub list_video_page-Paged :
    (ilike : String → String → Bool) (order : OrderBy Video) (f : VideoFilters)
    (before : Video → Video → Bool) (w w' : World) (page : List Video) (total : ℕ)
    → order (
        (if f.order_by == "" then "published_at" else f.order_by)
        <> " "
        <> (if f.order_dir == "" then "DESC" else f.order_dir))
      ≡ some before
    → ((s t : Video) → before s t ≡ false → before t s ≡ true)
    → ((s t u : Video) → before s t ≡ true → before t u ≡ true → before s u ≡ true)
    → list_video_page ilike order f w ≡ (ok (page, total), w')
    → Paged (IsWanted ilike f) before w.db.videos f.limit f.offset total page × (w'.db ≡ w.db)
unfolding list_video_page
list_video_page-Paged ilike order f before w w' page total o total_order transitive h =
    list_page-Paged (matches_video ilike f) (IsWanted ilike f) (matches_video_iff ilike f) before
      total_order transitive f.limit f.offset "videos" (λ db. db.videos) w w' page total
      (subst
        (λ x.
          list_page "videos" (λ db. db.videos) (matches_video ilike f) x f.limit f.offset w
          ≡ (ok (page, total), w'))
        o h)
