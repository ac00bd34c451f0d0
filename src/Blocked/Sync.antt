-- ===== src/Blocked/Sync.antt =====
-- The operations that keep the set and the table of blocked videos consistent.
use youtube_webhook_ingestio.Base.{
  String, ◌≡◌, refl, sym, ap, arith, ◌∙◌, ◌⊎◌, inl, inr, List, [], ◌∷◌, map, eq_iff, is_member,
  is_some,
}
use youtube_webhook_ingestio.Models.{BlockedVideo}
use youtube_webhook_ingestio.Table.{find}
use youtube_webhook_ingestio.World.{World, calm}
use youtube_webhook_ingestio.World.Action.{
  Result, ok, err, context, attempt, remote, answer, next_fault, later_faults, ◌>>=◌, bind-eq-ok,
}
use youtube_webhook_ingestio.Repository.Outcome.{remote-eq-ok, context-eq-ok, attempt-eq-ok}
use youtube_webhook_ingestio.Repository.Statement.{on_tables}
use youtube_webhook_ingestio.Repository.Blocked.{
  by_blocked_id, insert_blocked, create_blocked_video, delete_rows, deleted_or_missing,
  delete_blocked_video, select_blocked_ids, get_all_blocked_video_ids,
}
use youtube_webhook_ingestio.Blocked.{
  with_members, s_add, s_rem, del, add, remove, first_error, replace_set, load_ids, load_from_db,
}
use youtube_webhook_ingestio.Blocked.Handler.{
  Json, CreateBlockedVideoRequest, after_insert, handle_create, after_delete, handle_delete,
}
use youtube_webhook_ingestio.Blocked.Consistency.{
  Consistent, is_member-with_member, is_member-with_members, is_member-keep, is_member-map,
  find-append_row, find-keep,
}

-- What a successful read of the table's ids returns.
record Read (ids : List String) (w v : World) : Type 0 where
  ids_of : ids ≡ map by_blocked_id w.db.blocked_videos
  db : v.db ≡ w.db
  set : v.blocked_set ≡ w.blocked_set

get_all-Read :
    (w : World) {ids : List String} {v : World}
    → get_all_blocked_video_ids w ≡ (ok ids, v)
    → Read ids w v
unfolding get_all_blocked_video_ids select_blocked_ids
get_all-Read w h =
    let e = remote-eq-ok (on_tables select_blocked_ids) w (context-eq-ok _ _ w h) in
    record { ids_of = ground arith; db = ground arith; set = ground arith }

del-ok : (w : World) {v : World} → remote del w ≡ (ok tt, v) → (v.blocked_set ≡ []) × (v.db ≡ w.db)
unfolding del
del-ok w h = let e = remote-eq-ok del w h in (ground arith, ground arith)

s_add-ok :
    (ids : List String) (w : World) {v : World}
    → remote (s_add ids) w ≡ (ok tt, v)
    → (v.blocked_set ≡ with_members ids w.blocked_set) × (v.db ≡ w.db)
unfolding s_add
s_add-ok ids w h =
    let e = remote-eq-ok (s_add ids) w h in
    (ap (λ x. x.1.blocked_set) (sym e), ap (λ x. x.1.db) (sym e))

first_error-ok :
    (r s : Result (Unit {0})) (u : World) {w' : World}
    → first_error r s u ≡ (ok tt, w')
    → (r ≡ ok tt) × (s ≡ ok tt) × (w' ≡ u)
unfolding first_error
first_error-ok (err e) s u h = cc
first_error-ok (ok a) (err e) u h = cc
first_error-ok (ok a) (ok b) u h = (refl, refl, ap (λ x. x.1) (sym h))

replace_set-ok :
    (ids : List String) (w : World) {w' : World}
    → replace_set ids w ≡ (ok tt, w')
    → (w'.blocked_set ≡ with_members ids []) × (w'.db ≡ w.db)
unfolding replace_set
replace_set-ok ids w h =
    let (r, v, a, k) = bind-eq-ok (attempt (remote del)) _ w h in
    let (s, u, b, l) = bind-eq-ok (attempt (remote (s_add ids))) (first_error r) v k in
    let (rk, sk, e) = first_error-ok r s u l in
    let (empty, d) = del-ok w (attempt-eq-ok (remote del) w a ∙ (λ i. (rk i, v))) in
    let (full, f) = s_add-ok ids v (attempt-eq-ok (remote (s_add ids)) v b ∙ (λ i. (sk i, u))) in
    (ap (λ x. x.blocked_set) e ∙ full ∙ ap (with_members ids) empty, ap (λ x. x.db) e ∙ f ∙ d)

map-nil : (rows : List BlockedVideo) → [] ≡ map by_blocked_id rows → rows ≡ []
map-nil [] e = refl
map-nil (b ∷ rows) e = cc

-- The set was loaded, or there was nothing to load and it was left alone.
abbrev pub Loaded : World → World → Type 0
Loaded w w' = ((w.db.blocked_videos ≡ []) × (w'.blocked_set ≡ w.blocked_set)) ⊎ Consistent w'

load_ids-Loaded :
    (ids : List String) (w v : World) {w' : World}
    → Read ids w v
    → load_ids ids v ≡ (ok tt, w')
    → Loaded w w'
unfolding load_ids
load_ids-Loaded [] w v r h =
    inl (map-nil w.db.blocked_videos r.ids_of, ap (λ x. x.1.blocked_set) (sym h) ∙ r.set)
load_ids-Loaded (id ∷ ids) w v {w'} r h =
    let (s, d) = replace_set-ok (id ∷ ids) v h in
    inr (record {
      same = λ k.
          ap (is_member k) s
          ∙ is_member-with_members k (id ∷ ids) []
          ∙ ap (is_member k) r.ids_of
          ∙ is_member-map k w.db.blocked_videos
          ∙ ap (λ x. is_some (find by_blocked_id k x.blocked_videos)) (sym (d ∙ r.db));
    })

-- When LoadFromDB (and so Sync) returns no error, whatever the environment does, the set has exactly
-- the videos of the table; or the table is empty, and the set is as it was, empty or not.
pub load_from_db-ok : (w w' : World) → load_from_db w ≡ (ok tt, w') → Loaded w w'
unfolding load_from_db
load_from_db-ok w w' h =
    let (ids, v, a, k) =
      bind-eq-ok
        (context "failed to load blocked video IDs from database" get_all_blocked_video_ids)
        load_ids w h in
    load_ids-Loaded ids w v (get_all-Read w (context-eq-ok _ _ w a)) k

-- A set that has exactly the videos of the table still does after POST /api/v1/blocked-videos,
-- whatever the request holds and whether or not the video was blocked before, when no call fails.
pub handle_create-Consistent :
    (json : Json) (r : Result CreateBlockedVideoRequest) (w : World)
    → Consistent w
    → Consistent (handle_create json r (calm w)).1
unfolding handle_create after_insert create_blocked_video insert_blocked add s_add context remote
    answer next_fault later_faults
handle_create-Consistent json (err e) w c = record { same = c.same }
handle_create-Consistent json (ok r) w c = record {
  same = λ k. ground (
    arith,
    c.same k,
    is_member-with_member k r.video_id w.blocked_set,
    find-append_row k
        (record {
          id = w.db.next_blocked_id;
          video_id = r.video_id;
          reason = r.reason;
          created_at = w.clock;
          created_by = r.created_by;
        })
        w.db.blocked_videos,
    eq_iff k r.video_id,
    eq_iff r.video_id k,
  );
}

-- A set that has exactly the videos of the table still does after DELETE
-- /api/v1/blocked-videos/{video_id}, for any video, when no call fails.
pub handle_delete-Consistent :
    (json : Json) (video_id : String) (w : World)
    → Consistent w
    → Consistent (handle_delete json video_id (calm w)).1
unfolding handle_delete after_delete delete_blocked_video delete_rows deleted_or_missing remove
    s_rem context remote answer next_fault later_faults ◌>>=◌
handle_delete-Consistent json video_id w c = record {
  same = λ k. ground (
    arith,
    c.same k,
    is_member-keep k video_id w.blocked_set,
    find-keep k video_id w.db.blocked_videos,
    eq_iff k video_id,
  );
}
