-- ===== src/Processor/CalmSteps.antt =====
-- The steps of processProjections when no call fails: each succeeds.
use Prim.Native.String.{◌++◌ as ◌<>◌}
use youtube_webhook_ingestio.Base.{
  inl, inr, ℕ, String, ◌≡◌, refl, ap, arith, ◌∙◌, true, ◌||◌, Option, none, some, List, [], eq_iff,
  is_some, Option-cases,
}
use youtube_webhook_ingestio.Errors.{no_rows, is_not_found, wrap_failure}
use youtube_webhook_ingestio.Models.{Channel, Video, Time}
use youtube_webhook_ingestio.Models.New.{new_channel, new_video, new_video_update}
use youtube_webhook_ingestio.Table.{find, upsert, find-upsert}
use youtube_webhook_ingestio.World.{World, Db, calm}
use youtube_webhook_ingestio.World.Action.{
  Result, ok, err, pure, attempt, context, remote, now, answer, next_fault, later_faults, ◌>>=◌,
}
use youtube_webhook_ingestio.Repository.Statement.{statement}
use youtube_webhook_ingestio.Repository.WebhookEvents.{find_event}
use youtube_webhook_ingestio.Repository.Videos.{
  by_channel_id, by_video_id, put_channel, upsert_channel, put_video, upsert_video, update_channel,
  update_video, select_video, get_video_by_id,
}
use youtube_webhook_ingestio.Repository.VideoUpdates.{insert_update, create_video_update}
use youtube_webhook_ingestio.Parser.{VideoData}
use youtube_webhook_ingestio.Processor.{
  existing_video, found_or_absent, end_transaction, roll_back, or_rollback, write_history,
  write_video, write_channel, projections, process_projections,
}

module _ {A : Type 0} (key : A → String) where
  pub find-upserted :
      (k : String) (fresh : A) (merge : A → A) (xs : List A)
      → key fresh ≡ k
      → ((x : A) → key (merge x) ≡ key x)
      → is_some (find key k (upsert key k fresh merge xs)) ≡ true
  find-upserted k fresh merge xs e m =
      ap is_some (find-upsert key k k fresh merge xs e m) ∙ ground (arith, eq_iff k k)

-- It returned no error, and no fault lies ahead.
abbrev pub Succeeds : Result (Unit {0}) × World → Type 0
Succeeds x = (x.0 ≡ ok tt) × (x.1.faults ≡ [])

write_history-calm :
    (event_id : ℕ) (o : Option Video) (d : VideoData) (w : World)
    → is_some (find_event event_id w.db.webhook_events) ≡ true
    → is_some (find by_video_id d.video_id w.db.videos) ≡ true
    → is_some (find by_channel_id d.channel_id w.db.channels) ≡ true
    → Succeeds (write_history event_id o d (calm w))
unfolding write_history create_video_update insert_update statement context remote answer next_fault
    later_faults end_transaction new_video_update now ◌>>=◌
write_history-calm event_id o d w e v c = simp (e, v, c) (refl, refl)

write_video-calm :
    (event_id : ℕ) (o : Option Video) (d : VideoData) (w : World)
    → is_some (find_event event_id w.db.webhook_events) ≡ true
    → is_some (find by_channel_id d.channel_id w.db.channels) ≡ true
    → Succeeds (write_video event_id o d (calm w))
unfolding write_video upsert_video put_video statement context remote answer next_fault later_faults
    new_video now ◌>>=◌
write_video-calm event_id o d w e c =
    let row : Video =
      new_video (now w).1.clock d.video_id d.channel_id d.title d.video_url d.published_at in
    let v : World = record (now w).1 {
      db = record w.db {
        videos = upsert by_video_id d.video_id row (update_video row) w.db.videos;
      };
    } in
    let allowed : (is_some (find by_video_id d.video_id w.db.videos)
          || is_some (find by_channel_id d.channel_id w.db.channels))
        ≡ true =
      ground (arith, c) in
    simp allowed (
      write_history-calm event_id o d v e
        (find-upserted by_video_id d.video_id row (update_video row) w.db.videos refl (λ x. refl))
        c)

write_channel-calm :
    (event_id : ℕ) (o : Option Video) (d : VideoData) (w : World)
    → is_some (find_event event_id w.db.webhook_events) ≡ true
    → Succeeds (write_channel event_id o d (calm w))
unfolding write_channel upsert_channel put_channel statement context remote answer next_fault
    later_faults new_channel now ◌>>=◌
write_channel-calm event_id o d w e =
    let row : Channel =
      new_channel (now w).1.clock d.channel_id ""
        ("https://www.youtube.com/channel/" <> d.channel_id) in
    let v : World = record (now w).1 {
      db = record w.db {
        channels = upsert by_channel_id d.channel_id row (update_channel row) w.db.channels;
      };
    } in
    write_video-calm event_id o d v e (
      find-upserted by_channel_id d.channel_id row (update_channel row) w.db.channels refl
        (λ x. refl))

pub select_video-none :
    (video_id : String) (time : Time) (db : Db)
    → find by_video_id video_id db.videos ≡ none
    → select_video video_id time db ≡ (err no_rows, db)
unfolding select_video
select_video-none video_id time db q = ground (arith, q)

pub select_video-some :
    (video_id : String) (time : Time) (db : Db) (v : Video)
    → find by_video_id video_id db.videos ≡ some v
    → select_video video_id time db ≡ (ok v, db)
unfolding select_video
select_video-some video_id time db v q = ground (arith, q)

-- A look-up that is served returns the row or none, and leaves the world as it was.
pub existing_video-calm :
    (before video_id : String) (w : World)
    → existing_video before video_id (calm w) ≡ (ok (find by_video_id video_id w.db.videos), calm w)
unfolding existing_video get_video_by_id found_or_absent attempt statement remote answer next_fault
    later_faults is_not_found wrap_failure pure ◌>>=◌
existing_video-calm before video_id w =
    elim (Option-cases (find by_video_id video_id w.db.videos)) [
      | inl q ↦ simp (q, select_video-none video_id w.clock w.db q) refl
      | inr (v, q) ↦ simp (q, select_video-some video_id w.clock w.db v q) refl
    ]

projections-calm :
    (event_id : ℕ) (d : VideoData) (w : World)
    → is_some (find_event event_id w.db.webhook_events) ≡ true
    → Succeeds (projections event_id d (calm w))
unfolding projections ◌>>=◌
projections-calm event_id d w e =
    simp (existing_video-calm "get existing video" d.video_id w)
      (write_channel-calm event_id (find by_video_id d.video_id w.db.videos) d w e)

end_transaction-calm : (w : World) → remote end_transaction (calm w) ≡ (ok tt, calm w)
unfolding end_transaction remote answer next_fault later_faults
end_transaction-calm w = refl

roll_back-Succeeds :
    (r : Result (Unit {0})) (w : World) → Succeeds (r, w) → Succeeds (roll_back r w)
unfolding roll_back
roll_back-Succeeds (ok a) w s = s
roll_back-Succeeds (err e) w s = absurd (ground (arith, s.0))

pub process_projections-calm :
    (event_id : ℕ) (d : VideoData) (w : World)
    → is_some (find_event event_id w.db.webhook_events) ≡ true
    → Succeeds (process_projections event_id d (calm w))
unfolding process_projections or_rollback context ◌>>=◌
process_projections-calm event_id d w e = simp (end_transaction-calm w) (
    roll_back-Succeeds (projections event_id d (calm w)).0 (projections event_id d (calm w)).1
      (projections-calm event_id d w e))
