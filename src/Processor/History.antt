-- ===== src/Processor/History.antt =====
-- The rows that the projections write, and the insertion of the row of history, when it succeeds.
use youtube_webhook_ingestio.Base.{ℕ, suc, ◌≡◌, refl, ap, arith, ◌∙◌, Option, [], ◌∷◌, ◌++◌}
use youtube_webhook_ingestio.Models.{Video, VideoUpdate, Time}
use youtube_webhook_ingestio.Models.New.{new_video_update}
use youtube_webhook_ingestio.Table.{upsert}
use youtube_webhook_ingestio.World.{World, Db}
use youtube_webhook_ingestio.World.Action.{ok, context, remote, now, bind-eq-ok}
use youtube_webhook_ingestio.Repository.Outcome.{Ran, statement-eq-ok, remote-eq-ok, context-eq-ok}
use youtube_webhook_ingestio.Repository.Videos.{by_video_id, update_video, put_video}
use youtube_webhook_ingestio.Repository.VideoUpdates.{insert_update, create_video_update}
use youtube_webhook_ingestio.Parser.{VideoData}
use youtube_webhook_ingestio.Processor.{determine_update_type, end_transaction, write_history}

-- The row of the video holds what the notification says of it.
pub record IsCurrent (d : VideoData) (v : Video) : Type 0 where
  pub title : v.title ≡ d.title
  pub video_url : v.video_url ≡ d.video_url
  pub published_at : v.published_at ≡ d.published_at

-- The line of history that the notification adds, with the kind of change against the row before.
pub record IsHistory (d : VideoData) (event_id : ℕ) (before : Option Video) (u : VideoUpdate)
    : Type 0 where
  pub event : u.webhook_event_id ≡ event_id
  pub video_id : u.video_id ≡ d.video_id
  pub channel_id : u.channel_id ≡ d.channel_id
  pub title : u.title ≡ d.title
  pub update_type : u.update_type ≡ determine_update_type before d

pub put_video-ok :
    (video : Video) (t : Time) (db db' : Db)
    → put_video video t db ≡ (ok tt, db')
    → db' ≡ record db {
      videos = upsert by_video_id video.video_id video (update_video video) db.videos;
    }
unfolding put_video
put_video-ok video t db db' h = ground arith

insert_update-ok :
    (update : VideoUpdate) (t : Time) (db db' : Db)
    → insert_update update t db ≡ (ok tt, db')
    → db' ≡ record db {
      video_updates = db.video_updates ++ record update { id = db.next_update_id } ∷ [];
      next_update_id = suc db.next_update_id;
    }
unfolding insert_update
insert_update-ok update t db db' h = ground arith

-- Nothing but the history has changed.
pub record HistoryWritten (d : VideoData) (event_id : ℕ) (o : Option Video) (w w' : World)
    : Type 0 where
  pub history :
      (u : VideoUpdate) × (w'.db.video_updates ≡ w.db.video_updates ++ u ∷ [])
      × IsHistory d event_id o u
  pub videos : w'.db.videos ≡ w.db.videos
  pub channels : w'.db.channels ≡ w.db.channels
  pub events : w'.db.webhook_events ≡ w.db.webhook_events
  pub tasks : w'.tasks ≡ w.tasks

commit-ok :
    (w : World) {w' : World}
    → context "commit transaction" (remote end_transaction) w ≡ (ok tt, w')
    → (w'.db ≡ w.db) × (w'.tasks ≡ w.tasks)
unfolding end_transaction
commit-ok w h =
    let e = remote-eq-ok end_transaction w (context-eq-ok "commit transaction" _ w h) in
    (ground arith, ground arith)

create_video_update-ok :
    (u : VideoUpdate) (w : World) {w' : World}
    → context "create video update" (create_video_update u) w ≡ (ok tt, w')
    → Ran (insert_update u) tt w w'
unfolding create_video_update
create_video_update-ok u w h =
    statement-eq-ok "create video update" (insert_update u) w
      (context-eq-ok "create video update" _ w h)

pub write_history-ok :
    (event_id : ℕ) (o : Option Video) (d : VideoData) (w : World) {w' : World}
    → write_history event_id o d w ≡ (ok tt, w')
    → HistoryWritten d event_id o w w'
unfolding write_history now new_video_update
write_history-ok event_id o d w {w'} h =
    let v : World = (now w).1 in
    let u : VideoUpdate =
      new_video_update v.clock event_id d.video_id d.channel_id d.title d.published_at d.updated_at
        (determine_update_type o d) in
    let (_, v', e, k) = bind-eq-ok (context "create video update" (create_video_update u)) _ v h in
    let (c, t) = commit-ok v' k in
    let r : Ran (insert_update u) tt v v' = create_video_update-ok u v e in
    let i = insert_update-ok u v.clock v.db v'.db r.tables in
    record {
      history = (
        record u { id = v.db.next_update_id },
        ap (λ x. x.video_updates) c ∙ ap (λ x. x.video_updates) i,
        record {
          event = refl;
          video_id = refl;
          channel_id = refl;
          title = refl;
          update_type = refl;
        },
      );
      videos = ap (λ x. x.videos) c ∙ ap (λ x. x.videos) i;
      channels = ap (λ x. x.channels) c ∙ ap (λ x. x.channels) i;
      events = ap (λ x. x.webhook_events) c ∙ ap (λ x. x.webhook_events) i;
      tasks = t ∙ r.tasks;
    }
