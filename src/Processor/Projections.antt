-- ===== src/Processor/Projections.antt =====
-- What processProjections has done when it succeeds.
use Prim.Native.String.{◌++◌ as ◌<>◌}
use youtube_webhook_ingestio.Base.{
  ℕ, String, ◌≡◌, ◌≢◌, refl, sym, ap, arith, ◌∙◌, Option, none, some, List, [], ◌∷◌, ◌++◌, eq_iff,
  eq_refl, ◌==◌, if◌then◌else◌,
}
use youtube_webhook_ingestio.Models.{Channel, Video, VideoUpdate, Time}
use youtube_webhook_ingestio.Models.New.{new_channel, new_video}
use youtube_webhook_ingestio.Table.{find, upsert, merged, find-upsert}
use youtube_webhook_ingestio.World.{World, Db}
use youtube_webhook_ingestio.World.Action.{
  Result, ok, err, Action, context, remote, now, bind-eq-ok,
}
use youtube_webhook_ingestio.Repository.Outcome.{Ran, statement-eq-ok, remote-eq-ok, context-eq-ok}
use youtube_webhook_ingestio.Repository.Videos.{
  by_channel_id, by_video_id, update_channel, update_video, put_channel, put_video, upsert_channel,
  upsert_video,
}
use youtube_webhook_ingestio.Parser.{VideoData}
use youtube_webhook_ingestio.Processor.{
  existing_video, end_transaction, roll_back, or_rollback, write_video, write_channel, projections,
  process_projections,
}
use youtube_webhook_ingestio.Processor.Steps.{Looked, existing_video-eq-ok}
use youtube_webhook_ingestio.Processor.History.{
  IsCurrent, IsHistory, put_video-ok, HistoryWritten, write_history-ok,
}

-- The row of the video and the history have changed.
pub record VideoWritten (d : VideoData) (event_id : ℕ) (o : Option Video) (w w' : World)
    : Type 0 where
  pub video : (v : Video) × (find by_video_id d.video_id w'.db.videos ≡ some v) × IsCurrent d v
  pub other_videos :
      (j : String)
      → d.video_id ≢ j
      → find by_video_id j w'.db.videos ≡ find by_video_id j w.db.videos
  pub history :
      (u : VideoUpdate) × (w'.db.video_updates ≡ w.db.video_updates ++ u ∷ [])
      × IsHistory d event_id o u
  pub channels : w'.db.channels ≡ w.db.channels
  pub events : w'.db.webhook_events ≡ w.db.webhook_events
  pub tasks : w'.tasks ≡ w.tasks

upsert_video-ok :
    (v : Video) (w : World) {w' : World}
    → context "upsert video" (upsert_video v) w ≡ (ok tt, w')
    → Ran (put_video v) tt w w'
unfolding upsert_video
upsert_video-ok v w h =
    statement-eq-ok "upsert video" (put_video v) w (context-eq-ok "upsert video" _ w h)

-- What an upsert of a video leaves under its own key and under the others.
find-upsert_video :
    (v : Video) (j : String) (rows : List Video)
    → find by_video_id j (upsert by_video_id v.video_id v (update_video v) rows) ≡ (
        if v.video_id == j
        then some (merged by_video_id v (update_video v) (find by_video_id v.video_id rows))
        else find by_video_id j rows)
find-upsert_video v j rows =
    find-upsert by_video_id v.video_id j v (update_video v) rows refl (λ x. refl)

find-upsert_video_ne :
    (v : Video) (j : String) (rows : List Video)
    → v.video_id ≢ j
    → find by_video_id j (upsert by_video_id v.video_id v (update_video v) rows)
      ≡ find by_video_id j rows
find-upsert_video_ne v j rows n = rw find-upsert_video (ground (arith, eq_iff v.video_id j))

merged_video-IsCurrent :
    (t : Time) (d : VideoData) (before : Option Video)
    → IsCurrent d (
        merged by_video_id
          (new_video t d.video_id d.channel_id d.title d.video_url d.published_at)
          (update_video (new_video t d.video_id d.channel_id d.title d.video_url d.published_at))
          before)
unfolding new_video
merged_video-IsCurrent t d none = record { title = refl; video_url = refl; published_at = refl }
merged_video-IsCurrent t d (some x) = record { title = refl; video_url = refl; published_at = refl }

write_video-ok :
    (event_id : ℕ) (o : Option Video) (d : VideoData) (w : World) {w' : World}
    → write_video event_id o d w ≡ (ok tt, w')
    → VideoWritten d event_id o w w'
unfolding write_video now new_video
write_video-ok event_id o d w {w'} h =
    let v : World = (now w).1 in
    let row : Video =
      new_video v.clock d.video_id d.channel_id d.title d.video_url d.published_at in
    let (_, v', e, k) = bind-eq-ok (context "upsert video" (upsert_video row)) _ v h in
    let r : Ran (put_video row) tt v v' = upsert_video-ok row v e in
    let i = put_video-ok row v.clock v.db v'.db r.tables in
    let later : HistoryWritten d event_id o v' w' = write_history-ok event_id o d v' k in
    let videos : w'.db.videos ≡ upsert by_video_id d.video_id row (update_video row) w.db.videos =
      later.videos ∙ ap (λ x. x.videos) i in
    record {
      video = (
        merged by_video_id row (update_video row) (find by_video_id d.video_id w.db.videos),
        rw videos (simp (find-upsert_video row, eq_refl)),
        merged_video-IsCurrent v.clock d (find by_video_id d.video_id w.db.videos),
      );
      other_videos = λ j n. rw videos (find-upsert_video_ne row j w.db.videos n);
      history = (
        later.history.0,
        later.history.1 ∙ ap (λ x. x.video_updates ++ later.history.0 ∷ []) i,
        later.history.2,
      );
      channels = later.channels ∙ ap (λ x. x.channels) i;
      events = later.events ∙ ap (λ x. x.webhook_events) i;
      tasks = later.tasks ∙ r.tasks;
    }

-- The tables after the three writes of the projections, from those before.
pub record Projected (d : VideoData) (event_id : ℕ) (o : Option Video) (w w' : World) : Type 0 where
  pub video : (v : Video) × (find by_video_id d.video_id w'.db.videos ≡ some v) × IsCurrent d v
  pub other_videos :
      (j : String)
      → d.video_id ≢ j
      → find by_video_id j w'.db.videos ≡ find by_video_id j w.db.videos
  pub channel : find by_channel_id d.channel_id w'.db.channels ≢ none
  pub history :
      (u : VideoUpdate) × (w'.db.video_updates ≡ w.db.video_updates ++ u ∷ [])
      × IsHistory d event_id o u
  pub events : w'.db.webhook_events ≡ w.db.webhook_events
  pub tasks : w'.tasks ≡ w.tasks

upsert_channel-ok :
    (c : Channel) (w : World) {w' : World}
    → context "upsert channel" (upsert_channel c) w ≡ (ok tt, w')
    → Ran (put_channel c) tt w w'
unfolding upsert_channel
upsert_channel-ok c w h =
    statement-eq-ok "upsert channel" (put_channel c) w (context-eq-ok "upsert channel" _ w h)

put_channel-ok :
    (c : Channel) (t : Time) (db db' : Db)
    → put_channel c t db ≡ (ok tt, db')
    → db'
      ≡ record db { channels = upsert by_channel_id c.channel_id c (update_channel c) db.channels }
unfolding put_channel
put_channel-ok c t db db' h = sym (ap (λ x. x.1) h)

find-upsert_channel :
    (c : Channel) (rows : List Channel)
    → find by_channel_id c.channel_id (upsert by_channel_id c.channel_id c (update_channel c) rows)
      ≡ some (merged by_channel_id c (update_channel c) (find by_channel_id c.channel_id rows))
find-upsert_channel c rows =
    rw
      (find-upsert by_channel_id c.channel_id c.channel_id c (update_channel c) rows refl
        (λ x. refl))
      (simp eq_refl)

write_channel-ok :
    (event_id : ℕ) (o : Option Video) (d : VideoData) (w : World) {w' : World}
    → write_channel event_id o d w ≡ (ok tt, w')
    → Projected d event_id o w w'
unfolding write_channel now new_channel
write_channel-ok event_id o d w {w'} h =
    let v : World = (now w).1 in
    let row : Channel =
      new_channel v.clock d.channel_id "" ("https://www.youtube.com/channel/" <> d.channel_id) in
    let (_, v', e, k) = bind-eq-ok (context "upsert channel" (upsert_channel row)) _ v h in
    let r : Ran (put_channel row) tt v v' = upsert_channel-ok row v e in
    let i = put_channel-ok row v.clock v.db v'.db r.tables in
    let later : VideoWritten d event_id o v' w' = write_video-ok event_id o d v' k in
    let channels : w'.db.channels
        ≡ upsert by_channel_id d.channel_id row (update_channel row) w.db.channels =
      later.channels ∙ ap (λ x. x.channels) i in
    record {
      video = later.video;
      other_videos = λ j n. later.other_videos j n ∙ ap (λ x. find by_video_id j x.videos) i;
      channel = λ absent. cc (find-upsert_channel row w.db.channels, channels);
      history = (
        later.history.0,
        later.history.1 ∙ ap (λ x. x.video_updates ++ later.history.0 ∷ []) i,
        later.history.2,
      );
      events = later.events ∙ ap (λ x. x.webhook_events) i;
      tasks = later.tasks ∙ r.tasks;
    }

pub Projected-after :
    {d : VideoData} {event_id : ℕ} {o : Option Video} {u w w' : World}
    → u.db ≡ w.db
    → u.tasks ≡ w.tasks
    → Projected d event_id o u w'
    → Projected d event_id o w w'
Projected-after e t p = record {
  video = p.video;
  other_videos = λ j n. p.other_videos j n ∙ ap (λ x. find by_video_id j x.videos) e;
  channel = p.channel;
  history =
      (p.history.0, p.history.1 ∙ ap (λ x. x.video_updates ++ p.history.0 ∷ []) e, p.history.2);
  events = p.events ∙ ap (λ x. x.webhook_events) e;
  tasks = p.tasks ∙ t;
}

projections-ok :
    (event_id : ℕ) (d : VideoData) (w : World) {w' : World}
    → projections event_id d w ≡ (ok tt, w')
    → Projected d event_id (find by_video_id d.video_id w.db.videos) w w'
unfolding projections
projections-ok event_id d w {w'} h =
    let (o, v, e, k) = bind-eq-ok (existing_video "get existing video" d.video_id) _ w h in
    let l : Looked d.video_id o w v = existing_video-eq-ok "get existing video" d.video_id w e in
    rw (← l.found) (Projected-after l.db l.tasks (write_channel-ok event_id o d v k))

roll_back-ok :
    (r : Result (Unit {0})) (w : World) {w' : World}
    → roll_back r w ≡ (ok tt, w')
    → ◌≡◌ {A = Result (Unit {0}) × World} (r, w) (ok tt, w')
unfolding roll_back
roll_back-ok (ok a) w h = h
roll_back-ok (err e) w h = cc

or_rollback-ok :
    (m : Action (Unit {0})) (w : World) {w' : World}
    → or_rollback m w ≡ (ok tt, w')
    → m w ≡ (ok tt, w')
unfolding or_rollback
or_rollback-ok m w h = roll_back-ok (m w).0 (m w).1 h

begin-ok :
    (w : World) {w' : World}
    → context "begin transaction" (remote end_transaction) w ≡ (ok tt, w')
    → (w'.db ≡ w.db) × (w'.tasks ≡ w.tasks)
unfolding end_transaction
begin-ok w h =
    let e = remote-eq-ok end_transaction w (context-eq-ok "begin transaction" _ w h) in
    (ground arith, ground arith)

-- When processProjections succeeds, it has written what the notification says: the row of the
-- video, the row of its channel, and one line of history; the event store is as it was.
pub process_projections-eq-ok :
    (event_id : ℕ) (d : VideoData) (w : World) {w' : World}
    → process_projections event_id d w ≡ (ok tt, w')
    → Projected d event_id (find by_video_id d.video_id w.db.videos) w w'
unfolding process_projections
process_projections-eq-ok event_id d w {w'} h =
    let (_, v, e, k) = bind-eq-ok (context "begin transaction" (remote end_transaction)) _ w h in
    let (b, t) = begin-ok w e in
    rw (← ap (λ x. find by_video_id d.video_id x.videos) b) (
      Projected-after b t
        (projections-ok event_id d v (or_rollback-ok (projections event_id d) v k)))
