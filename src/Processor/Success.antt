-- ===== src/Processor/Success.antt =====
-- What ProcessEvent has done when it returns no error, whatever the environment did on the way.
use mathlib.Core.Option
use youtube_webhook_ingestio.Base.{
  String, ◌≡◌, ◌≢◌, refl, sym, ap, subst, arith, ◌∙◌, ◌⊎◌, inl, inr, true, false, none, some, List,
  [], ◌∷◌, ◌++◌, eqb, eqb_iff, if◌then◌else◌, Bool-cases,
}
use youtube_webhook_ingestio.Errors.{is_duplicate_key}
use youtube_webhook_ingestio.Models.{WebhookEvent, Video, VideoUpdate, Time}
use youtube_webhook_ingestio.Table.{find}
use youtube_webhook_ingestio.World.{World}
use youtube_webhook_ingestio.World.Action.{Result, ok, err, attempt, bind-eq-ok}
use youtube_webhook_ingestio.Repository.Outcome.{attempt-eq-ok}
use youtube_webhook_ingestio.Repository.WebhookEvents.{
  by_hash, update_event, as_processed, create_webhook_event,
}
use youtube_webhook_ingestio.Repository.WebhookEvents.Laws.{find-append, find-update_event}
use youtube_webhook_ingestio.Repository.Videos.{by_channel_id, by_video_id}
use youtube_webhook_ingestio.Parser.{VideoData, parse_atom_feed}
use youtube_webhook_ingestio.Processor.{EventProcessor, after_create, process_video, process_event}
use youtube_webhook_ingestio.Processor.Duplicates.{IsDuplicate, create_webhook_event-eq-IsDuplicate}
use youtube_webhook_ingestio.Processor.Steps.{Created, create_webhook_event-eq-ok}
use youtube_webhook_ingestio.Processor.History.{IsCurrent, IsHistory}
use youtube_webhook_ingestio.Processor.Cases.{process_event-of_video}
use youtube_webhook_ingestio.Processor.Conclusion.{
  TaskFor, TaskFor-before, StoredAndProjected, process_stored_event-ok,
}

-- What a notification of a video leaves behind, from the tables and the queue before it.
pub record Recorded (p : EventProcessor) (raw_xml : String) (d : VideoData) (w w' : World)
    : Type 0 where
  pub event : WebhookEvent
  pub stored : find by_hash (p.externals.content_hash raw_xml) w'.db.webhook_events ≡ some event
  pub raw : event.raw_xml ≡ raw_xml
  pub processed : event.processed ≡ true
  pub no_error : event.processing_error ≡ none
  pub video : (v : Video) × (find by_video_id d.video_id w'.db.videos ≡ some v) × IsCurrent d v
  pub other_videos :
      (j : String)
      → d.video_id ≢ j
      → find by_video_id j w'.db.videos ≡ find by_video_id j w.db.videos
  pub channel : find by_channel_id d.channel_id w'.db.channels ≢ none
  pub history :
      (u : VideoUpdate) × (w'.db.video_updates ≡ w.db.video_updates ++ u ∷ [])
      × IsHistory d event.id (find by_video_id d.video_id w.db.videos) u
  pub tasks : TaskFor p d (find by_video_id d.video_id w.db.videos) w w'

find-processed :
    (hash : String) (t : Time) (e : WebhookEvent) (events : List WebhookEvent)
    → find by_hash hash events ≡ none
    → e.content_hash ≡ hash
    → find by_hash hash (update_event e.id (as_processed t "") (events ++ e ∷ []))
      ≡ some (as_processed t "" e)
find-processed hash t e events h k =
    find-update_event hash e.id (as_processed t "") (events ++ e ∷ []) (λ x. refl)
    ∙ ap (Option.map (λ x. if eqb x.id e.id then as_processed t "" x else x))
        (find-append hash events e h k)
    ∙ ground (arith, eqb_iff e.id e.id)

-- The insertion of the event and the handling of its row make what the notification leaves.
Recorded-of_stored :
    (p : EventProcessor) (raw_xml : String) (d : VideoData) (e : WebhookEvent) (w v w' : World)
    → Created (p.externals.content_hash raw_xml) raw_xml e w v
    → StoredAndProjected p d e v w'
    → Recorded p raw_xml d w w'
Recorded-of_stored p raw_xml d e w v w' c s = record {
  event = as_processed s.conclusion.time "" e;
  stored =
      ap (find by_hash (p.externals.content_hash raw_xml)) (
        s.conclusion.events
        ∙ ap (update_event e.id (as_processed s.conclusion.time ""))
            (s.projection.events ∙ c.events))
      ∙ find-processed (p.externals.content_hash raw_xml) s.conclusion.time e w.db.webhook_events
          c.fresh c.hashed;
  raw = c.raw;
  processed = refl;
  no_error = refl;
  video = (
    s.projection.video.0,
    ap (find by_video_id d.video_id) s.conclusion.videos ∙ s.projection.video.1,
    s.projection.video.2,
  );
  other_videos = λ j n.
      ap (find by_video_id j) s.conclusion.videos
      ∙ s.projection.other_videos j n
      ∙ ap (find by_video_id j) c.videos;
  channel = λ q.
      s.projection.channel (ap (find by_channel_id d.channel_id) (sym s.conclusion.channels) ∙ q);
  history = (
    s.projection.history.0,
    s.conclusion.updates
        ∙ s.projection.history.1
        ∙ ap (λ us. us ++ s.projection.history.0 ∷ []) c.updates,
    subst (λ vs. IsHistory d e.id (find by_video_id d.video_id vs) s.projection.history.0) c.videos
        s.projection.history.2,
  );
  tasks =
      subst (λ vs. TaskFor p d (find by_video_id d.video_id vs) w w') c.videos
        (TaskFor-before p d (find by_video_id d.video_id v.db.videos) s.projected w w'
          (s.projection.tasks ∙ c.tasks) s.conclusion.tasks);
}

after_create-ok :
    (p : EventProcessor) (raw_xml : String) (d : VideoData) (w v : World) (r : Result WebhookEvent)
    {w' : World}
    → create_webhook_event p.externals.content_hash raw_xml d.video_id d.channel_id w ≡ (r, v)
    → after_create p d r v ≡ (ok tt, w')
    → IsDuplicate (p.externals.content_hash raw_xml) w w' ⊎ Recorded p raw_xml d w w'
unfolding after_create
after_create-ok p raw_xml d w v (ok e) {w'} c k = inr (
    Recorded-of_stored p raw_xml d e w v w'
      (create_webhook_event-eq-ok p.externals.content_hash raw_xml d.video_id d.channel_id w c)
      (process_stored_event-ok p d e v k))
after_create-ok p raw_xml d w v (err e) {w'} c k = elim (Bool-cases (is_duplicate_key e)) [
  | inl q ↦ inl (
      subst (IsDuplicate (p.externals.content_hash raw_xml) w) (ground arith) (
        create_webhook_event-eq-IsDuplicate p.externals.content_hash raw_xml d.video_id d.channel_id
          w c q))
  | inr q ↦ absurd (ground arith)
]

process_video-ok :
    (p : EventProcessor) (raw_xml : String) (d : VideoData) (w : World) {w' : World}
    → process_video p raw_xml d w ≡ (ok tt, w')
    → IsDuplicate (p.externals.content_hash raw_xml) w w' ⊎ Recorded p raw_xml d w w'
unfolding process_video
process_video-ok p raw_xml d w {w'} h =
    let (r, v, a, k) =
      bind-eq-ok
        (attempt (create_webhook_event p.externals.content_hash raw_xml d.video_id d.channel_id))
        (after_create p d) w h in
    after_create-ok p raw_xml d w v r (attempt-eq-ok _ w a) k

-- When ProcessEvent returns no error for a notification that the parser reads as a video, which is
-- not deleted, then, whatever calls the environment has refused or lost the answers of, either an
-- event with the same content hash was already stored and neither the tables nor the queue have
-- changed; or the event is stored with its raw text and marked processed without an error, the
-- row of the video is that of the notification and the rows of the other videos are as before, the
-- row of its channel exists, one row of history is added for it with the right kind of update, and
-- the queue is as before or has one more task, for this video, which then had no row before.
pub process_event-ok :
    (p : EventProcessor) (raw_xml : String) (d : VideoData) (w w' : World)
    → parse_atom_feed p.externals.unmarshal raw_xml ≡ ok d
    → d.is_deleted ≡ false
    → process_event p raw_xml w ≡ (ok tt, w')
    → IsDuplicate (p.externals.content_hash raw_xml) w w' ⊎ Recorded p raw_xml d w w'
process_event-ok p raw_xml d w w' q n h =
    process_video-ok p raw_xml d w (sym (process_event-of_video p raw_xml d w q n) ∙ h)
