-- ===== src/Processor/Conclusion.antt =====
-- ProcessEvent from the row of the event on, when it succeeds: the look-up of the video, the
-- projections, the marking of the event and the task.
use youtube_webhook_ingestio.Base.{
  ℕ, String, ◌≡◌, refl, ap, subst, arith, ◌∙◌, ◌⊎◌, inl, inr, true, Option, none, some, [], ◌∷◌,
  ◌++◌, Bool-cases,
}
use youtube_webhook_ingestio.Models.{WebhookEvent, Video, Time}
use youtube_webhook_ingestio.Table.{find}
use youtube_webhook_ingestio.World.{World, Db, enrich_video, EnrichVideoPayload}
use youtube_webhook_ingestio.World.Action.{Result, ok, err, attempt, ◌>>=◌, bind-eq-ok}
use youtube_webhook_ingestio.Repository.Outcome.{Ran, statement-eq-ok, attempt-eq-ok}
use youtube_webhook_ingestio.Repository.WebhookEvents.{
  update_event, as_processed, set_processed, mark_event_processed,
}
use youtube_webhook_ingestio.Repository.Videos.{by_video_id}
use youtube_webhook_ingestio.Parser.{VideoData}
use youtube_webhook_ingestio.Queue.Client.Effects.{
  SameRecords, AtMostOneTask, enqueue_video_enrichment-AtMostOneTask,
}
use youtube_webhook_ingestio.Processor.{
  EventProcessor, existing_video, process_projections, error_message, enqueue_new_video,
  finish_event, conclude_event, process_stored_event,
}
use youtube_webhook_ingestio.Processor.Steps.{Looked, existing_video-eq-ok}
use youtube_webhook_ingestio.Processor.Projections.{
  Projected, Projected-after, process_projections-eq-ok,
}

set_processed-ok :
    (id : ℕ) (message : String) (t : Time) (db db' : Db)
    → set_processed id message t db ≡ (ok tt, db')
    → db'
      ≡ record db { webhook_events = update_event id (as_processed t message) db.webhook_events }
unfolding set_processed
set_processed-ok id message t db db' h = ground arith

mark-Ran :
    (id : ℕ) (message : String) (w : World) {w' : World}
    → mark_event_processed id message w ≡ (ok tt, w')
    → Ran (set_processed id message) tt w w'
unfolding mark_event_processed
mark-Ran id message w h = statement-eq-ok "mark event processed" (set_processed id message) w h

-- The tasks that were added: none, or one for the video, which then was not in the table.
abbrev pub TaskFor : EventProcessor → VideoData → Option Video → World → World → Type 0
TaskFor p d before w w' =
    (w'.tasks ≡ w.tasks)
    ⊎ ((p.has_queue ≡ true)
        × (before ≡ none)
        × ((t : EnrichVideoPayload) × (w'.tasks ≡ w.tasks ++ enrich_video t ∷ [])
            × (t.video_id ≡ d.video_id)))

record Finished (p : EventProcessor) (d : VideoData) (o : Option Video) (w w' : World)
    : Type 0 where
  records : SameRecords w w'
  tasks : TaskFor p d o w w'

Finished-refl :
    (p : EventProcessor) (d : VideoData) (o : Option Video) (w : World) → Finished p d o w w
Finished-refl p d o w = record {
  records = record { events = refl; channels = refl; videos = refl; updates = refl };
  tasks = inl refl;
}

Finished-of_task :
    (p : EventProcessor) (d : VideoData) (w w' : World)
    → p.has_queue ≡ true
    → AtMostOneTask d.video_id w w'
    → Finished p d none w w'
Finished-of_task p d w w' q a = record {
  records = a.records;
  tasks = elim a.tasks [ inl e ↦ inl e | inr t ↦ inr (q, refl, t) ];
}

enqueue-Finished :
    (p : EventProcessor) (d : VideoData) (o : Option Video) (w : World)
    → Finished p d o w (enqueue_new_video p d o w).1
unfolding enqueue_new_video ◌>>=◌ attempt
enqueue-Finished p d none w = elim (Bool-cases p.has_queue) [
  | inl q ↦ simp q (
      Finished-of_task p d w _ q
        ((enqueue_video_enrichment-AtMostOneTask p.externals d.video_id d.channel_id 0).at w))
  | inr q ↦ simp q (Finished-refl p d none w)
]
enqueue-Finished p d (some v) w = elim (Bool-cases p.has_queue) [
  | inl q ↦ simp q (Finished-refl p d (some v) w)
  | inr q ↦ simp q (Finished-refl p d (some v) w)
]

finish_event-ok :
    (p : EventProcessor) (d : VideoData) (o : Option Video) (r m : Result (Unit {0})) (w : World)
    {w' : World}
    → finish_event p d o r m w ≡ (ok tt, w')
    → (r ≡ ok tt) × (m ≡ ok tt) × Finished p d o w w'
unfolding finish_event
finish_event-ok p d o (ok a) (ok b) w h =
    (refl, refl, subst (λ v. Finished p d o w v) (ap (λ x. x.1) h) (enqueue-Finished p d o w))
finish_event-ok p d o (err e) (ok b) w h = cc
finish_event-ok p d o r (err e) w h = cc

-- From the world in which the projections have succeeded.
pub record Concluded (p : EventProcessor) (d : VideoData) (event_id : ℕ) (o : Option Video)
    (w w' : World) : Type 0 where
  pub time : Time
  pub events :
      w'.db.webhook_events ≡ update_event event_id (as_processed time "") w.db.webhook_events
  pub channels : w'.db.channels ≡ w.db.channels
  pub videos : w'.db.videos ≡ w.db.videos
  pub updates : w'.db.video_updates ≡ w.db.video_updates
  pub tasks : TaskFor p d o w w'

pub TaskFor-before :
    (p : EventProcessor) (d : VideoData) (o : Option Video) (u w w' : World)
    → u.tasks ≡ w.tasks
    → TaskFor p d o u w'
    → TaskFor p d o w w'
TaskFor-before p d o u w w' e (inl t) = inl (t ∙ e)
TaskFor-before p d o u w w' e (inr (q, b, t)) =
    inr (q, b, (t.0, t.1 ∙ ap (λ ts. ts ++ enrich_video t.0 ∷ []) e, t.2))

conclude_event-ok :
    (p : EventProcessor) (d : VideoData) (event_id : ℕ) (o : Option Video) (r : Result (Unit {0}))
    (w : World) {w' : World}
    → conclude_event p d event_id o r w ≡ (ok tt, w')
    → (r ≡ ok tt) × Concluded p d event_id o w w'
unfolding conclude_event
conclude_event-ok p d event_id o r w {w'} h =
    let (m, v, a, k) =
      bind-eq-ok (attempt (mark_event_processed event_id (error_message r))) (finish_event p d o r)
        w h in
    let (rk, mk, f) = finish_event-ok p d o r m v k in
    let ran : Ran (set_processed event_id (error_message r)) tt w v =
      mark-Ran event_id (error_message r) w
        (attempt-eq-ok (mark_event_processed event_id (error_message r)) w a ∙ (λ i. (mk i, v))) in
    let db = set_processed-ok event_id (error_message r) w.clock w.db v.db ran.tables in
    (
      rk,
      record {
        time = w.clock;
        events =
            f.records.events
            ∙ ap (λ x. x.webhook_events) db
            ∙ ap
                (λ x.
                  update_event event_id (as_processed w.clock (error_message x))
                    w.db.webhook_events)
                rk;
        channels = f.records.channels ∙ ap (λ x. x.channels) db;
        videos = f.records.videos ∙ ap (λ x. x.videos) db;
        updates = f.records.updates ∙ ap (λ x. x.video_updates) db;
        tasks = TaskFor-before p d o v w w' ran.tasks f.tasks;
      },
    )

-- From the world `u` in which the event has just been stored.
pub record StoredAndProjected (p : EventProcessor) (d : VideoData) (e : WebhookEvent) (u w' : World)
    : Type 0 where
  pub projected : World
  pub projection : Projected d e.id (find by_video_id d.video_id u.db.videos) u projected
  pub conclusion : Concluded p d e.id (find by_video_id d.video_id u.db.videos) projected w'

pub process_stored_event-ok :
    (p : EventProcessor) (d : VideoData) (e : WebhookEvent) (u : World) {w' : World}
    → process_stored_event p d e u ≡ (ok tt, w')
    → StoredAndProjected p d e u w'
unfolding process_stored_event
process_stored_event-ok p d e u {w'} h =
    let (o, w1, a1, h1) = bind-eq-ok (existing_video "check if video exists" d.video_id) _ u h in
    let l : Looked d.video_id o u w1 =
      existing_video-eq-ok "check if video exists" d.video_id u a1 in
    let (r, w2, a2, h2) =
      bind-eq-ok (attempt (process_projections e.id d)) (conclude_event p d e.id o) w1 h1 in
    let (rk, c) = conclude_event-ok p d e.id o r w2 h2 in
    let pr : Projected d e.id (find by_video_id d.video_id w1.db.videos) w1 w2 =
      process_projections-eq-ok e.id d w1
        (attempt-eq-ok (process_projections e.id d) w1 a2 ∙ (λ i. (rk i, w2))) in
    record {
      projected = w2;
      projection =
          Projected-after l.db l.tasks
            (subst (λ x. Projected d e.id (find by_video_id d.video_id x.videos) w1 w2) l.db pr);
      conclusion = subst (λ x. Concluded p d e.id x w2 w') l.found c;
    }
