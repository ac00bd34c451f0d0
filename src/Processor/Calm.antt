-- ===== src/Processor/Calm.antt =====
-- ProcessEvent when no call fails: it succeeds on every notification of a video that is new to it.
use youtube_webhook_ingestio.Base.{
  suc, ◌⊎◌, inl, inr, ℕ, String, ◌≡◌, refl, ap, arith, ◌∙◌, true, false, not, ◌&&◌, Option, List,
  [], ◌∷◌, ◌++◌, eqb_iff, is_some, Bool-cases,
}
use youtube_webhook_ingestio.Models.{WebhookEvent, Video}
use youtube_webhook_ingestio.Models.New.{new_webhook_event}
use youtube_webhook_ingestio.Table.{find}
use youtube_webhook_ingestio.World.{World, calm}
use youtube_webhook_ingestio.World.Action.{
  ok, pure, attempt, remote, now, answer, next_fault, later_faults, ◌>>=◌,
}
use youtube_webhook_ingestio.Repository.Statement.{statement}
use youtube_webhook_ingestio.Repository.WebhookEvents.{
  find_event, insert_event, set_processed, mark_event_processed, create_webhook_event,
}
use youtube_webhook_ingestio.Repository.Videos.{by_video_id}
use youtube_webhook_ingestio.Parser.{VideoData, parse_atom_feed}
use youtube_webhook_ingestio.Processor.Cases.{process_event-of_video}
use youtube_webhook_ingestio.Processor.Duplicates.{IsDuplicate}
use youtube_webhook_ingestio.Processor.Success.{Recorded, process_event-ok}
use youtube_webhook_ingestio.Processor.Redelivery.{is_stored}
use youtube_webhook_ingestio.Processor.Projections.{Projected, process_projections-eq-ok}
use youtube_webhook_ingestio.Processor.{
  EventProcessor, process_projections, enqueue_new_video, finish_event, conclude_event,
  process_stored_event, after_create, process_video, process_event,
}
use youtube_webhook_ingestio.Processor.CalmSteps.{existing_video-calm, process_projections-calm}

mark-calm :
    (event_id : ℕ) (message : String) (w : World)
    → w.faults ≡ []
    → is_some (find_event event_id w.db.webhook_events) ≡ true
    → (mark_event_processed event_id message w).0 ≡ ok tt
unfolding mark_event_processed set_processed statement remote answer next_fault later_faults
mark-calm event_id message w f e = simp (f, e) refl

enqueue-ok :
    (p : EventProcessor) (d : VideoData) (o : Option Video) (w : World)
    → (enqueue_new_video p d o w).0 ≡ ok tt
unfolding enqueue_new_video attempt pure ◌>>=◌
enqueue-ok p d o w = elim (Bool-cases (p.has_queue && not (is_some o))) [
  | inl q ↦ simp q refl
  | inr q ↦ simp q refl
]

conclude_event-calm :
    (p : EventProcessor) (d : VideoData) (event_id : ℕ) (o : Option Video) (w : World)
    → w.faults ≡ []
    → is_some (find_event event_id w.db.webhook_events) ≡ true
    → (conclude_event p d event_id o (ok tt) w).0 ≡ ok tt
unfolding conclude_event finish_event attempt ◌>>=◌
conclude_event-calm p d event_id o w f e =
    simp (mark-calm event_id "" w f e) (enqueue-ok p d o (mark_event_processed event_id "" w).1)

process_stored_event-calm :
    (p : EventProcessor) (d : VideoData) (event : WebhookEvent) (w : World)
    → is_some (find_event event.id w.db.webhook_events) ≡ true
    → (process_stored_event p d event (calm w)).0 ≡ ok tt
unfolding process_stored_event attempt ◌>>=◌
process_stored_event-calm p d event w e =
    let (k, f) = process_projections-calm event.id d w e in
    let pr : Projected d event.id (find by_video_id d.video_id w.db.videos) (calm w)
        (process_projections event.id d (calm w)).1 =
      process_projections-eq-ok event.id d (calm w)
        (λ i. (k i, (process_projections event.id d (calm w)).1)) in
    simp (existing_video-calm "check if video exists" d.video_id w, k)
      (conclude_event-calm p d event.id (find by_video_id d.video_id w.db.videos)
        (process_projections event.id d (calm w)).1 f
        (ap (λ es. is_some (find_event event.id es)) pr.events ∙ e))

find_event-append :
    (e : WebhookEvent) (es : List WebhookEvent) → is_some (find_event e.id (es ++ e ∷ [])) ≡ true
unfolding find_event
find_event-append e [] = ground (arith, eqb_iff e.id e.id)
find_event-append e (x ∷ es) = ground (arith, find_event-append e es)

process_video-calm :
    (p : EventProcessor) (raw_xml : String) (d : VideoData) (w : World)
    → is_stored p raw_xml w ≡ false
    → (process_video p raw_xml d (calm w)).0 ≡ ok tt
unfolding process_video after_create create_webhook_event insert_event attempt statement remote
    answer next_fault later_faults new_webhook_event now ◌>>=◌
process_video-calm p raw_xml d w n =
    let event : WebhookEvent =
      record (new_webhook_event (now w).1.clock raw_xml (p.externals.content_hash raw_xml)
        d.video_id d.channel_id) { id = w.db.next_event_id } in
    let v : World = record (now w).1 {
      db = record w.db {
        webhook_events = w.db.webhook_events ++ event ∷ [];
        next_event_id = suc w.db.next_event_id;
      };
    } in
    simp n (process_stored_event-calm p d event v (find_event-append event w.db.webhook_events))

Recorded-or_duplicate :
    (p : EventProcessor) (raw_xml : String) (d : VideoData) (w w' : World)
    → is_stored p raw_xml w ≡ false
    → IsDuplicate (p.externals.content_hash raw_xml) w w' ⊎ Recorded p raw_xml d w w'
    → Recorded p raw_xml d w w'
Recorded-or_duplicate p raw_xml d w w' n (inl i) = absurd (ground (arith, n, i.present))
Recorded-or_duplicate p raw_xml d w w' n (inr r) = r

-- If no row of webhook_events has the content hash of the notification of a video, which is not deleted,
-- and no call fails, then ProcessEvent returns no error, and the event, the rows of the video and its
-- channel, one row of history and at most one task are recorded.
pub process_event-records :
    (p : EventProcessor) (raw_xml : String) (d : VideoData) (w : World)
    → parse_atom_feed p.externals.unmarshal raw_xml ≡ ok d
    → d.is_deleted ≡ false
    → is_stored p raw_xml w ≡ false
    → ((process_event p raw_xml (calm w)).0 ≡ ok tt)
      × Recorded p raw_xml d (calm w) (process_event p raw_xml (calm w)).1
process_event-records p raw_xml d w a b n =
    let k : (process_event p raw_xml (calm w)).0 ≡ ok tt =
      ap (λ x. x.0) (process_event-of_video p raw_xml d (calm w) a b)
      ∙ process_video-calm p raw_xml d w n in
    (
      k,
      Recorded-or_duplicate p raw_xml d (calm w) (process_event p raw_xml (calm w)).1 n (
          process_event-ok p raw_xml d (calm w) (process_event p raw_xml (calm w)).1 a b
            (λ i. (k i, (process_event p raw_xml (calm w)).1))),
    )
