-- ===== src/Processor/Redelivery.antt =====
-- A notification whose content hash is already stored: the redelivery of one that was accepted.
use youtube_webhook_ingestio.Base.{
  String, ◌≡◌, refl, sym, ap, subst, arith, ◌∙◌, inl, inr, Bool, true, false, is_some, Bool-cases,
}
use youtube_webhook_ingestio.Errors.{Error, is_duplicate_key, wrap_failure, wrapped}
use youtube_webhook_ingestio.Models.{WebhookEvent}
use youtube_webhook_ingestio.Models.New.{new_webhook_event}
use youtube_webhook_ingestio.Table.{find}
use youtube_webhook_ingestio.World.{World, Fault, served, refused, lost}
use youtube_webhook_ingestio.World.Action.{
  Result, ok, err, attempt, context, remote, now, answer, next_fault, later_faults, ◌>>=◌,
}
use youtube_webhook_ingestio.Repository.Statement.{statement, on_tables, or_wrap, unique_violation}
use youtube_webhook_ingestio.Repository.WebhookEvents.{by_hash, insert_event, create_webhook_event}
use youtube_webhook_ingestio.Parser.{VideoData, parse_atom_feed}
use youtube_webhook_ingestio.Processor.{
  EventProcessor, after_create, process_video, process_deleted, process_event,
}
use youtube_webhook_ingestio.Processor.Cases.{
  process_event-of_video, process_event-of_deleted, process_event-of_unparsed,
}

abbrev pub is_stored : EventProcessor → String → World → Bool
is_stored p raw_xml w =
    is_some (find by_hash (p.externals.content_hash raw_xml) w.db.webhook_events)

-- The tables and the queue are as they were.
pub record Unchanged (w w' : World) : Type 0 where
  pub db : w'.db ≡ w.db
  pub tasks : w'.tasks ≡ w.tasks

-- The insertion failed and changed nothing; where it was served, it failed as a duplicate.
record Rejected (f : Fault) {A : Type 0} (r : Result A) (w w' : World) : Type 0 where
  error : Error
  failed : r ≡ err error
  duplicate : f ≡ served → is_duplicate_key error ≡ true
  unchanged : Unchanged w w'

answer-Rejected :
    (f : Fault) (row : WebhookEvent) (w : World)
    → is_some (find by_hash row.content_hash w.db.webhook_events) ≡ true
    → Rejected f
        (or_wrap "create webhook event" (answer f (on_tables (insert_event row)) w).0)
        w
        (answer f (on_tables (insert_event row)) w).1
unfolding answer insert_event wrap_failure is_duplicate_key
answer-Rejected served row w q = record {
  error = wrap_failure (unique_violation "idx_webhook_events_content_hash") "create webhook event";
  failed = simp q refl;
  duplicate = λ s. refl;
  unchanged = record { db = simp q refl; tasks = refl };
}
answer-Rejected (refused t) row w q = record {
  error = _;
  failed = refl;
  duplicate = λ s. cc;
  unchanged = record { db = refl; tasks = refl };
}
answer-Rejected (lost t) row w q = record {
  error = _;
  failed = refl;
  duplicate = λ s. cc;
  unchanged = record { db = simp q refl; tasks = refl };
}

create-Rejected :
    (content_hash : String → String) (raw_xml video_id channel_id : String) (w : World)
    → is_some (find by_hash (content_hash raw_xml) w.db.webhook_events) ≡ true
    → Rejected
        (next_fault w.faults)
        (create_webhook_event content_hash raw_xml video_id channel_id w).0
        w
        (create_webhook_event content_hash raw_xml video_id channel_id w).1
unfolding create_webhook_event statement remote now ◌>>=◌
create-Rejected content_hash raw_xml video_id channel_id w q =
    let v : World = (now w).1 in
    let a =
      answer-Rejected (next_fault w.faults)
        (new_webhook_event v.clock raw_xml (content_hash raw_xml) video_id channel_id)
        (record v { faults = later_faults w.faults }) q in
    record {
      error = a.error;
      failed = a.failed;
      duplicate = a.duplicate;
      unchanged = record { db = a.unchanged.db; tasks = a.unchanged.tasks };
    }

after_rejection :
    (p : EventProcessor) (d : VideoData) (w v : World) (f : Fault) (r : Result WebhookEvent)
    → Rejected f r w v
    → Unchanged w (after_create p d r v).1 × (f ≡ served → (after_create p d r v).0 ≡ ok tt)
unfolding after_create
after_rejection p d w v f (ok e) j = absurd (ground (arith, j.failed))
after_rejection p d w v f (err e) j = (
  record { db = ground (arith, j.unchanged.db); tasks = ground (arith, j.unchanged.tasks) },
  λ s. ground (arith, j.duplicate s, j.failed),
)

process_video-stored :
    (p : EventProcessor) (raw_xml : String) (d : VideoData) (w : World)
    → is_stored p raw_xml w ≡ true
    → Unchanged w (process_video p raw_xml d w).1
      × (next_fault w.faults ≡ served → (process_video p raw_xml d w).0 ≡ ok tt)
unfolding process_video attempt ◌>>=◌
process_video-stored p raw_xml d w q =
    after_rejection p d w _ (next_fault w.faults) _
      (create-Rejected p.externals.content_hash raw_xml d.video_id d.channel_id w q)

process_deleted-stored :
    (p : EventProcessor) (raw_xml : String) (w : World)
    → is_stored p raw_xml w ≡ true
    → Unchanged w (process_deleted p raw_xml w).1
      × (next_fault w.faults ≡ served
          → (e : Error) × ((process_deleted p raw_xml w).0 ≡ err e) × (is_duplicate_key e ≡ true))
unfolding process_deleted context is_duplicate_key ◌>>=◌
process_deleted-stored p raw_xml w q =
    let j = create-Rejected p.externals.content_hash raw_xml "" "" w q in
    (
      record { db = simp j.failed j.unchanged.db; tasks = simp j.failed j.unchanged.tasks },
      λ s. (
        wrapped "create webhook event for deleted video: " j.error "",
        simp j.failed refl,
        j.duplicate s,
      ),
    )

-- ProcessEvent on what the parser returned.
handle_parsed-stored :
    (p : EventProcessor) (raw_xml : String) (w : World) (r : Result VideoData)
    → parse_atom_feed p.externals.unmarshal raw_xml ≡ r
    → is_stored p raw_xml w ≡ true
    → Unchanged w (process_event p raw_xml w).1
handle_parsed-stored p raw_xml w (ok d) h q = elim (Bool-cases d.is_deleted) [
  | inl k ↦
      subst (λ x. Unchanged w x.1) (sym (process_event-of_deleted p raw_xml d w h k))
        (process_deleted-stored p raw_xml w q).0
  | inr k ↦
      subst (λ x. Unchanged w x.1) (sym (process_event-of_video p raw_xml d w h k))
        (process_video-stored p raw_xml d w q).0
]
handle_parsed-stored p raw_xml w (err e) h q =
    subst (λ x. Unchanged w x.1) (sym (process_event-of_unparsed p raw_xml e w h))
      (record { db = refl; tasks = refl })

-- If a row of webhook_events has the content hash of the notification, then ProcessEvent, whether
-- it succeeds or fails and whatever calls fail, changes no table and adds no task. So an event whose
-- first processing failed after it was stored is never processed again.
pub process_event-stored :
    (p : EventProcessor) (raw_xml : String) (w : World)
    → is_stored p raw_xml w ≡ true
    → Unchanged w (process_event p raw_xml w).1
process_event-stored p raw_xml w q =
    handle_parsed-stored p raw_xml w (parse_atom_feed p.externals.unmarshal raw_xml) refl q

-- If a row of webhook_events has the content hash of the notification of a video, which is not
-- deleted, and the database serves the insertion, then ProcessEvent returns no error.
process_event-redelivered :
    (p : EventProcessor) (raw_xml : String) (d : VideoData) (w : World)
    → parse_atom_feed p.externals.unmarshal raw_xml ≡ ok d
    → d.is_deleted ≡ false
    → is_stored p raw_xml w ≡ true
    → next_fault w.faults ≡ served
    → (process_event p raw_xml w).0 ≡ ok tt
process_event-redelivered p raw_xml d w h k q s =
    ap (λ x. x.0) (process_event-of_video p raw_xml d w h k)
    ∙ (process_video-stored p raw_xml d w q).1 s

-- If a row of webhook_events has the content hash of the notification of a deletion, and the
-- database serves the insertion, then ProcessEvent fails with an error that is a duplicate key.
pub process_event-redelivered_deletion :
    (p : EventProcessor) (raw_xml : String) (d : VideoData) (w : World)
    → parse_atom_feed p.externals.unmarshal raw_xml ≡ ok d
    → d.is_deleted ≡ true
    → is_stored p raw_xml w ≡ true
    → next_fault w.faults ≡ served
    → (e : Error) × ((process_event p raw_xml w).0 ≡ err e) × (is_duplicate_key e ≡ true)
process_event-redelivered_deletion p raw_xml d w h k q s =
    let (e, f, i) = (process_deleted-stored p raw_xml w q).1 s in
    (e, ap (λ x. x.0) (process_event-of_deleted p raw_xml d w h k) ∙ f, i)
