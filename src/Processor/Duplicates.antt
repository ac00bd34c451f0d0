-- ===== src/Processor/Duplicates.antt =====
-- A duplicate of an event: what the insertion says of the table when it breaks the unique index.
use youtube_webhook_ingestio.Base.{
  String, ◌≡◌, subst, refl, arith, true, is_some, Bool-cases, inl, inr,
}
use youtube_webhook_ingestio.Errors.{Error, is_duplicate_key, wrap_failure}
use youtube_webhook_ingestio.Models.{WebhookEvent}
use youtube_webhook_ingestio.Models.New.{new_webhook_event}
use youtube_webhook_ingestio.Table.{find}
use youtube_webhook_ingestio.World.{World, Fault, served, refused, lost}
use youtube_webhook_ingestio.World.Action.{
  err, remote, now, answer, next_fault, later_faults, ◌>>=◌,
}
use youtube_webhook_ingestio.Repository.Statement.{statement, on_tables}
use youtube_webhook_ingestio.Repository.WebhookEvents.{by_hash, insert_event, create_webhook_event}
use youtube_webhook_ingestio.Processor.Steps.{or_wrap-eq-err}

-- The event's hash is in the table, and the call changed neither the tables nor the queue.
pub record IsDuplicate (hash : String) (w w' : World) : Type 0 where
  pub present : is_some (find by_hash hash w.db.webhook_events) ≡ true
  pub db : w'.db ≡ w.db
  pub tasks : w'.tasks ≡ w.tasks

insertion_refused :
    (f : Fault) (row : WebhookEvent) (w : World) {e : Error}
    → (answer f (on_tables (insert_event row)) w).0 ≡ err e
    → is_duplicate_key (wrap_failure e "create webhook event") ≡ true
    → IsDuplicate row.content_hash w (answer f (on_tables (insert_event row)) w).1
unfolding answer wrap_failure is_duplicate_key insert_event
insertion_refused served row w h k =
    elim (Bool-cases (is_some (find by_hash row.content_hash w.db.webhook_events))) [
      | inl q ↦ record { present = q; db = ground arith; tasks = refl }
      | inr q ↦ absurd (ground arith)
    ]
insertion_refused (refused t) row w h k = absurd (ground arith)
insertion_refused (lost t) row w h k = absurd (ground arith)

pub create_webhook_event-eq-IsDuplicate :
    (content_hash : String → String) (raw_xml video_id channel_id : String) (w : World) {e : Error}
    {w' : World}
    → create_webhook_event content_hash raw_xml video_id channel_id w ≡ (err e, w')
    → is_duplicate_key e ≡ true
    → IsDuplicate (content_hash raw_xml) w w'
unfolding create_webhook_event statement remote now ◌>>=◌
create_webhook_event-eq-IsDuplicate content_hash raw_xml video_id channel_id w {e} {w'} h k =
    let v : World = (now w).1 in
    let row : WebhookEvent =
      new_webhook_event v.clock raw_xml (content_hash raw_xml) video_id channel_id in
    let (cause, q, c) = or_wrap-eq-err "create webhook event" _ (λ i. (h i).0) in
    let d =
      insertion_refused (next_fault v.faults) row (record v { faults = later_faults v.faults }) q
        (rw (← c) k) in
    subst (λ x. IsDuplicate (content_hash raw_xml) w x) (λ i. (h i).1)
      (record { present = d.present; db = d.db; tasks = d.tasks })
