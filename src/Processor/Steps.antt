-- ===== src/Processor/Steps.antt =====
-- What each step of ProcessEvent has done when it succeeds.
use youtube_webhook_ingestio.Base.{
  suc, String, ◌≡◌, refl, ap, arith, inl, inr, true, Option, none, some, [], ◌∷◌, ◌++◌, Bool-cases,
}
use youtube_webhook_ingestio.Errors.{Error, is_not_found, wrap_failure}
use youtube_webhook_ingestio.Models.{WebhookEvent, Video, Time}
use youtube_webhook_ingestio.Models.New.{new_webhook_event}
use youtube_webhook_ingestio.Table.{find}
use youtube_webhook_ingestio.World.{World, Db, Fault, served, refused, lost}
use youtube_webhook_ingestio.World.Action.{
  Result, ok, err, attempt, remote, now, answer, next_fault,
}
use youtube_webhook_ingestio.Repository.Statement.{statement, on_tables, or_wrap}
use youtube_webhook_ingestio.Repository.Outcome.{Ran, statement-eq-ok}
use youtube_webhook_ingestio.Repository.WebhookEvents.{by_hash, insert_event, create_webhook_event}
use youtube_webhook_ingestio.Repository.Videos.{by_video_id, select_video, get_video_by_id}
use youtube_webhook_ingestio.Processor.{existing_video, found_or_absent}

-- The insertion of an event met no other event with its hash, and added one row.
pub record Created (hash raw_xml : String) (e : WebhookEvent) (w w' : World) : Type 0 where
  pub fresh : find by_hash hash w.db.webhook_events ≡ none
  pub raw : e.raw_xml ≡ raw_xml
  pub hashed : e.content_hash ≡ hash
  pub events : w'.db.webhook_events ≡ w.db.webhook_events ++ e ∷ []
  pub channels : w'.db.channels ≡ w.db.channels
  pub videos : w'.db.videos ≡ w.db.videos
  pub updates : w'.db.video_updates ≡ w.db.video_updates
  pub tasks : w'.tasks ≡ w.tasks

insert_event-ok :
    (event e : WebhookEvent) (t : Time) (db db' : Db)
    → insert_event event t db ≡ (ok e, db')
    → (find by_hash event.content_hash db.webhook_events ≡ none)
      × (e ≡ record event { id = db.next_event_id })
      × (db' ≡ record db {
        webhook_events = db.webhook_events ++ e ∷ [];
        next_event_id = suc db.next_event_id;
      })
unfolding insert_event
insert_event-ok event e t db db' h = (ground arith, ground arith, ground arith)

pub create_webhook_event-eq-ok :
    (content_hash : String → String) (raw_xml video_id channel_id : String) (w : World)
    {e : WebhookEvent} {w' : World}
    → create_webhook_event content_hash raw_xml video_id channel_id w ≡ (ok e, w')
    → Created (content_hash raw_xml) raw_xml e w w'
unfolding create_webhook_event
create_webhook_event-eq-ok content_hash raw_xml video_id channel_id w {e} {w'} h =
    let v : World = (now w).1 in
    let row : WebhookEvent =
      new_webhook_event v.clock raw_xml (content_hash raw_xml) video_id channel_id in
    let r : Ran (insert_event row) e v w' = statement-eq-ok "create webhook event" _ v h in
    let (a, b, c) = insert_event-ok row e v.clock v.db w'.db r.tables in
    record {
      fresh = a;
      raw = ap (λ x. x.raw_xml) b;
      hashed = ap (λ x. x.content_hash) b;
      events = ap (λ x. x.webhook_events) c;
      channels = ap (λ x. x.channels) c;
      videos = ap (λ x. x.videos) c;
      updates = ap (λ x. x.video_updates) c;
      tasks = r.tasks;
    }

-- A look-up that fails with "not found" was served, and there is no such row.
not_found_means_absent :
    (f : Fault) (video_id : String) (w : World) {e : Error}
    → (answer f (on_tables (select_video video_id)) w).0 ≡ err e
    → is_not_found (wrap_failure e "get video by id") ≡ true
    → (find by_video_id video_id w.db.videos ≡ none)
unfolding answer wrap_failure is_not_found select_video
not_found_means_absent served video_id w h k = ground arith
not_found_means_absent (refused t) video_id w h k = ground arith
not_found_means_absent (lost t) video_id w h k = ground arith

-- A look-up of a video changes no table, and finds the row of the video if there is one.
pub record Looked (video_id : String) (o : Option Video) (w w' : World) : Type 0 where
  pub found : o ≡ find by_video_id video_id w.db.videos
  pub db : w'.db ≡ w.db
  pub tasks : w'.tasks ≡ w.tasks

select_keeps :
    (f : Fault) (video_id : String) (w : World)
    → ((answer f (on_tables (select_video video_id)) w).1.db ≡ w.db)
      × ((answer f (on_tables (select_video video_id)) w).1.tasks ≡ w.tasks)
unfolding answer select_video
select_keeps served video_id w = ground arith
select_keeps (refused t) video_id w = (refl, refl)
select_keeps (lost t) video_id w = ground arith

get_video-keeps :
    (video_id : String) (w : World)
    → ((get_video_by_id video_id w).1.db ≡ w.db) × ((get_video_by_id video_id w).1.tasks ≡ w.tasks)
unfolding get_video_by_id statement remote
get_video-keeps video_id w = select_keeps (next_fault w.faults) video_id _

select_video-ok :
    (video_id : String) (t : Time) (db db' : Db) {v : Video}
    → select_video video_id t db ≡ (ok v, db')
    → find by_video_id video_id db.videos ≡ some v
unfolding select_video
select_video-ok video_id t db db' h = ground arith

get_video-found :
    (video_id : String) (w : World) {v : Video}
    → (get_video_by_id video_id w).0 ≡ ok v
    → find by_video_id video_id w.db.videos ≡ some v
unfolding get_video_by_id
get_video-found video_id w {v} p =
    let r : Ran (select_video video_id) v w (get_video_by_id video_id w).1 =
      statement-eq-ok "get video by id" (select_video video_id) w
        (λ i. (p i, (get_video_by_id video_id w).1)) in
    select_video-ok video_id w.clock w.db _ r.tables

pub or_wrap-eq-err :
    {A : Type 0} (operation : String) (r : Result A) {e : Error}
    → or_wrap operation r ≡ err e
    → (cause : Error) × (r ≡ err cause) × (e ≡ wrap_failure cause operation)
or_wrap-eq-err operation (ok a) h = cc
or_wrap-eq-err operation (err cause) h = (cause, refl, ground arith)

get_video-absent :
    (video_id : String) (w : World) {e : Error}
    → (get_video_by_id video_id w).0 ≡ err e
    → is_not_found e ≡ true
    → find by_video_id video_id w.db.videos ≡ none
unfolding get_video_by_id statement remote
get_video-absent video_id w p k =
    let (cause, q, c) = or_wrap-eq-err "get video by id" _ p in
    not_found_means_absent (next_fault w.faults) video_id _ q (rw (← c) k)

found_or_absent-ok :
    (before video_id : String) (w : World) (r : Result Video) {o : Option Video} {w' : World}
    → (get_video_by_id video_id w).0 ≡ r
    → found_or_absent before r (get_video_by_id video_id w).1 ≡ (ok o, w')
    → (o ≡ find by_video_id video_id w.db.videos) × (w' ≡ (get_video_by_id video_id w).1)
unfolding found_or_absent
found_or_absent-ok before video_id w (ok v) p h =
    let f : find by_video_id video_id w.db.videos ≡ some v = get_video-found video_id w p in
    (ground arith, ground arith)
found_or_absent-ok before video_id w (err e) p h = elim (Bool-cases (is_not_found e)) [
  | inl k ↦
      let f : find by_video_id video_id w.db.videos ≡ none = get_video-absent video_id w p k in
      (ground arith, ground arith)
  | inr k ↦ absurd (ground arith)
]

pub existing_video-eq-ok :
    (before video_id : String) (w : World) {o : Option Video} {w' : World}
    → existing_video before video_id w ≡ (ok o, w')
    → Looked video_id o w w'
unfolding existing_video attempt
existing_video-eq-ok before video_id w {o} {w'} h =
    let (d, t) = get_video-keeps video_id w in
    let (f, e) = found_or_absent-ok before video_id w (get_video_by_id video_id w).0 refl h in
    record { found = f; db = rw e d; tasks = rw e t }
