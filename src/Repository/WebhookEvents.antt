-- ===== src/Repository/WebhookEvents.antt =====
-- internal/db/repository/webhook_event.go
pub mod Laws
use youtube_webhook_ingestio.Base.{
  not, ℕ, suc, String, Bool, true, false, Option, none, some, List, [], ◌∷◌, ◌++◌, ◌==◌, eqb,
  if◌then◌else◌, is_some,
}
use youtube_webhook_ingestio.Errors.{no_rows}
use youtube_webhook_ingestio.Models.{Time, WebhookEvent}
use youtube_webhook_ingestio.Models.New.{new_webhook_event}
use youtube_webhook_ingestio.Table.{find}
use youtube_webhook_ingestio.World.{World, Db}
use youtube_webhook_ingestio.World.Action.{ok, err, Action, now, ◌>>=◌}
use youtube_webhook_ingestio.Repository.Rows.{first_rows, rows_where, descending, ascending}
use youtube_webhook_ingestio.Repository.Statement.{Statement, statement, unique_violation}

abbrev pub by_hash : WebhookEvent → String
by_hash e = e.content_hash

unfoldable pub find_event : ℕ → List WebhookEvent → Option WebhookEvent
find_event id [] = none
find_event id (e ∷ es) = if eqb e.id id then some e else find_event id es

unfoldable pub update_event :
    ℕ → (WebhookEvent → WebhookEvent) → List WebhookEvent → List WebhookEvent
update_event id f [] = []
update_event id f (e ∷ es) = (if eqb e.id id then f e else e) ∷ update_event id f es

-- INSERT INTO webhook_events … RETURNING id, received_at, created_at
unfoldable pub insert_event : WebhookEvent → Statement WebhookEvent
unfolding find
insert_event event time db =
    let row : WebhookEvent = record event { id = db.next_event_id } in
    if is_some (find by_hash event.content_hash db.webhook_events)
    then (err (unique_violation "idx_webhook_events_content_hash"), db)
    else (
      ok row,
      record db {
        webhook_events = db.webhook_events ++ row ∷ [];
        next_event_id = suc db.next_event_id;
      },
    )

-- CreateWebhookEvent. `content_hash` is db.GenerateContentHash(rawXML).
unfoldable pub create_webhook_event :
    (String → String) → String → String → String → Action WebhookEvent
unfolding new_webhook_event insert_event statement now ◌>>=◌
create_webhook_event content_hash raw_xml video_id channel_id = do
  time ← now
  statement "create webhook event"
      (insert_event (new_webhook_event time raw_xml (content_hash raw_xml) video_id channel_id))

-- Create, which keeps a hash that the caller gives.
unfoldable pub create : (String → String) → WebhookEvent → Action WebhookEvent
unfolding insert_event statement
create content_hash event =
    let hash =
      if event.content_hash == "" then content_hash event.raw_xml else event.content_hash in
    statement "create webhook event" (insert_event (record event { content_hash = hash }))

-- CASE WHEN $2 != '' THEN $2 ELSE NULL END
abbrev pub text_or_null : String → Option String
text_or_null s = if s == "" then none else some s

abbrev pub as_processed : Time → String → WebhookEvent → WebhookEvent
as_processed time processing_error e = record e {
  processed = true;
  processed_at = some time;
  processing_error = text_or_null processing_error;
}

-- UPDATE webhook_events SET processed = true, …; no row is `pgx.ErrNoRows`.
unfoldable pub set_processed : ℕ → String → Statement (Unit {0})
unfolding find_event update_event
set_processed id processing_error time db =
    if is_some (find_event id db.webhook_events)
    then (
      ok tt,
      record db {
        webhook_events = update_event id (as_processed time processing_error) db.webhook_events;
      },
    )
    else (err no_rows, db)

unfoldable pub mark_event_processed : ℕ → String → Action (Unit {0})
unfolding set_processed statement
mark_event_processed id processing_error =
    statement "mark event processed" (set_processed id processing_error)

-- UPDATE webhook_events SET processed = $1, …
unfoldable pub set_status : ℕ → Bool → String → Statement (Unit {0})
unfolding find_event update_event
set_status id processed processing_error time db =
    if is_some (find_event id db.webhook_events)
    then (
      ok tt,
      record db {
        webhook_events =
            update_event id
              (λ e. record e {
                processed = processed;
                processed_at = if processed then some time else e.processed_at;
                processing_error = text_or_null processing_error;
              })
              db.webhook_events;
      },
    )
    else (err no_rows, db)

unfoldable pub update_processing_status : ℕ → Bool → String → Action (Unit {0})
unfolding set_status statement
update_processing_status id processed processing_error =
    statement "update processing status" (set_status id processed processing_error)

select_event : ℕ → Statement WebhookEvent
unfolding find_event
select_event id time db = elim (find_event id db.webhook_events) [
  | none ↦ (err no_rows, db)
  | some e ↦ (ok e, db)
]

unfoldable pub get_event_by_id : ℕ → Action WebhookEvent
unfolding select_event statement
get_event_by_id id = statement "get event by id" (select_event id)

-- GetUnprocessedEvents. A LIMIT below zero, which PostgreSQL refuses, is one more fault.
unfoldable pub get_unprocessed_events : ℕ → Action (List WebhookEvent)
get_unprocessed_events limit = statement "get unprocessed events" λ time db. (
  ok (first_rows (λ e. not e.processed) (ascending (λ e. e.received_at)) limit db.webhook_events),
  db,
)

-- `video_id = $1`, which no row with a null column meets
abbrev pub is_text : String → Option String → Bool
is_text s none = false
is_text s (some t) = t == s

-- GetEventsByVideoID
unfoldable pub get_events_by_video_id : String → Action (List WebhookEvent)
get_events_by_video_id video_id = statement "get events by video id" λ time db. (
  ok (
      rows_where (λ e. is_text video_id e.video_id) (descending (λ e. e.received_at))
        db.webhook_events),
  db,
)
