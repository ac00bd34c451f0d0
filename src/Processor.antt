-- ===== src/Processor.antt =====
-- internal/service/processor.go: ProcessEvent, from the text of a notification to the tables and the
-- queue.
pub mod Steps
pub mod History
pub mod Projections
pub mod Duplicates
pub mod Kept
pub mod EventStore
pub mod Cases
pub mod Conclusion
pub mod Success
pub mod CalmSteps
pub mod Calm
pub mod Partial
pub mod Redelivery
use Prim.Native.String.{◌++◌ as ◌<>◌}
use youtube_webhook_ingestio.Base.{
  ℕ, String, Bool, true, false, not, ◌&&◌, Option, none, some, ◌==◌, if◌then◌else◌, is_some,
}
use youtube_webhook_ingestio.Errors.{Error, wrapped, error_text, is_not_found, is_duplicate_key}
use youtube_webhook_ingestio.Models.{
  WebhookEvent, Video, UpdateType, new_video, title_update, unknown,
}
use youtube_webhook_ingestio.Models.New.{new_channel, new_video as make_video, new_video_update}
use youtube_webhook_ingestio.World.{World}
use youtube_webhook_ingestio.World.Action.{
  Result, ok, err, Action, pure, fail, lift, attempt, context, remote, now, ◌>>=◌, ◌>>◌,
}
use youtube_webhook_ingestio.Externals.{Externals}
use youtube_webhook_ingestio.Parser.{VideoData, parse_atom_feed}
use youtube_webhook_ingestio.Repository.WebhookEvents.{create_webhook_event, mark_event_processed}
use youtube_webhook_ingestio.Repository.Videos.{upsert_channel, get_video_by_id, upsert_video}
use youtube_webhook_ingestio.Repository.VideoUpdates.{create_video_update}
use youtube_webhook_ingestio.Queue.Client.{enqueue_video_enrichment}

-- eventProcessor; `has_queue` says whether SetQueueClient was called.
pub record EventProcessor : Type 0 where
  pub externals : Externals
  pub has_queue : Bool

-- determineUpdateType
unfoldable pub determine_update_type : Option Video → VideoData → UpdateType
determine_update_type none d = new_video
determine_update_type (some v) d = if v.title == d.title then unknown else title_update

-- `if err != nil && !db.IsNotFound(err) { return … }`, where an error leaves `existingVideo` nil
unfoldable pub found_or_absent : String → Result Video → Action (Option Video)
unfolding pure fail
found_or_absent before (ok v) = pure (some v)
found_or_absent before (err e) =
    if is_not_found e then pure none else fail (wrapped (before <> ": ") e "")

unfoldable pub existing_video : String → String → Action (Option Video)
unfolding found_or_absent ◌>>=◌
existing_video before video_id = do r ← attempt (get_video_by_id video_id); found_or_absent before r

-- Begin, Commit and Rollback of the transaction `tx`. The repositories run their statements on the
-- pool and not on `tx`, so it holds no statement, and its end changes no table.
unfoldable pub end_transaction : World → Result (Unit {0}) × World
end_transaction w = (ok tt, w)

-- `defer tx.Rollback(ctx)`: after a commit it does nothing. After a commit that has failed it makes no call
-- either; that it takes a fault of the world here changes nothing else.
unfoldable pub roll_back : Result (Unit {0}) → Action (Unit {0})
unfolding end_transaction
roll_back (ok a) w = (ok a, w)
roll_back (err e) w = (err e, (remote end_transaction w).1)

unfoldable pub or_rollback : Action (Unit {0}) → Action (Unit {0})
unfolding roll_back
or_rollback m w = let (r, w') = m w in roll_back r w'

-- The body of processProjections, its steps from the last to the first.
unfoldable pub write_history : ℕ → Option Video → VideoData → Action (Unit {0})
unfolding determine_update_type end_transaction new_video_update ◌>>=◌
write_history event_id existing d = do
  time ← now
  context "create video update" (
      create_video_update (
        new_video_update time event_id d.video_id d.channel_id d.title d.published_at d.updated_at
          (determine_update_type existing d)))
  context "commit transaction" (remote end_transaction)

unfoldable pub write_video : ℕ → Option Video → VideoData → Action (Unit {0})
unfolding make_video write_history ◌>>=◌
write_video event_id existing d = do
  time ← now
  context "upsert video"
      (upsert_video (make_video time d.video_id d.channel_id d.title d.video_url d.published_at))
  write_history event_id existing d

unfoldable pub write_channel : ℕ → Option Video → VideoData → Action (Unit {0})
unfolding new_channel write_video ◌>>=◌
write_channel event_id existing d = do
  time ← now
  context "upsert channel" (
      upsert_channel
        (new_channel time d.channel_id "" ("https://www.youtube.com/channel/" <> d.channel_id)))
  write_video event_id existing d

unfoldable pub projections : ℕ → VideoData → Action (Unit {0})
unfolding existing_video write_channel ◌>>=◌
projections event_id d = do
  existing ← existing_video "get existing video" d.video_id
  write_channel event_id existing d

-- processProjections
unfoldable pub process_projections : ℕ → VideoData → Action (Unit {0})
unfolding projections or_rollback end_transaction ◌>>=◌
process_projections event_id d = do
  context "begin transaction" (remote end_transaction)
  or_rollback (projections event_id d)

-- `errMsg` of ProcessEvent, and the `%v` of an error that may be nil
abbrev pub error_message : Result (Unit {0}) → String
error_message (ok a) = ""
error_message (err e) = error_text e

abbrev shown_error : Result (Unit {0}) → String
shown_error (ok a) = "<nil>"
shown_error (err e) = error_text e

-- A failure to enqueue is logged and dropped.
unfoldable pub enqueue_new_video : EventProcessor → VideoData → Option Video → Action (Unit {0})
unfolding ◌>>=◌
enqueue_new_video p d existing =
    if p.has_queue && not (is_some existing)
    then (do attempt (enqueue_video_enrichment p.externals d.video_id d.channel_id 0); pure tt)
    else pure tt

-- The end of ProcessEvent, on what the projections and the marking returned.
unfoldable pub finish_event :
    EventProcessor
    → VideoData
    → Option Video
    → Result (Unit {0})
    → Result (Unit {0})
    → Action (Unit {0})
unfolding enqueue_new_video fail pure
finish_event p d existing processed (err e) =
    fail (wrapped "mark event processed: " e (" (original error: " <> shown_error processed <> ")"))
finish_event p d existing (err e) (ok a) = fail (wrapped "process projections: " e "")
finish_event p d existing (ok b) (ok a) = enqueue_new_video p d existing

-- ProcessEvent once the projections have returned.
unfoldable pub conclude_event :
    EventProcessor → VideoData → ℕ → Option Video → Result (Unit {0}) → Action (Unit {0})
unfolding finish_event ◌>>=◌
conclude_event p d event_id existing processed = do
  marked ← attempt (mark_event_processed event_id (error_message processed))
  finish_event p d existing processed marked

-- ProcessEvent once the event has its row.
unfoldable pub process_stored_event : EventProcessor → VideoData → WebhookEvent → Action (Unit {0})
unfolding existing_video process_projections conclude_event ◌>>=◌
process_stored_event p d event = do
  existing ← existing_video "check if video exists" d.video_id
  processed ← attempt (process_projections event.id d)
  conclude_event p d event.id existing processed

unfoldable pub after_create : EventProcessor → VideoData → Result WebhookEvent → Action (Unit {0})
unfolding process_stored_event pure fail
after_create p d (err e) =
    if is_duplicate_key e then pure tt else fail (wrapped "create webhook event: " e "")
after_create p d (ok event) = process_stored_event p d event

unfoldable pub process_video : EventProcessor → String → VideoData → Action (Unit {0})
unfolding after_create ◌>>=◌
process_video p raw_xml d = do
  created ← attempt (create_webhook_event p.externals.content_hash raw_xml d.video_id d.channel_id)
  after_create p d created

unfoldable pub process_deleted : EventProcessor → String → Action (Unit {0})
unfolding ◌>>=◌
process_deleted p raw_xml = do
  context "create webhook event for deleted video"
      (create_webhook_event p.externals.content_hash raw_xml "" "")
  pure tt

-- ProcessEvent
unfoldable pub process_event : EventProcessor → String → Action (Unit {0})
unfolding process_deleted process_video ◌>>=◌
process_event p raw_xml = do
  d ← context "parse atom feed" (lift (parse_atom_feed p.externals.unmarshal raw_xml))
  if d.is_deleted then process_deleted p raw_xml else process_video p raw_xml d
