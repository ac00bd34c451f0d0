-- ===== src/Tests/Notifications.antt =====
-- Runs of ProcessEvent.
use youtube_webhook_ingestio.Base.{◌≡◌, ◌⊎◌, ◌↔◌, refl, true, [], ◌∷◌}
use youtube_webhook_ingestio.Errors.{Error, is_duplicate_key, is_not_found, wrap_failure}
use youtube_webhook_ingestio.Table.{find}
use youtube_webhook_ingestio.World.{World, calm, refused, served, lost}
use youtube_webhook_ingestio.World.Action.{ok, err}
use youtube_webhook_ingestio.Parser.{AtomFeed, parse_atom_feed, deleted_data}
use youtube_webhook_ingestio.World.Action.{context, remote, attempt}
use youtube_webhook_ingestio.Repository.WebhookEvents.{create_webhook_event, mark_event_processed}
use youtube_webhook_ingestio.Repository.Videos.{get_video_by_id, upsert_channel, upsert_video}
use youtube_webhook_ingestio.Repository.VideoUpdates.{create_video_update}
use youtube_webhook_ingestio.Repository.Jobs.{create_job}
use youtube_webhook_ingestio.Queue.Client.{enqueue_video_enrichment}
use youtube_webhook_ingestio.Queue.Client.Effects.{
  AtMostOneTask, enqueue_video_enrichment-AtMostOneTask,
}
use youtube_webhook_ingestio.World.Keeps.{Keeps}
use youtube_webhook_ingestio.Parser.Laws.{Describes, parse_atom_feed_iff}
use youtube_webhook_ingestio.Processor.{process_event, process_projections}
use youtube_webhook_ingestio.Processor.Duplicates.{IsDuplicate}
use youtube_webhook_ingestio.Processor.Success.{Recorded, process_event-ok}
use youtube_webhook_ingestio.Processor.EventStore.{Appended, process_event-Appended}
use youtube_webhook_ingestio.Processor.Calm.{process_event-records}
use youtube_webhook_ingestio.Processor.Partial.{Left, process_projections-partial}
use youtube_webhook_ingestio.Processor.Redelivery.{
  Unchanged, process_event-stored, process_event-redelivered_deletion,
}
use youtube_webhook_ingestio.Tests.{externals, unmarshal, processor, first_world, entry_video}

-- The world after a notification of the video, with faults ahead.
abbrev after_video : World
after_video = (process_event processor "<feed>video</feed>" (first_world [])).1

abbrev after_deletion : World
after_deletion = (process_event processor "<feed>deleted</feed>" (first_world [])).1

process_event-ok_example :
    IsDuplicate "hash of <feed>video</feed>" (first_world []) after_video
    ⊎ Recorded processor "<feed>video</feed>" entry_video (first_world []) after_video
unfolding process_event context remote attempt create_webhook_event get_video_by_id is_not_found
    wrap_failure mark_event_processed upsert_channel upsert_video create_video_update
    parse_atom_feed enqueue_video_enrichment create_job
process_event-ok_example =
    process_event-ok processor "<feed>video</feed>" entry_video (first_world []) after_video refl
      refl refl

process_event-Appended_example :
    Appended "hash of <feed>video</feed>" "<feed>video</feed>"
      (first_world (served ∷ lost "EOF" ∷ []))
      (process_event processor "<feed>video</feed>" (first_world (served ∷ lost "EOF" ∷ []))).1
process_event-Appended_example =
    process_event-Appended processor "<feed>video</feed>" (first_world (served ∷ lost "EOF" ∷ []))

process_event-stored_example :
    Unchanged after_video (process_event processor "<feed>video</feed>" after_video).1
unfolding process_event context remote attempt create_webhook_event get_video_by_id is_not_found
    wrap_failure mark_event_processed upsert_channel upsert_video create_video_update
    parse_atom_feed enqueue_video_enrichment create_job
process_event-stored_example = process_event-stored processor "<feed>video</feed>" after_video refl

process_event-redelivered_deletion_example :
    (e : Error) × ((process_event processor "<feed>deleted</feed>" after_deletion).0 ≡ err e)
    × (is_duplicate_key e ≡ true)
unfolding process_event context remote attempt create_webhook_event get_video_by_id is_not_found
    wrap_failure mark_event_processed upsert_channel upsert_video create_video_update
    parse_atom_feed enqueue_video_enrichment create_job
process_event-redelivered_deletion_example =
    process_event-redelivered_deletion processor "<feed>deleted</feed>" deleted_data after_deletion
      refl refl refl refl

parse_atom_feed_iff_example : (parse_atom_feed unmarshal "<feed>video</feed>" ≡ ok entry_video) ↔ (
    (feed : AtomFeed) × (unmarshal "<feed>video</feed>" ≡ ok feed)
    × Describes feed.deleted feed.entry entry_video)
parse_atom_feed_iff_example = parse_atom_feed_iff unmarshal "<feed>video</feed>" entry_video

enqueue_video_enrichment-AtMostOneTask_example :
    Keeps
      (AtMostOneTask "dQw4w9WgXcQ")
      (enqueue_video_enrichment externals "dQw4w9WgXcQ" "UCuAXFkgsw1L7xaCfnd5JJOw" 0)
enqueue_video_enrichment-AtMostOneTask_example =
    enqueue_video_enrichment-AtMostOneTask externals "dQw4w9WgXcQ" "UCuAXFkgsw1L7xaCfnd5JJOw" 0

process_event-records_example :
    ((process_event processor "<feed>video</feed>" (calm (first_world []))).0 ≡ ok tt)
    × Recorded processor "<feed>video</feed>" entry_video
        (calm (first_world []))
        (process_event processor "<feed>video</feed>" (calm (first_world []))).1
unfolding parse_atom_feed find
process_event-records_example =
    process_event-records processor "<feed>video</feed>" entry_video (first_world []) refl refl refl

process_projections-partial_example : Left entry_video.channel_id (
    process_projections 1 entry_video
      (record (first_world []) { faults = served ∷ served ∷ served ∷ refused "EOF" ∷ [] }))
process_projections-partial_example =
    process_projections-partial 1 entry_video "EOF" [] (first_world [])
