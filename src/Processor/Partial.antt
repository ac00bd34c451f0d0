-- ===== src/Processor/Partial.antt =====
-- What a failure in the middle of processProjections leaves behind.
use Prim.Native.String.{◌++◌ as ◌<>◌}
use youtube_webhook_ingestio.Base.{
  String, ℕ, ◌≡◌, refl, ap, ◌∙◌, inl, inr, true, Option, List, ◌∷◌, is_some, Option-cases,
}
use youtube_webhook_ingestio.Errors.{Error, is_not_found, wrap_failure}
use youtube_webhook_ingestio.Models.{Channel, Video}
use youtube_webhook_ingestio.Models.New.{new_channel}
use youtube_webhook_ingestio.Table.{find}
use youtube_webhook_ingestio.World.{World, Fault, served, refused, lost}
use youtube_webhook_ingestio.World.Action.{
  Result, ok, err, pure, attempt, context, remote, now, answer, next_fault, later_faults, ◌>>=◌,
}
use youtube_webhook_ingestio.Repository.Statement.{statement}
use youtube_webhook_ingestio.Repository.Videos.{
  by_channel_id, by_video_id, put_channel, upsert_channel, update_channel, upsert_video,
  get_video_by_id,
}
use youtube_webhook_ingestio.Parser.{VideoData}
use youtube_webhook_ingestio.Processor.{
  existing_video, found_or_absent, end_transaction, roll_back, or_rollback, write_video,
  write_channel, projections, process_projections,
}
use youtube_webhook_ingestio.Processor.CalmSteps.{
  select_video-none, select_video-some, find-upserted,
}

-- It failed, and the channel has a row.
pub record Left (channel_id : String) (x : Result (Unit {0}) × World) : Type 0 where
  pub error : Error
  pub failed : x.0 ≡ err error
  pub row : is_some (find by_channel_id channel_id x.1.db.channels) ≡ true

existing_video-served :
    (before video_id : String) (w : World) (fs : List Fault)
    → existing_video before video_id (record w { faults = served ∷ fs })
      ≡ (ok (find by_video_id video_id w.db.videos), record w { faults = fs })
unfolding existing_video get_video_by_id found_or_absent attempt statement remote answer next_fault
    later_faults is_not_found wrap_failure pure ◌>>=◌
existing_video-served before video_id w fs =
    elim (Option-cases (find by_video_id video_id w.db.videos)) [
      | inl q ↦ simp (q, select_video-none video_id w.clock w.db q) refl
      | inr (v, q) ↦ simp (q, select_video-some video_id w.clock w.db v q) refl
    ]

write_channel-Left :
    (event_id : ℕ) (o : Option Video) (d : VideoData) (t : String) (fs : List Fault) (w : World)
    → Left d.channel_id (write_channel event_id o d (record w { faults = served ∷ refused t ∷ fs }))
unfolding write_channel write_video upsert_channel upsert_video put_channel statement context remote
    answer next_fault later_faults new_channel now ◌>>=◌
write_channel-Left event_id o d t fs w =
    let row : Channel =
      new_channel (now w).1.clock d.channel_id ""
        ("https://www.youtube.com/channel/" <> d.channel_id) in
    record {
      error = _;
      failed = refl;
      row =
          find-upserted by_channel_id d.channel_id row (update_channel row) w.db.channels refl
            (λ x. refl);
    }

answer-end_transaction : (f : Fault) (w : World) → (answer f end_transaction w).1 ≡ w
unfolding answer end_transaction
answer-end_transaction served w = refl
answer-end_transaction (refused t) w = refl
answer-end_transaction (lost t) w = refl

roll_back-Left :
    (channel_id : String) (r : Result (Unit {0})) (w : World)
    → Left channel_id (r, w)
    → Left channel_id (roll_back r w)
unfolding roll_back remote
roll_back-Left channel_id (ok a) w l = l
roll_back-Left channel_id (err e) w l = record {
  error = e;
  failed = refl;
  row =
      ap (λ x. is_some (find by_channel_id channel_id x.db.channels))
        (answer-end_transaction (next_fault w.faults) (record w { faults = later_faults w.faults }))
      ∙ l.row;
}

-- If the database serves the beginning of the transaction, the look-up of the video and the upsert of the
-- channel, and refuses the upsert of the video, then processProjections fails, and the channel has a
-- row after its rollback, whether or not it had one before.
pub process_projections-partial :
    (event_id : ℕ) (d : VideoData) (t : String) (fs : List Fault) (w : World)
    → Left d.channel_id (
        process_projections event_id d
          (record w { faults = served ∷ served ∷ served ∷ refused t ∷ fs }))
unfolding process_projections projections or_rollback end_transaction context remote answer
    next_fault later_faults ◌>>=◌
process_projections-partial event_id d t fs w =
    simp (existing_video-served "get existing video" d.video_id w (served ∷ refused t ∷ fs)) (
      roll_back-Left d.channel_id _ _
        (write_channel-Left event_id (find by_video_id d.video_id w.db.videos) d t fs w))
