-- ===== src/Processor/Kept.antt =====
-- What leaves the rows of webhook_events as they were, but for the columns that record how the
-- processing of an event ended: every step of ProcessEvent after the insertion.
use youtube_webhook_ingestio.Base.{
  ℕ, String, ◌≡◌, refl, sym, ap, arith, ◌∙◌, Bool, true, false, Option, none, some, List, [], ◌∷◌,
  map, eqb, if◌then◌else◌,
}
use youtube_webhook_ingestio.Errors.{is_not_found, is_duplicate_key}
use youtube_webhook_ingestio.Models.{WebhookEvent, Channel, Video, VideoUpdate, Time}
use youtube_webhook_ingestio.Models.New.{new_video_update}
use youtube_webhook_ingestio.World.{World}
use youtube_webhook_ingestio.World.Action.{Result, ok, err, Action, remote}
use youtube_webhook_ingestio.World.Keeps.{
  IsSteady, Keeps, Keeps-pure, Keeps-fail, Keeps-now, Keeps-attempt, Keeps-context, Keeps-bind,
  Keeps-if, Keeps-remote,
}
use youtube_webhook_ingestio.Repository.Statement.{on_tables}
use youtube_webhook_ingestio.Repository.WebhookEvents.{
  update_event, as_processed, set_processed, mark_event_processed,
}
use youtube_webhook_ingestio.Repository.Videos.{
  put_channel, upsert_channel, put_video, upsert_video, select_video, get_video_by_id,
}
use youtube_webhook_ingestio.Repository.VideoUpdates.{insert_update, create_video_update}
use youtube_webhook_ingestio.Parser.{VideoData}
use youtube_webhook_ingestio.Queue.Client.{enqueue_video_enrichment}
use youtube_webhook_ingestio.Queue.Client.Effects.{
  enqueue_video_enrichment-AtMostOneTask, Keeps-statement,
}
use youtube_webhook_ingestio.Processor.{
  EventProcessor, determine_update_type, existing_video, found_or_absent, end_transaction,
  roll_back, or_rollback, write_history, write_video, write_channel, projections,
  process_projections, enqueue_new_video, finish_event, conclude_event, process_stored_event,
  after_create,
}

-- An event without the columns that record how its processing ended.
abbrev pub frozen : WebhookEvent → WebhookEvent
frozen e = record e { processed = false; processed_at = none; processing_error = none }

-- The rows of webhook_events, in the order of their insertion, without those columns.
abbrev pub stored_events : World → List WebhookEvent
stored_events w = map frozen w.db.webhook_events

-- The same rows.
pub record Kept (w w' : World) : Type 0 where
  pub events : stored_events w' ≡ stored_events w

pub Kept-IsSteady : IsSteady Kept
Kept-IsSteady = record {
  refl_at = λ w. record { events = refl };
  trans_at = λ u v w p q. record { events = q.events ∙ p.events };
  environment = λ w v d b t. record { events = λ i. map frozen (sym d i).webhook_events };
}

frozen-as_processed :
    (b : Bool) (t : Time) (message : String) (e : WebhookEvent)
    → frozen (if b then as_processed t message e else e) ≡ frozen e
frozen-as_processed true t message e = refl
frozen-as_processed false t message e = refl

frozen-update_event :
    (id : ℕ) (t : Time) (message : String) (es : List WebhookEvent)
    → map frozen (update_event id (as_processed t message) es) ≡ map frozen es
unfolding update_event
frozen-update_event id t message [] = refl
frozen-update_event id t message (e ∷ es) =
    λ i. frozen-as_processed (eqb e.id id) t message e i ∷ frozen-update_event id t message es i

put_channel-Kept : (c : Channel) → Keeps Kept (on_tables (put_channel c))
unfolding put_channel
put_channel-Kept c = record { at = λ w. record { events = refl } }

put_video-Kept : (v : Video) → Keeps Kept (on_tables (put_video v))
unfolding put_video
put_video-Kept v = record { at = λ w. record { events = ground arith } }

insert_update-Kept : (u : VideoUpdate) → Keeps Kept (on_tables (insert_update u))
unfolding insert_update
insert_update-Kept u = record { at = λ w. record { events = ground arith } }

select_video-Kept : (video_id : String) → Keeps Kept (on_tables (select_video video_id))
unfolding select_video
select_video-Kept video_id = record { at = λ w. record { events = ground arith } }

set_processed-Kept : (id : ℕ) (message : String) → Keeps Kept (on_tables (set_processed id message))
unfolding set_processed
set_processed-Kept id message = record {
  at = λ w. record {
    events = ground (arith, frozen-update_event id w.clock message w.db.webhook_events);
  };
}

end_transaction-Kept : Keeps Kept (remote end_transaction)
unfolding end_transaction
end_transaction-Kept =
    Keeps-remote Kept-IsSteady end_transaction (record { at = λ w. record { events = refl } })

mark-Kept : (id : ℕ) (message : String) → Keeps Kept (mark_event_processed id message)
unfolding mark_event_processed
mark-Kept id message = Keeps-statement _ _ Kept-IsSteady (set_processed-Kept id message)

found_or_absent-Kept : (before : String) (r : Result Video) → Keeps Kept (found_or_absent before r)
unfolding found_or_absent
found_or_absent-Kept before (ok v) = Keeps-pure Kept-IsSteady (some v)
found_or_absent-Kept before (err e) =
    Keeps-if Kept-IsSteady (is_not_found e) _ _ (λ q. Keeps-pure Kept-IsSteady none)
      (λ q. Keeps-fail Kept-IsSteady _)

existing_video-Kept : (before video_id : String) → Keeps Kept (existing_video before video_id)
unfolding existing_video get_video_by_id
existing_video-Kept before video_id =
    Keeps-bind Kept-IsSteady _ _
      (Keeps-attempt Kept-IsSteady _
        (Keeps-statement _ _ Kept-IsSteady (select_video-Kept video_id)))
      (found_or_absent-Kept before)

write_history-Kept :
    (event_id : ℕ) (o : Option Video) (d : VideoData) → Keeps Kept (write_history event_id o d)
unfolding write_history create_video_update
write_history-Kept event_id o d = Keeps-bind Kept-IsSteady _ _ (Keeps-now Kept-IsSteady) λ t.
    Keeps-bind Kept-IsSteady _ _
      (Keeps-context Kept-IsSteady _ _ (
        Keeps-statement _ _ Kept-IsSteady (
          insert_update-Kept (
            new_video_update t event_id d.video_id d.channel_id d.title d.published_at d.updated_at
              (determine_update_type o d)))))
      (λ a. Keeps-context Kept-IsSteady _ _ end_transaction-Kept)

write_video-Kept :
    (event_id : ℕ) (o : Option Video) (d : VideoData) → Keeps Kept (write_video event_id o d)
unfolding write_video upsert_video
write_video-Kept event_id o d = Keeps-bind Kept-IsSteady _ _ (Keeps-now Kept-IsSteady) λ t.
    Keeps-bind Kept-IsSteady _ _
      (Keeps-context Kept-IsSteady _ _ (Keeps-statement _ _ Kept-IsSteady (put_video-Kept _)))
      (λ a. write_history-Kept event_id o d)

write_channel-Kept :
    (event_id : ℕ) (o : Option Video) (d : VideoData) → Keeps Kept (write_channel event_id o d)
unfolding write_channel upsert_channel
write_channel-Kept event_id o d = Keeps-bind Kept-IsSteady _ _ (Keeps-now Kept-IsSteady) λ t.
    Keeps-bind Kept-IsSteady _ _
      (Keeps-context Kept-IsSteady _ _ (Keeps-statement _ _ Kept-IsSteady (put_channel-Kept _)))
      (λ a. write_video-Kept event_id o d)

projections-Kept : (event_id : ℕ) (d : VideoData) → Keeps Kept (projections event_id d)
unfolding projections
projections-Kept event_id d =
    Keeps-bind Kept-IsSteady _ _ (existing_video-Kept "get existing video" d.video_id)
      (λ o. write_channel-Kept event_id o d)

roll_back-Kept : (r : Result (Unit {0})) → Keeps Kept (roll_back r)
unfolding roll_back
roll_back-Kept (ok a) = record { at = λ w. record { events = refl } }
roll_back-Kept (err e) = record { at = λ w. end_transaction-Kept.at w }

or_rollback-Kept : (m : Action (Unit {0})) → Keeps Kept m → Keeps Kept (or_rollback m)
unfolding or_rollback
or_rollback-Kept m k = record {
  at = λ w. Kept-IsSteady.trans_at w (m w).1 _ (k.at w) ((roll_back-Kept (m w).0).at (m w).1);
}

process_projections-Kept :
    (event_id : ℕ) (d : VideoData) → Keeps Kept (process_projections event_id d)
unfolding process_projections
process_projections-Kept event_id d =
    Keeps-bind Kept-IsSteady _ _ (Keeps-context Kept-IsSteady _ _ end_transaction-Kept)
      (λ a. or_rollback-Kept _ (projections-Kept event_id d))

enqueue-Kept :
    (p : EventProcessor) (d : VideoData) (o : Option Video) → Keeps Kept (enqueue_new_video p d o)
unfolding enqueue_new_video
enqueue-Kept p d o =
    Keeps-if Kept-IsSteady _ _ _
      (λ q.
        Keeps-bind Kept-IsSteady _ _
          (Keeps-attempt Kept-IsSteady
            (enqueue_video_enrichment p.externals d.video_id d.channel_id 0)
            (record {
              at = λ w. record {
                events =
                    ap (map frozen)
                      ((enqueue_video_enrichment-AtMostOneTask p.externals d.video_id d.channel_id
                          0).at
                        w).records.events;
              };
            }))
          (λ r. Keeps-pure Kept-IsSteady tt))
      (λ q. Keeps-pure Kept-IsSteady tt)

finish_event-Kept :
    (p : EventProcessor) (d : VideoData) (o : Option Video) (r m : Result (Unit {0}))
    → Keeps Kept (finish_event p d o r m)
unfolding finish_event
finish_event-Kept p d o r (err e) = Keeps-fail Kept-IsSteady _
finish_event-Kept p d o (err e) (ok a) = Keeps-fail Kept-IsSteady _
finish_event-Kept p d o (ok b) (ok a) = enqueue-Kept p d o

conclude_event-Kept :
    (p : EventProcessor) (d : VideoData) (event_id : ℕ) (o : Option Video) (r : Result (Unit {0}))
    → Keeps Kept (conclude_event p d event_id o r)
unfolding conclude_event
conclude_event-Kept p d event_id o r =
    Keeps-bind Kept-IsSteady _ _ (Keeps-attempt Kept-IsSteady _ (mark-Kept event_id _))
      (finish_event-Kept p d o r)

process_stored_event-Kept :
    (p : EventProcessor) (d : VideoData) (e : WebhookEvent)
    → Keeps Kept (process_stored_event p d e)
unfolding process_stored_event
process_stored_event-Kept p d e =
    Keeps-bind Kept-IsSteady _ _ (existing_video-Kept "check if video exists" d.video_id) λ o.
      Keeps-bind Kept-IsSteady _ _ (Keeps-attempt Kept-IsSteady _ (process_projections-Kept e.id d))
        (conclude_event-Kept p d e.id o)

pub after_create-Kept :
    (p : EventProcessor) (d : VideoData) (r : Result WebhookEvent) → Keeps Kept (after_create p d r)
unfolding after_create
after_create-Kept p d (ok e) = process_stored_event-Kept p d e
after_create-Kept p d (err e) =
    Keeps-if Kept-IsSteady (is_duplicate_key e) _ _ (λ q. Keeps-pure Kept-IsSteady tt)
      (λ q. Keeps-fail Kept-IsSteady _)
