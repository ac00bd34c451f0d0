-- ===== src/Processor/EventStore.antt =====
-- The event store under ProcessEvent: what the processing of a notification may do to the rows of
-- webhook_events, whether it succeeds or fails, and whatever the environment does on the way.
use youtube_webhook_ingestio.Base.{
  String, ◌≡◌, refl, ap, arith, ◌∙◌, ◌⊎◌, inl, inr, Bool, true, false, none, List, [], ◌∷◌, ◌++◌,
  map, if◌then◌else◌, is_some, Bool-cases,
}
use youtube_webhook_ingestio.Models.{WebhookEvent}
use youtube_webhook_ingestio.Models.New.{new_webhook_event}
use youtube_webhook_ingestio.Table.{find}
use youtube_webhook_ingestio.World.{World, Fault, served, refused, lost}
use youtube_webhook_ingestio.World.Action.{
  Result, ok, err, pure, lift, attempt, context, remote, now, answer, next_fault, later_faults,
  ◌>>=◌,
}
use youtube_webhook_ingestio.World.Keeps.{Keeps, Keeps-pure, Keeps-then}
use youtube_webhook_ingestio.Repository.Statement.{statement, on_tables}
use youtube_webhook_ingestio.Repository.WebhookEvents.{by_hash, insert_event, create_webhook_event}
use youtube_webhook_ingestio.Parser.{VideoData, parse_atom_feed}
use youtube_webhook_ingestio.Processor.{
  EventProcessor, after_create, process_video, process_deleted, process_event,
}
use youtube_webhook_ingestio.Processor.Kept.{
  frozen, stored_events, Kept, Kept-IsSteady, after_create-Kept,
}

-- The rows are the same, or one more has come behind them: the notification's, whose hash no row had.
pub record Appended (hash raw_xml : String) (w w' : World) : Type 0 where
  pub rows :
      (stored_events w' ≡ stored_events w)
      ⊎ ((e : WebhookEvent) × (stored_events w' ≡ stored_events w ++ frozen e ∷ [])
          × (e.raw_xml ≡ raw_xml)
          × (e.content_hash ≡ hash)
          × (find by_hash hash w.db.webhook_events ≡ none))

map-snoc :
    (es : List WebhookEvent) (e : WebhookEvent)
    → map frozen (es ++ e ∷ []) ≡ map frozen es ++ frozen e ∷ []
map-snoc [] e = refl
map-snoc (x ∷ xs) e = ap (◌∷◌ (frozen x)) (map-snoc xs e)

insert_event-Appended :
    (row : WebhookEvent)
    → Keeps (Appended row.content_hash row.raw_xml) (on_tables (insert_event row))
unfolding insert_event
insert_event-Appended row = record {
  at = λ w. elim (Bool-cases (is_some (find by_hash row.content_hash w.db.webhook_events))) [
    | inl q ↦ record { rows = inl (ground arith) }
    | inr q ↦ record {
      rows = inr (
        record row { id = w.db.next_event_id },
        simp q (map-snoc w.db.webhook_events (record row { id = w.db.next_event_id })),
        refl,
        refl,
        ground arith,
      );
    }
  ];
}

answer-Appended :
    (f : Fault) (row : WebhookEvent) (w : World)
    → Appended row.content_hash row.raw_xml w (answer f (on_tables (insert_event row)) w).1
unfolding answer
answer-Appended served row w = (insert_event-Appended row).at w
answer-Appended (refused t) row w = record { rows = inl refl }
answer-Appended (lost t) row w = (insert_event-Appended row).at w

create-Appended :
    (content_hash : String → String) (raw_xml video_id channel_id : String)
    → Keeps
        (Appended (content_hash raw_xml) raw_xml)
        (create_webhook_event content_hash raw_xml video_id channel_id)
unfolding create_webhook_event statement remote now ◌>>=◌
create-Appended content_hash raw_xml video_id channel_id = record {
  at = λ w.
      let v : World = (now w).1 in
      let a =
        answer-Appended (next_fault w.faults)
          (new_webhook_event v.clock raw_xml (content_hash raw_xml) video_id channel_id)
          (record v { faults = later_faults w.faults }) in
      record { rows = a.rows };
}

Appended-then :
    (hash raw_xml : String) (w v w' : World)
    → Appended hash raw_xml w v
    → Kept v w'
    → Appended hash raw_xml w w'
Appended-then hash raw_xml w v w' a k = record {
  rows = elim a.rows [
    | inl e ↦ inl (k.events ∙ e)
    | inr (e, q, r, h, f) ↦ inr (e, k.events ∙ q, r, h, f)
  ];
}

process_video-Appended :
    (p : EventProcessor) (raw_xml : String) (d : VideoData)
    → Keeps (Appended (p.externals.content_hash raw_xml) raw_xml) (process_video p raw_xml d)
unfolding process_video attempt
process_video-Appended p raw_xml d = record {
  at = λ w.
      let m = create_webhook_event p.externals.content_hash raw_xml d.video_id d.channel_id in
      let (v, a, k) =
        (Keeps-then {R = Appended (p.externals.content_hash raw_xml) raw_xml} {S = Kept} (attempt m)
            (after_create p d)
            (record {
              at = (create-Appended p.externals.content_hash raw_xml d.video_id d.channel_id).at;
            })
            (after_create-Kept p d) Kept-IsSteady.refl_at).at
          w in
      Appended-then _ _ w v _ a k;
}

process_deleted-Appended :
    (p : EventProcessor) (raw_xml : String)
    → Keeps (Appended (p.externals.content_hash raw_xml) raw_xml) (process_deleted p raw_xml)
unfolding process_deleted context
process_deleted-Appended p raw_xml = record {
  at = λ w.
      let m = create_webhook_event p.externals.content_hash raw_xml "" "" in
      let (v, a, k) =
        (Keeps-then {R = Appended (p.externals.content_hash raw_xml) raw_xml} {S = Kept}
            (context "create webhook event for deleted video" m) (λ e. pure tt)
            (record { at = (create-Appended p.externals.content_hash raw_xml "" "").at })
            (λ e. Keeps-pure Kept-IsSteady tt) Kept-IsSteady.refl_at).at
          w in
      Appended-then _ _ w v _ a k;
}

by_kind :
    (p : EventProcessor) (raw_xml : String) (d : VideoData) (b : Bool)
    → Keeps
        (Appended (p.externals.content_hash raw_xml) raw_xml)
        (if b then process_deleted p raw_xml else process_video p raw_xml d)
by_kind p raw_xml d true = process_deleted-Appended p raw_xml
by_kind p raw_xml d false = process_video-Appended p raw_xml d

parsed-Appended :
    (p : EventProcessor) (raw_xml : String) (r : Result VideoData)
    → Keeps (Appended (p.externals.content_hash raw_xml) raw_xml) (
        context "parse atom feed" (lift r) >>= λ d.
        if d.is_deleted then process_deleted p raw_xml else process_video p raw_xml d)
unfolding context lift ◌>>=◌
parsed-Appended p raw_xml (ok d) = record { at = λ w. (by_kind p raw_xml d d.is_deleted).at w }
parsed-Appended p raw_xml (err e) = record { at = λ w. record { rows = inl refl } }

-- Whether ProcessEvent succeeds or fails, and whatever calls the environment refuses or loses the
-- answers of, the rows of webhook_events keep their number, order, ids, texts, hashes, times of
-- receipt, video and channel ids, but for one row that may come behind them: it has the text of
-- this notification and its hash, which no row had before.
pub process_event-Appended :
    (p : EventProcessor) (raw_xml : String) (w : World)
    → Appended (p.externals.content_hash raw_xml) raw_xml w (process_event p raw_xml w).1
unfolding process_event
process_event-Appended p raw_xml w =
    (parsed-Appended p raw_xml (parse_atom_feed p.externals.unmarshal raw_xml)).at w
