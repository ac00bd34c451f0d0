-- ===== src/Processor/Cases.antt =====
-- ProcessEvent by what the parser makes of the notification.
use youtube_webhook_ingestio.Base.{String, ◌≡◌, refl, true, false}
use youtube_webhook_ingestio.Errors.{Error, wrapped}
use youtube_webhook_ingestio.World.{World}
use youtube_webhook_ingestio.World.Action.{ok, err, context, lift, ◌>>=◌}
use youtube_webhook_ingestio.Parser.{VideoData, parse_atom_feed}
use youtube_webhook_ingestio.Processor.{
  EventProcessor, process_video, process_deleted, process_event,
}

pub process_event-of_video :
    (p : EventProcessor) (raw_xml : String) (d : VideoData) (w : World)
    → parse_atom_feed p.externals.unmarshal raw_xml ≡ ok d
    → d.is_deleted ≡ false
    → process_event p raw_xml w ≡ process_video p raw_xml d w
unfolding process_event context lift ◌>>=◌
process_event-of_video p raw_xml d w q n = simp (q, n) refl

pub process_event-of_deleted :
    (p : EventProcessor) (raw_xml : String) (d : VideoData) (w : World)
    → parse_atom_feed p.externals.unmarshal raw_xml ≡ ok d
    → d.is_deleted ≡ true
    → process_event p raw_xml w ≡ process_deleted p raw_xml w
unfolding process_event context lift ◌>>=◌
process_event-of_deleted p raw_xml d w q n = simp (q, n) refl

pub process_event-of_unparsed :
    (p : EventProcessor) (raw_xml : String) (e : Error) (w : World)
    → parse_atom_feed p.externals.unmarshal raw_xml ≡ err e
    → process_event p raw_xml w ≡ (err (wrapped "parse atom feed: " e ""), w)
unfolding process_event context lift ◌>>=◌
process_event-of_unparsed p raw_xml e w q = simp q refl
