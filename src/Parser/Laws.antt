-- ===== src/Parser/Laws.antt =====
-- What ParseAtomFeed accepts, and what it makes of it.
use youtube_webhook_ingestio.Base.{
  String, ◌≡◌, ◌≢◌, refl, arith, false, Option, none, some, eq_iff, inl, inr, ◌⊎◌, ◌↔◌,
}
use youtube_webhook_ingestio.World.Action.{Result, ok, err}
use youtube_webhook_ingestio.Parser.{
  AtomEntry, AtomFeed, DeletedEntry, VideoData, deleted_data, video_url, entry_data, feed_data,
  unmarshalled_data, parse_atom_feed,
}

-- The fields that a video needs.
pub record IsComplete (e : AtomEntry) : Type 0 where
  pub has_video_id : e.video_id ≢ ""
  pub has_channel_id : e.channel_id ≢ ""
  pub has_title : e.title ≢ ""

-- What the feed says of a video.
abbrev pub data_of : AtomEntry → VideoData
data_of e = record {
  video_id = e.video_id;
  channel_id = e.channel_id;
  title = e.title;
  video_url = video_url e;
  published_at = e.published;
  updated_at = e.updated;
  is_deleted = false;
}

-- The notices that the parser accepts, and their data: a deletion goes before an entry.
abbrev pub Describes : Option DeletedEntry → Option AtomEntry → VideoData → Type 0
Describes deleted entry d =
    ((deleted ≢ none) × (d ≡ deleted_data))
    ⊎ ((deleted ≡ none) × ((e : AtomEntry) × (entry ≡ some e) × IsComplete e × (d ≡ data_of e)))

entry_data_complete : (e : AtomEntry) → IsComplete e → entry_data e ≡ ok (data_of e)
unfolding entry_data
entry_data_complete e c = ground (
  arith,
  eq_iff e.video_id "",
  eq_iff e.channel_id "",
  eq_iff e.title "",
  c.has_video_id,
  c.has_channel_id,
  c.has_title,
)

IsComplete-of_entry_data :
    (e : AtomEntry) {d : VideoData} → entry_data e ≡ ok d → IsComplete e × (d ≡ data_of e)
unfolding entry_data
IsComplete-of_entry_data e h = (
  record {
    has_video_id = λ p. ground (arith, eq_iff e.video_id "");
    has_channel_id = λ p. ground (arith, eq_iff e.channel_id "");
    has_title = λ p. ground (arith, eq_iff e.title "");
  },
  ground arith,
)

feed_data_sound :
    (deleted : Option DeletedEntry) (entry : Option AtomEntry) (d : VideoData)
    → feed_data deleted entry ≡ ok d
    → Describes deleted entry d
unfolding feed_data
feed_data_sound (some x) entry d h = inl (cc, ground arith)
feed_data_sound none none d h = cc
feed_data_sound none (some e) d h =
    let (c, q) = IsComplete-of_entry_data e {d = d} h in inr (refl, (e, refl, c, q))

feed_data_complete :
    (deleted : Option DeletedEntry) (entry : Option AtomEntry) (d : VideoData)
    → Describes deleted entry d
    → feed_data deleted entry ≡ ok d
unfolding feed_data
feed_data_complete (some x) entry d (inl (_, q)) = cc
feed_data_complete none entry d (inl (n, q)) = absurd (n refl)
feed_data_complete (some x) entry d (inr (n, r)) = cc
feed_data_complete none none d (inr (n, (e, p, c, q))) = cc
feed_data_complete none (some x) d (inr (n, (e, p, c, q))) = cc (entry_data_complete e c)

unmarshalled_data_sound :
    (r : Result AtomFeed) (d : VideoData)
    → unmarshalled_data r ≡ ok d
    → (feed : AtomFeed) × (r ≡ ok feed) × Describes feed.deleted feed.entry d
unfolding unmarshalled_data
unmarshalled_data_sound (err e) d h = cc
unmarshalled_data_sound (ok feed) d h = (feed, refl, feed_data_sound feed.deleted feed.entry d h)

-- ParseAtomFeed returns data exactly when the text is well-formed and is either a deletion notice,
-- whatever else it holds, or has an entry with a video ID, a channel ID and a title; the data are
-- then empty and marked as deleted, or the entry's fields.
pub parse_atom_feed_iff :
    (unmarshal : String → Result AtomFeed) (raw_xml : String) (d : VideoData)
    → (parse_atom_feed unmarshal raw_xml ≡ ok d)
      ↔ ((feed : AtomFeed) × (unmarshal raw_xml ≡ ok feed) × Describes feed.deleted feed.entry d)
unfolding parse_atom_feed
parse_atom_feed_iff unmarshal raw_xml d = (
  unmarshalled_data_sound (unmarshal raw_xml) d,
  λ (feed, p, r). rw (p, unmarshalled_data) (feed_data_complete feed.deleted feed.entry d r),
)
