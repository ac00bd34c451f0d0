-- ===== src/Parser.antt =====
-- internal/parser/atom.go: a notification as the event processor sees it. xml.Unmarshal is the
-- parameter `unmarshal`: it fills the source's structures from the text of the request.
pub mod Laws
use Prim.Native.String.{◌++◌ as ◌<>◌}
use youtube_webhook_ingestio.Base.{
  String, Bool, true, false, Option, none, some, ◌==◌, if◌then◌else◌,
}
use youtube_webhook_ingestio.Errors.{plain, wrapped}
use youtube_webhook_ingestio.Models.{Time}
use youtube_webhook_ingestio.World.Action.{Result, ok, err}

pub record AtomLink : Type 0 where
  pub rel : String
  pub href : String

pub record AtomEntry : Type 0 where
  pub video_id : String
  pub channel_id : String
  pub title : String
  pub link : AtomLink
  pub published : Time
  pub updated : Time

pub record DeletedEntry : Type 0 where
  pub ref : String
  pub when : Time

pub record AtomFeed : Type 0 where
  pub entry : Option AtomEntry
  pub deleted : Option DeletedEntry

pub record VideoData : Type 0 where
  pub video_id : String
  pub channel_id : String
  pub title : String
  pub video_url : String
  pub published_at : Time
  pub updated_at : Time
  pub is_deleted : Bool

-- The zero value of time.Time is 0.
abbrev pub deleted_data : VideoData
deleted_data = record {
  video_id = "";
  channel_id = "";
  title = "";
  video_url = "";
  published_at = 0;
  updated_at = 0;
  is_deleted = true;
}

unfoldable pub video_url : AtomEntry → String
video_url e =
    if e.link.href == "" then "https://www.youtube.com/watch?v=" <> e.video_id else e.link.href

unfoldable pub entry_data : AtomEntry → Result VideoData
unfolding video_url
entry_data e =
    if e.video_id == ""
    then err (plain "atom entry missing video ID")
    else if e.channel_id == ""
    then err (plain "atom entry missing channel ID")
    else if e.title == ""
    then err (plain "atom entry missing title")
    else ok (record {
      video_id = e.video_id;
      channel_id = e.channel_id;
      title = e.title;
      video_url = video_url e;
      published_at = e.published;
      updated_at = e.updated;
      is_deleted = false;
    })

unfoldable pub feed_data : Option DeletedEntry → Option AtomEntry → Result VideoData
unfolding entry_data
feed_data (some d) entry = ok deleted_data
feed_data none none = err (plain "atom feed missing entry element")
feed_data none (some e) = entry_data e

unfoldable pub unmarshalled_data : Result AtomFeed → Result VideoData
unfolding feed_data
unmarshalled_data (err e) = err (wrapped "unmarshal atom feed: " e "")
unmarshalled_data (ok feed) = feed_data feed.deleted feed.entry

-- ParseAtomFeed
unfoldable pub parse_atom_feed : (String → Result AtomFeed) → String → Result VideoData
unfolding unmarshalled_data
parse_atom_feed unmarshal raw_xml = unmarshalled_data (unmarshal raw_xml)
