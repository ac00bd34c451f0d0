-- ===== src/YouTube/Channels.antt =====
-- internal/service/youtube/client.go: the details of a channel and the look-ups that find it.
use Prim.Native.String.{◌++◌ as ◌<>◌}
use youtube_webhook_ingestio.Base.{
  ℕ, ℤ, pos, String, Option, none, some, List, [], ◌∷◌, ◌==◌, if◌then◌else◌,
}
use youtube_webhook_ingestio.Base.Text.{trim_prefix}
use youtube_webhook_ingestio.Base.Int64.{from_bits}
use youtube_webhook_ingestio.Errors.{plain}
use youtube_webhook_ingestio.Models.{Time}
use youtube_webhook_ingestio.World.Action.{
  Result, ok, err, Action, pure, lift, context, ◌>>=◌, ◌>>◌,
}
use youtube_webhook_ingestio.YouTube.Api.{
  Thumbnail, Thumbnails, ChannelSnippet, ChannelStatistics, Branding, ApiChannel,
}
use youtube_webhook_ingestio.YouTube.Client.{Client, track_quota}

-- ChannelEnrichment of client.go
pub record ChannelDetails : Type 0 where
  pub channel_id : String
  pub title : String
  pub description : String
  pub custom_url : String
  pub published_at : Time
  pub country : String
  pub view_count : ℤ
  pub subscriber_count : ℤ
  pub video_count : ℤ
  pub thumbnail_default_url : String
  pub thumbnail_medium_url : String
  pub thumbnail_high_url : String
  pub banner_image_url : String
  pub keywords : String
  pub api_response_etag : String
  pub quota_cost : ℕ

abbrev thumbnail_url : Option Thumbnail → String
thumbnail_url none = ""
thumbnail_url (some t) = t.url

abbrev with_channel_thumbnails : Option Thumbnails → ChannelDetails → ChannelDetails
with_channel_thumbnails none e = e
with_channel_thumbnails (some t) e = record e {
  thumbnail_default_url = thumbnail_url t.default_size;
  thumbnail_medium_url = thumbnail_url t.medium_size;
  thumbnail_high_url = thumbnail_url t.high_size;
}

-- the zero time where there is no time
abbrev time_or_zero : Option Time → Time
time_or_zero none = 0
time_or_zero (some t) = t

abbrev with_channel_snippet :
    (String → Option Time) → Option ChannelSnippet → ChannelDetails → ChannelDetails
with_channel_snippet parse_time none e = e
with_channel_snippet parse_time (some s) e = with_channel_thumbnails s.thumbnails (record e {
  title = s.title;
  description = s.description;
  custom_url = s.custom_url;
  country = s.country;
  published_at = if s.published_at == "" then 0 else time_or_zero (parse_time s.published_at);
})

abbrev with_channel_statistics : Option ChannelStatistics → ChannelDetails → ChannelDetails
with_channel_statistics none e = e
with_channel_statistics (some s) e = record e {
  view_count = from_bits s.view_count;
  subscriber_count = from_bits s.subscriber_count;
  video_count = from_bits s.video_count;
}

abbrev text_or_empty : Option String → String
text_or_empty none = ""
text_or_empty (some t) = t

abbrev with_branding : Option Branding → ChannelDetails → ChannelDetails
with_branding none e = e
with_branding (some b) e = record e {
  keywords = text_or_empty b.channel_keywords;
  banner_image_url = text_or_empty b.image_banner_url;
}

abbrev pub map_channel : (String → Option Time) → String → ApiChannel → ChannelDetails
map_channel parse_time etag channel = with_branding channel.branding (
    with_channel_statistics channel.statistics (
      with_channel_snippet parse_time channel.snippet (record {
        channel_id = channel.id;
        title = "";
        description = "";
        custom_url = "";
        published_at = 0;
        country = "";
        view_count = pos 0;
        subscriber_count = pos 0;
        video_count = pos 0;
        thumbnail_default_url = "";
        thumbnail_medium_url = "";
        thumbnail_high_url = "";
        banner_image_url = "";
        keywords = "";
        api_response_etag = etag;
        quota_cost = 1;
      })))

abbrev pub details_of_items :
    (String → Option Time) → String → String → List ApiChannel → Result ChannelDetails
details_of_items parse_time channel_id etag [] = err (plain ("channel not found: " <> channel_id))
details_of_items parse_time channel_id etag (channel ∷ rest) =
    ok (map_channel parse_time etag channel)

-- GetChannelDetails
unfoldable pub get_channel_details : Client → String → Action ChannelDetails
unfolding ◌>>=◌ lift
get_channel_details c channel_id = do
  response ←
      context "failed to fetch channel from YouTube API" (lift (c.api.channels_by_id channel_id))
  track_quota c 1 "channels_list"
  lift (details_of_items c.api.parse_time channel_id response.etag response.items)

abbrev pub first_channel : String → List ApiChannel → Result String
first_channel not_found [] = err (plain not_found)
first_channel not_found (channel ∷ rest) = ok channel.id

-- The last steps of the resolve functions: the details of the channel found, with the cost of both calls.
unfoldable pub details_at_cost : Client → String → ℕ → Action ChannelDetails
unfolding ◌>>=◌ pure
details_at_cost c channel_id cost = do
  e ← get_channel_details c channel_id
  pure (record e { quota_cost = cost })

unfoldable pub search_by_handle : Client → String → Action ChannelDetails
unfolding ◌>>=◌ lift
search_by_handle c handle = do
  response ←
      context ("failed to search channel by handle '@" <> handle <> "'")
        (lift (c.api.channels_by_handle handle))
  track_quota c 1 "channels_list"
  id ← lift (first_channel ("channel not found for handle: @" <> handle) response.items)
  details_at_cost c id 2

-- resolveChannelByHandle
unfoldable pub resolve_channel_by_handle : Client → String → Action ChannelDetails
resolve_channel_by_handle c handle = search_by_handle c (trim_prefix handle "@")

-- resolveChannelByUsername
unfoldable pub resolve_channel_by_username : Client → String → Action ChannelDetails
unfolding ◌>>=◌ lift
resolve_channel_by_username c username = do
  response ←
      context ("failed to search channel by username '" <> username <> "'")
        (lift (c.api.channels_by_username username))
  track_quota c 1 "channels_list"
  id ← lift (first_channel ("channel not found for username: " <> username) response.items)
  details_at_cost c id 2

abbrev pub first_found : String → List String → Result String
first_found custom_url [] = err (plain ("channel not found for custom URL: " <> custom_url))
first_found custom_url (id ∷ rest) =
    if id == "" then err (plain "search result did not contain a channel ID") else ok id

-- resolveChannelByCustomURL
unfoldable pub resolve_channel_by_custom_url : Client → String → Action ChannelDetails
unfolding ◌>>=◌ lift
resolve_channel_by_custom_url c custom_url = do
  found ←
      context ("failed to search channel by custom URL '" <> custom_url <> "'")
        (lift (c.api.search_channels custom_url))
  track_quota c 100 "search_list"
  id ← lift (first_found custom_url found)
  details_at_cost c id 101
