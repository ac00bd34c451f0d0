-- ===== src/Tests/Resolver.antt =====
-- Runs of the channel resolver.
use youtube_webhook_ingestio.Base.{String, none, some, false, ◌≡◌, refl}
use youtube_webhook_ingestio.World.{World, calm}
use youtube_webhook_ingestio.World.Action.{ok}
use youtube_webhook_ingestio.YouTube.Channels.{ChannelDetails}
use youtube_webhook_ingestio.YouTube.Url.{resolve_channel_by_url}
use youtube_webhook_ingestio.Resolver.{
  ChannelResolverService, ResolveResponse, resolve_channel_from_url, map_enrichment,
  channel_of_details, pending_subscription,
}
use youtube_webhook_ingestio.Resolver.Handler.{ChannelFromUrlHandler, create_from_url}
use youtube_webhook_ingestio.Resolver.Statuses.{has_resolved, create_from_url-status}
use youtube_webhook_ingestio.Resolver.Stored.{Resolved, resolve_channel_from_url-Resolved}
use youtube_webhook_ingestio.Tests.Enrichment.{api, urls, manager, queued, resolved}
use youtube_webhook_ingestio.YouTube.Url.{
  parse_youtube_url, identify_url, contains, identify, first_segment, resolve_identifier,
}
use youtube_webhook_ingestio.Base.Text.{has_prefix, cut_prefix, trim_prefix}
use youtube_webhook_ingestio.Base.Decimal.{cut}
use youtube_webhook_ingestio.YouTube.Channels.{
  resolve_channel_by_handle, search_by_handle, details_at_cost, get_channel_details,
}
use youtube_webhook_ingestio.YouTube.Client.{track_quota, track_with}
use youtube_webhook_ingestio.Quota.{record_quota_usage}
use youtube_webhook_ingestio.Repository.Quota.{increment_quota, get_todays_quota}
use youtube_webhook_ingestio.World.Action.{context, attempt, lift, pure, remote, now, ◌>>=◌}
use youtube_webhook_ingestio.Repository.Statement.{statement}
use youtube_webhook_ingestio.Resolver.{
  store_resolved, put_channel_row, complete_channel, create_hub_subscription,
  subscribe_if_configured,
}
use youtube_webhook_ingestio.Repository.Videos.{get_channel_by_id}
use youtube_webhook_ingestio.Table.{find}
use youtube_webhook_ingestio.Repository.Channels.{create_channel, insert_channel}
use youtube_webhook_ingestio.Repository.ChannelEnrichments.{
  create_channel_enrichment, insert_channel_enrichment,
}
use youtube_webhook_ingestio.Repository.Subscriptions.{
  create_subscription, insert_subscription, find_subscription,
}
use youtube_webhook_ingestio.Queue.ChannelWorker.{channel_model}

abbrev service : ChannelResolverService
service = record {
  urls = urls;
  youtube_client = record { api = api; quota_tracker = some manager };
  hub = none;
  webhook_secret = "secret";
  webhook_url = "https://example.com/webhook";
}

abbrev handler : ChannelFromUrlHandler
handler = record {
  service = service;
  json = record {
    resolved = λ r message. message;
    error = λ error message. error;
    error_of_url = λ error message url text. message;
  };
}

create_from_url-status_example :
    (create_from_url handler (ok "https://example.com/") queued).0.status
    ≡ has_resolved (resolve_channel_from_url service "https://example.com/" queued).0
create_from_url-status_example = create_from_url-status handler "https://example.com/" queued refl

abbrev page : String
page = "https://www.youtube.com/@RickAstleyYT"

abbrev after : World
after = (resolve_channel_from_url service page (calm queued)).1

abbrev response : ResolveResponse
response = record {
  channel = channel_of_details 203 resolved;
  subscription = some (record (pending_subscription 205 resolved.channel_id) { id = 1 });
  enrichment = record (map_enrichment 205 resolved) { id = 1; created_at = 205; updated_at = 205 };
  was_existing = false;
}

resolve_channel_from_url-Resolved_example :
    (yt : ChannelDetails) × (v : World) × (resolve_channel_by_url urls service.youtube_client page
        (calm queued)
      ≡ (ok yt, v))
    × Resolved yt response after
unfolding resolve_channel_by_url parse_youtube_url identify_url contains identify first_segment
    resolve_identifier has_prefix cut_prefix trim_prefix cut resolve_channel_by_handle
    search_by_handle details_at_cost get_channel_details track_quota track_with record_quota_usage
    increment_quota get_todays_quota context attempt lift pure remote now ◌>>=◌ statement
    resolve_channel_from_url store_resolved put_channel_row complete_channel create_hub_subscription
    subscribe_if_configured get_channel_by_id find create_channel insert_channel
    create_channel_enrichment insert_channel_enrichment create_subscription insert_subscription
    find_subscription channel_model
resolve_channel_from_url-Resolved_example =
    resolve_channel_from_url-Resolved service page (calm queued) after response refl
