-- ===== src/Resolver.antt =====
-- internal/service/channel_resolver.go: ResolveChannelFromURL. Logging is left out; `hub` is what the hub
-- service is made of, `none` where there is no such service. A zero time.Time is 0.
pub mod Handler
pub mod Statuses
pub mod ChannelRows
pub mod Stored
use Prim.Native.String.{◌++◌ as ◌<>◌}
use youtube_webhook_ingestio.Base.{
  ℕ, ◌+◌, pos, String, Bool, true, false, Option, none, some, [], ◌∷◌, eqb, if◌then◌else◌, is_some,
}
use youtube_webhook_ingestio.Errors.{Error, wrapped}
use youtube_webhook_ingestio.Models.{Time, Channel, Subscription}
use youtube_webhook_ingestio.Models.Enrichment.{ChannelEnrichment}
use youtube_webhook_ingestio.World.Action.{
  Result, ok, err, Action, pure, attempt, context, now, ◌>>=◌,
}
use youtube_webhook_ingestio.PubSubHub.{Hub, SubscribeRequest, subscribe}
use youtube_webhook_ingestio.Repository.Videos.{get_channel_by_id}
use youtube_webhook_ingestio.Repository.Channels.{create_channel, update_channel_row}
use youtube_webhook_ingestio.Repository.ChannelEnrichments.{create_channel_enrichment}
use youtube_webhook_ingestio.Repository.Subscriptions.{create_subscription, update_subscription}
use youtube_webhook_ingestio.Subscriptions.{status_pending, status_active, status_failed}
use youtube_webhook_ingestio.YouTube.Client.{Client}
use youtube_webhook_ingestio.YouTube.Channels.{ChannelDetails}
use youtube_webhook_ingestio.YouTube.Url.{Urls, resolve_channel_by_url}
use youtube_webhook_ingestio.Queue.ChannelWorker.{channel_model}

-- ChannelResolverService
pub record ChannelResolverService : Type 0 where
  pub urls : Urls
  pub youtube_client : Client
  pub hub : Option Hub
  pub webhook_secret : String
  pub webhook_url : String

-- ResolveChannelFromURLResponse
pub record ResolveResponse : Type 0 where
  pub channel : Channel
  pub subscription : Option Subscription
  pub enrichment : ChannelEnrichment
  pub was_existing : Bool

-- mapYouTubeEnrichmentToModel: that of the queue, but for a time of publication that is zero
abbrev pub map_enrichment : Time → ChannelDetails → ChannelEnrichment
map_enrichment time yt = record (channel_model time yt) {
  published_at = if eqb yt.published_at 0 then none else some yt.published_at;
}

-- `subscription` of createSubscription
abbrev pub pending_subscription : Time → String → Subscription
pending_subscription time channel_id = record {
  id = 0;
  channel_id = channel_id;
  topic_url = "https://www.youtube.com/xml/feeds/videos.xml?channel_id=" <> channel_id;
  hub_url = "https://pubsubhubbub.appspot.com/subscribe";
  lease_seconds = pos 432000;
  expires_at = time + 432000;
  status = status_pending;
  last_verified_at = none;
  created_at = 0;
  updated_at = 0;
}

-- `subReq`
abbrev pub resolver_request : ChannelResolverService → Subscription → SubscribeRequest
resolver_request s sub = record {
  hub_url = sub.hub_url;
  topic_url = sub.topic_url;
  callback_url = s.webhook_url;
  lease_seconds = sub.lease_seconds;
  secret = some s.webhook_secret;
}

-- A result that is written through a pointer: an error leaves what was there.
abbrev pub or_as_it_was : {A : Type 0} → A → Result A → A
or_as_it_was a (ok b) = b
or_as_it_was a (err e) = a

-- `_ = s.subscriptionRepo.Update(ctx, subscription)`
unfoldable pub save_status : Subscription → Action Subscription
unfolding ◌>>=◌ pure
save_status sub = do saved ← attempt (update_subscription sub); pure (or_as_it_was sub saved)

-- What follows the call of Subscribe. The error of a refusal is only logged by the caller, which keeps the
-- subscription.
unfoldable pub after_hub_answer : Subscription → Option Error → Action Subscription
unfolding ◌>>=◌
after_hub_answer sub (some e) = save_status (record sub { status = status_failed })
after_hub_answer sub none = do
  time ← now
  save_status (record sub { status = status_active; last_verified_at = some time })

unfoldable pub subscribe_if_configured :
    ChannelResolverService → Option Hub → Subscription → Action Subscription
unfolding pure
subscribe_if_configured s none sub = pure sub
subscribe_if_configured s (some hub) sub =
    after_hub_answer sub (subscribe hub (some (resolver_request s sub))).error

-- createSubscription
unfoldable pub create_hub_subscription : ChannelResolverService → String → Action Subscription
unfolding ◌>>=◌
create_hub_subscription s channel_id = do
  time ← now
  sub ←
      context "failed to create subscription in database"
        (create_subscription (pending_subscription time channel_id))
  subscribe_if_configured s s.hub sub

abbrev pub value_or_none : {A : Type 0} → Result A → Option A
value_or_none (ok a) = some a
value_or_none (err e) = none

-- `channel`, before it is stored
abbrev pub channel_of_details : Time → ChannelDetails → Channel
channel_of_details time yt = record {
  channel_id = yt.channel_id;
  title = yt.title;
  channel_url = "https://www.youtube.com/channel/" <> yt.channel_id;
  first_seen_at = yt.published_at;
  last_updated_at = time;
  created_at = 0;
  updated_at = 0;
}

unfoldable pub put_channel_row : Option Channel → Channel → Action Channel
unfolding context
put_channel_row none channel = context "failed to create channel" (create_channel channel)
put_channel_row (some existing) channel =
    context "failed to update channel"
      (update_channel_row (record channel { created_at = existing.created_at }))

-- The steps that follow the storing of the channel; their errors are logged.
unfoldable pub complete_channel :
    ChannelResolverService → ChannelDetails → Bool → Channel → Action ResolveResponse
unfolding ◌>>=◌ pure
complete_channel s yt was_existing channel = do
  time ← now
  stored ← attempt (create_channel_enrichment (map_enrichment time yt))
  subscription ← attempt (create_hub_subscription s yt.channel_id)
  pure (record {
    channel = channel;
    subscription = value_or_none subscription;
    enrichment = or_as_it_was (map_enrichment time yt) stored;
    was_existing = was_existing;
  })

unfoldable pub store_resolved : ChannelResolverService → ChannelDetails → Action ResolveResponse
unfolding ◌>>=◌
store_resolved s yt = do
  found ← attempt (get_channel_by_id yt.channel_id)
  time ← now
  channel ← put_channel_row (value_or_none found) (channel_of_details time yt)
  complete_channel s yt (is_some (value_or_none found)) channel

-- ResolveChannelFromURL
unfoldable pub resolve_channel_from_url : ChannelResolverService → String → Action ResolveResponse
unfolding ◌>>=◌
resolve_channel_from_url s url =
    context "failed to resolve channel from YouTube"
      (resolve_channel_by_url s.urls s.youtube_client url)
    >>= store_resolved s
