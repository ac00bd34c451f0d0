-- ===== src/Resolver/ChannelRows.antt =====
-- The steps of ResolveChannelFromURL that leave the table of the channels alone.
use youtube_webhook_ingestio.Base.{String, Bool, Option, none, some, ◌≡◌, refl, sym, ◌∙◌, arith}
use youtube_webhook_ingestio.Models.{Channel, Subscription}
use youtube_webhook_ingestio.Models.Enrichment.{ChannelEnrichment}
use youtube_webhook_ingestio.World.{World}
use youtube_webhook_ingestio.World.Keeps.{
  IsSteady, Keeps, Keeps-bind, Keeps-attempt, Keeps-pure, Keeps-now, Keeps-context,
}
use youtube_webhook_ingestio.Queue.Client.Effects.{Keeps-statement}
use youtube_webhook_ingestio.Repository.ChannelEnrichments.{
  insert_channel_enrichment, create_channel_enrichment,
}
use youtube_webhook_ingestio.Repository.Subscriptions.{
  insert_subscription, change_subscription, create_subscription, update_subscription,
}
use youtube_webhook_ingestio.PubSubHub.{Hub, subscribe}
use youtube_webhook_ingestio.YouTube.Channels.{ChannelDetails}
use youtube_webhook_ingestio.Resolver.{
  ChannelResolverService, complete_channel, resolver_request, create_hub_subscription,
  subscribe_if_configured, after_hub_answer, save_status,
}

pub record SameChannels (w w' : World) : Type 0 where
  pub rows : w'.db.channels ≡ w.db.channels

SameChannels-IsSteady : IsSteady SameChannels
SameChannels-IsSteady = record {
  refl_at = λ w. record { rows = refl };
  trans_at = λ u v w p q. record { rows = q.rows ∙ p.rows };
  environment = λ w v d b t. record { rows = λ i. (sym d i).channels };
}

create_channel_enrichment-SameChannels :
    (e : ChannelEnrichment) → Keeps SameChannels (create_channel_enrichment e)
unfolding create_channel_enrichment insert_channel_enrichment
create_channel_enrichment-SameChannels e =
    Keeps-bind SameChannels-IsSteady _ _ (Keeps-now SameChannels-IsSteady) λ time.
      Keeps-statement "create channel enrichment" _ SameChannels-IsSteady
        (record { at = λ w. record { rows = ground arith } })

create_subscription-SameChannels :
    (sub : Subscription) → Keeps SameChannels (create_subscription sub)
unfolding create_subscription insert_subscription
create_subscription-SameChannels sub =
    Keeps-statement "create subscription" _ SameChannels-IsSteady
      (record { at = λ w. record { rows = ground arith } })

update_subscription-SameChannels :
    (sub : Subscription) → Keeps SameChannels (update_subscription sub)
unfolding update_subscription change_subscription
update_subscription-SameChannels sub =
    Keeps-statement "update subscription" _ SameChannels-IsSteady
      (record { at = λ w. record { rows = ground arith } })

save_status-SameChannels : (sub : Subscription) → Keeps SameChannels (save_status sub)
unfolding save_status
save_status-SameChannels sub =
    Keeps-bind SameChannels-IsSteady _ _
      (Keeps-attempt SameChannels-IsSteady _ (update_subscription-SameChannels sub))
      λ saved. Keeps-pure SameChannels-IsSteady _

subscribe_if_configured-SameChannels :
    (s : ChannelResolverService) (hub : Option Hub) (sub : Subscription)
    → Keeps SameChannels (subscribe_if_configured s hub sub)
unfolding subscribe_if_configured after_hub_answer
subscribe_if_configured-SameChannels s none sub = Keeps-pure SameChannels-IsSteady sub
subscribe_if_configured-SameChannels s (some hub) sub =
    elim (subscribe hub (some (resolver_request s sub))).error
      as (λ e. Keeps SameChannels (after_hub_answer sub e)) [
        | some e ↦ save_status-SameChannels _
        | none ↦
            Keeps-bind SameChannels-IsSteady _ _ (Keeps-now SameChannels-IsSteady)
              λ time. save_status-SameChannels _
      ]

create_hub_subscription-SameChannels :
    (s : ChannelResolverService) (channel_id : String)
    → Keeps SameChannels (create_hub_subscription s channel_id)
unfolding create_hub_subscription
create_hub_subscription-SameChannels s channel_id =
    Keeps-bind SameChannels-IsSteady _ _ (Keeps-now SameChannels-IsSteady) λ time.
      Keeps-bind SameChannels-IsSteady _ _
        (Keeps-context SameChannels-IsSteady _ _ (create_subscription-SameChannels _))
        λ sub. subscribe_if_configured-SameChannels s s.hub sub

pub complete_channel-SameChannels :
    (s : ChannelResolverService) (yt : ChannelDetails) (b : Bool) (channel : Channel)
    → Keeps SameChannels (complete_channel s yt b channel)
unfolding complete_channel
complete_channel-SameChannels s yt b channel =
    Keeps-bind SameChannels-IsSteady _ _ (Keeps-now SameChannels-IsSteady) λ t.
      Keeps-bind SameChannels-IsSteady _ _
        (Keeps-attempt SameChannels-IsSteady _ (create_channel_enrichment-SameChannels _))
        λ a.
          Keeps-bind SameChannels-IsSteady _ _
            (Keeps-attempt SameChannels-IsSteady _ (create_hub_subscription-SameChannels s _))
            λ c. Keeps-pure SameChannels-IsSteady _
