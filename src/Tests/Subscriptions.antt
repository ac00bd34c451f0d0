-- ===== src/Tests/Subscriptions.antt =====
-- Runs of the subscription handler and of the renewer.
use youtube_webhook_ingestio.Base.{◌+◌, pos, none, some, [], ◌∷◌, ◌≡◌, refl, arith}
use youtube_webhook_ingestio.Models.{Subscription}
use youtube_webhook_ingestio.World.{World}
use youtube_webhook_ingestio.World.Action.{ok}
use youtube_webhook_ingestio.Subscriptions.Renewer.{
  RenewalService, RenewalCounts, renew_subscription, renew_all, renew_expiring,
}
use youtube_webhook_ingestio.Repository.Subscriptions.{get_expiring_soon}
use youtube_webhook_ingestio.Subscriptions.Untouched.{rows_of, renew_expiring-untouched}
use youtube_webhook_ingestio.Subscriptions.Renewals.{
  Renewed, renew_expiring-total, renew_subscription-Renewed,
}
use youtube_webhook_ingestio.Subscriptions.Handler.{
  SubscriptionHandler, CreateSubscriptionRequest, handle_create,
}
use youtube_webhook_ingestio.Subscriptions.Creation.{Created, handle_create-Created}
use youtube_webhook_ingestio.Tests.{no_rows_yet, first_world}
use youtube_webhook_ingestio.Tests.Hub.{hub}
use youtube_webhook_ingestio.Repository.Statement.{statement}
use youtube_webhook_ingestio.World.Action.{context, remote}
use youtube_webhook_ingestio.Repository.Subscriptions.{
  change_subscription, select_expiring, update_subscription,
}
use youtube_webhook_ingestio.Subscriptions.Renewer.{after_subscribe, answered, save_renewal}
use youtube_webhook_ingestio.PubSubHub.{subscribe}
use youtube_webhook_ingestio.Subscriptions.{mark_active, update_expiry}
use youtube_webhook_ingestio.Base.Text.{cut_prefix}
use youtube_webhook_ingestio.Http.{on_result, respond}
use youtube_webhook_ingestio.World.Action.{now}
use youtube_webhook_ingestio.Subscriptions.{new_subscription}
use youtube_webhook_ingestio.Subscriptions.Handler.{
  validate_create_request, is_channel_id, create_validated, subscribe_new, after_hub, save_created,
  created_response,
}
use youtube_webhook_ingestio.Repository.Subscriptions.{create_subscription, insert_subscription}

abbrev renewer : RenewalService
renewer = record {
  hub = hub;
  batch_size = 100;
  webhook_secret = "secret";
  webhook_url = "https://example.com/webhook";
}

abbrev active_row : Subscription
active_row = record {
  id = 1;
  channel_id = "UCuAXFkgsw1L7xaCfnd5JJOw";
  topic_url = "https://www.youtube.com/xml/feeds/videos.xml?channel_id=UCuAXFkgsw1L7xaCfnd5JJOw";
  hub_url = "https://pubsubhubbub.appspot.com/subscribe";
  lease_seconds = pos 432000;
  expires_at = 500;
  status = "active";
  last_verified_at = none;
  created_at = 100;
  updated_at = 100;
}

abbrev failed_row : Subscription
failed_row = record active_row {
  id = 2;
  channel_id = "UCX6OQ3DkcsbYNE6H8uQQuVA";
  status = "failed";
}

abbrev two_rows : World
two_rows = record (first_world []) {
  db = record no_rows_yet {
    pubsub_subscriptions = active_row ∷ failed_row ∷ [];
    next_subscription_id = 3;
  };
}

renew_expiring-untouched_example :
    rows_of 2 (renew_expiring renewer two_rows).1 ≡ rows_of 2 two_rows
renew_expiring-untouched_example =
    renew_expiring-untouched 2 renewer two_rows (λ q. absurd (omega arith), (λ q. refl, tt))

renew_expiring-total_example :
    ((renew_expiring renewer two_rows).0 ≡ ok tt)
    × (counts : RenewalCounts) × (after : World) × (renew_all renewer
          (active_row ∷ [])
          (record { successes = 0; failures = 0 })
          two_rows
        ≡ (ok counts, after))
    × (counts.successes + counts.failures ≡ 1)
unfolding get_expiring_soon statement remote select_expiring
renew_expiring-total_example = renew_expiring-total renewer (active_row ∷ []) two_rows two_rows refl

abbrev renewed_world : World
renewed_world = record (first_world []) {
  db = record no_rows_yet {
    pubsub_subscriptions =
        record active_row { last_verified_at = some 203; expires_at = 432205; updated_at = 205 }
        ∷ failed_row
        ∷ [];
    next_subscription_id = 3;
  };
  clock = 205;
  delays = [];
}

renew_subscription-Renewed_example : Renewed renewer active_row two_rows renewed_world
unfolding renew_subscription after_subscribe subscribe save_renewal answered mark_active
    update_expiry context update_subscription statement remote change_subscription
renew_subscription-Renewed_example =
    renew_subscription-Renewed renewer active_row two_rows renewed_world refl

abbrev handler : SubscriptionHandler
handler = record {
  hub = hub;
  json = record {
    subscription = λ s. s.channel_id;
    subscriptions = λ rows. "rows";
    error = λ error message. error;
  };
  webhook_secret = "secret";
  webhook_url = "https://example.com/webhook";
}

abbrev creation : CreateSubscriptionRequest
creation = record { channel_id = "UCBR8-60-B28hp2BmDPdntcQ"; lease_seconds = pos 0 }

handle_create-Created_example :
    Created handler creation two_rows (handle_create handler (ok creation) two_rows).1
unfolding handle_create validate_create_request is_channel_id cut_prefix create_validated on_result
    new_subscription now subscribe_new subscribe after_hub mark_active save_created
    create_subscription insert_subscription statement remote created_response respond
handle_create-Created_example = handle_create-Created handler creation two_rows refl
