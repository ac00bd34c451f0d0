-- ===== src/Subscriptions.antt =====
-- internal/db/models/subscription.go: the constructor and the methods of a subscription. A method that
-- reads the clock is an action; its result is the subscription as the method leaves it. The seconds of
-- a lease fit an INTEGER column, so a time.Duration of them does not overflow.
pub mod Renewer
pub mod Selection
pub mod Untouched
pub mod Renewals
pub mod Handler
pub mod Creation
use Prim.Native.String.{◌++◌ as ◌<>◌}
use youtube_webhook_ingestio.Base.{ℕ, ◌+◌, ◌-◌, ℤ, pos, negsuc, String, Bool, none, some, ltb}
use youtube_webhook_ingestio.Models.{Time, Subscription}
use youtube_webhook_ingestio.World.Action.{Action, pure, now, ◌>>=◌}

abbrev pub status_pending : String
status_pending = "pending"

abbrev pub status_active : String
status_active = "active"

abbrev pub status_expired : String
status_expired = "expired"

abbrev pub status_failed : String
status_failed = "failed"

-- t.Add(time.Duration(seconds) * time.Second)
abbrev pub add_seconds : Time → ℤ → Time
add_seconds t (pos n) = t + n
add_seconds t (negsuc n) = t - (n + 1)

-- NewSubscription
unfoldable pub new_subscription : String → ℤ → Action Subscription
unfolding now pure ◌>>=◌
new_subscription channel_id lease_seconds = do
  time ← now
  pure (record {
    id = 0;
    channel_id = channel_id;
    topic_url = "https://www.youtube.com/xml/feeds/videos.xml?channel_id=" <> channel_id;
    hub_url = "https://pubsubhubbub.appspot.com/subscribe";
    lease_seconds = lease_seconds;
    expires_at = add_seconds time lease_seconds;
    status = status_pending;
    last_verified_at = none;
    created_at = time;
    updated_at = time;
  })

-- MarkActive
unfoldable pub mark_active : Subscription → Action Subscription
unfolding now pure ◌>>=◌
mark_active s = do
  time ← now
  pure (record s { status = status_active; last_verified_at = some time; updated_at = time })

-- MarkFailed
unfoldable pub mark_failed : Subscription → Action Subscription
unfolding now pure ◌>>=◌
mark_failed s = do time ← now; pure (record s { status = status_failed; updated_at = time })

-- MarkExpired
unfoldable pub mark_expired : Subscription → Action Subscription
unfolding now pure ◌>>=◌
mark_expired s = do time ← now; pure (record s { status = status_expired; updated_at = time })

-- IsExpired
unfoldable pub is_expired : Subscription → Action Bool
unfolding now pure ◌>>=◌
is_expired s = do time ← now; pure (ltb s.expires_at time)

-- UpdateExpiry, which reads the clock twice
unfoldable pub update_expiry : Subscription → ℤ → Action Subscription
unfolding now pure ◌>>=◌
update_expiry s lease_seconds = do
  time ← now
  later ← now
  pure (record s {
    lease_seconds = lease_seconds;
    expires_at = add_seconds time lease_seconds;
    updated_at = later;
  })
