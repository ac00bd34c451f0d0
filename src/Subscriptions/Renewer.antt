-- ===== src/Subscriptions/Renewer.antt =====
-- cmd/renewer/main.go: the renewal service, less its configuration, its timer and its log.
use youtube_webhook_ingestio.Base.{
  ℕ, suc, String, Bool, Option, none, some, List, [], ◌∷◌, if◌then◌else◌,
}
use youtube_webhook_ingestio.Errors.{Error, plain}
use youtube_webhook_ingestio.Models.{Subscription}
use youtube_webhook_ingestio.World.Action.{
  Result, ok, err, Action, pure, fail, attempt, context, ◌>>=◌,
}
use youtube_webhook_ingestio.PubSubHub.{Hub, SubscribeRequest, SubscribeResponse, subscribe}
use youtube_webhook_ingestio.Subscriptions.{mark_active, mark_failed, update_expiry}
use youtube_webhook_ingestio.Repository.Subscriptions.{get_expiring_soon, update_subscription}

-- RenewalService; `hub` is what its hub service is made of.
pub record RenewalService : Type 0 where
  pub hub : Hub
  pub batch_size : ℕ
  pub webhook_secret : String
  pub webhook_url : String

-- `hubReq`
abbrev pub renewal_request : RenewalService → Subscription → SubscribeRequest
renewal_request s sub = record {
  hub_url = sub.hub_url;
  topic_url = sub.topic_url;
  callback_url = s.webhook_url;
  lease_seconds = sub.lease_seconds;
  secret = some s.webhook_secret;
}

-- The hub refuses: the subscription is saved as failed, and an error of that is only logged.
unfoldable pub fail_renewal : Subscription → Error → Action (Unit {0})
unfolding ◌>>=◌
fail_renewal sub e = do
  failed ← mark_failed sub
  saved ← attempt (update_subscription failed)
  context "hub subscription failed" (fail e)

-- The subscription after the hub's answer
unfoldable pub answered : Subscription → Bool → Action Subscription
unfolding ◌>>=◌
answered sub accepted =
    if accepted
    then (do active ← mark_active sub; update_expiry active active.lease_seconds)
    else mark_failed sub

unfoldable pub save_renewal : Subscription → Bool → Action (Unit {0})
unfolding ◌>>=◌ pure
save_renewal sub accepted = do
  renewed ← answered sub accepted
  saved ← context "failed to update subscription" (update_subscription renewed)
  pure tt

-- What follows the call of Subscribe. Subscribe returns an error or a response; without either the code
-- would panic.
unfoldable pub after_subscribe :
    Subscription → Option SubscribeResponse → Option Error → Action (Unit {0})
after_subscribe sub response (some e) = fail_renewal sub e
after_subscribe sub none none =
    fail (plain "runtime error: invalid memory address or nil pointer dereference")
after_subscribe sub (some response) none = save_renewal sub response.accepted

-- renewSubscription
unfoldable pub renew_subscription : RenewalService → Subscription → Action (Unit {0})
renew_subscription s sub =
    let outcome = subscribe s.hub (some (renewal_request s sub)) in
    after_subscribe sub outcome.response outcome.error

pub record RenewalCounts : Type 0 where
  pub successes : ℕ
  pub failures : ℕ

abbrev pub counted : Result (Unit {0}) → RenewalCounts → RenewalCounts
counted (ok a) n = record n { successes = suc n.successes }
counted (err e) n = record n { failures = suc n.failures }

-- The loop over the subscriptions: the counts are what it logs at the end.
unfoldable pub renew_all : RenewalService → List Subscription → RenewalCounts → Action RenewalCounts
unfolding pure ◌>>=◌
renew_all s [] n = pure n
renew_all s (sub ∷ subs) n = do
  renewed ← attempt (renew_subscription s sub)
  renew_all s subs (counted renewed n)

-- RenewExpiring
unfoldable pub renew_expiring : RenewalService → Action (Unit {0})
unfolding pure ◌>>=◌
renew_expiring s = do
  subscriptions ← context "failed to get expiring subscriptions" (get_expiring_soon s.batch_size)
  counts ← renew_all s subscriptions (record { successes = 0; failures = 0 })
  pure tt
