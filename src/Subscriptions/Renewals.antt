-- ===== src/Subscriptions/Renewals.antt =====
-- What RenewExpiring does with the subscriptions it selects, and what a renewal without an error has done.
use youtube_webhook_ingestio.Base.{
  ◌+◌, ◌≤◌, true, Option, none, some, ◌≡◌, refl, sym, ap, ◌∙◌, arith, List, [], ◌∷◌, length,
}
use youtube_webhook_ingestio.Errors.{Error}
use youtube_webhook_ingestio.Models.{Time, Subscription}
use youtube_webhook_ingestio.World.{World}
use youtube_webhook_ingestio.World.Action.{
  Result, ok, err, Action, fail, attempt, context, now, pure, ◌>>=◌, bind-eq-ok,
}
use youtube_webhook_ingestio.Repository.Outcome.{statement-eq-ok, context-eq-ok}
use youtube_webhook_ingestio.Repository.Subscriptions.{
  replace_row, change_subscription, update_subscription, get_expiring_soon,
}
use youtube_webhook_ingestio.PubSubHub.{SubscribeResponse, subscribe, subscribe_form}
use youtube_webhook_ingestio.PubSubHub.Acceptance.{Accepted, subscribe-Accepted}
use youtube_webhook_ingestio.Subscriptions.{
  status_active, add_seconds, mark_active, mark_failed, update_expiry,
}
use youtube_webhook_ingestio.Subscriptions.Renewer.{
  RenewalService, RenewalCounts, renewal_request, fail_renewal, answered, save_renewal,
  after_subscribe, renew_subscription, renew_all, renew_expiring, counted,
}

-- The loop ends, and has counted each subscription once.
record Counted (s : RenewalService) (subs : List Subscription) (n : RenewalCounts) (w : World)
    : Type 0 where
  counts : RenewalCounts
  after : World
  ends : renew_all s subs n w ≡ (ok counts, after)
  all_counted : counts.successes + counts.failures ≡ n.successes + n.failures + length subs

counted_one :
    (r : Result (Unit {0})) (n : RenewalCounts)
    → (counted r n).successes + (counted r n).failures ≡ n.successes + n.failures + 1
counted_one (ok a) n = omega arith
counted_one (err e) n = omega arith

renew_all-Counted :
    (s : RenewalService) (subs : List Subscription) (n : RenewalCounts) (w : World)
    → Counted s subs n w
unfolding renew_all ◌>>=◌ attempt pure
renew_all-Counted s [] n w = record {
  counts = n;
  after = w;
  ends = refl;
  all_counted = omega arith;
}
renew_all-Counted s (sub ∷ subs) n w =
    let r = (renew_subscription s sub w).0 in
    let rest = renew_all-Counted s subs (counted r n) (renew_subscription s sub w).1 in
    record {
      counts = rest.counts;
      after = rest.after;
      ends = rest.ends;
      all_counted = omega (arith, rest.all_counted, counted_one r n);
    }

-- When the selection succeeds, RenewExpiring ends without an error, and its loop has tried every
-- subscription selected: the successes and failures that it counts add up to their number, whatever the
-- hub answers and whichever of the calls fail.
pub renew_expiring-total :
    (s : RenewalService) (subs : List Subscription) (w v : World)
    → get_expiring_soon s.batch_size w ≡ (ok subs, v)
    → ((renew_expiring s w).0 ≡ ok tt)
      × (counts : RenewalCounts) × (after : World) × (renew_all s subs
            (record { successes = 0; failures = 0 })
            v
          ≡ (ok counts, after))
      × (counts.successes + counts.failures ≡ length subs)
unfolding renew_expiring ◌>>=◌ context pure
renew_expiring-total s subs w v h =
    let c = renew_all-Counted s subs (record { successes = 0; failures = 0 }) v in
    (simp (h, c.ends) refl, c.counts, c.after, c.ends, omega (arith, c.all_counted))

-- The subscription that an accepted renewal saves: active, verified at `verified`, with a lease from `time`.
abbrev pub renewed_subscription : Time → Time → Time → Subscription → Subscription
renewed_subscription verified time updated sub = record sub {
  status = status_active;
  last_verified_at = some verified;
  expires_at = add_seconds time sub.lease_seconds;
  updated_at = updated;
}

record Activated (sub : Subscription) (w : World) : Type 0 where
  verified : Time
  time : Time
  updated : Time
  after : World
  value : answered sub true w ≡ (ok (renewed_subscription verified time updated sub), after)
  later : w.clock ≤ time
  same_db : after.db ≡ w.db

now_later : (w : World) → w.clock ≤ ((now w).1).clock
unfolding now
now_later w = ground arith

answered-Activated : (sub : Subscription) (w : World) → Activated sub w
unfolding answered mark_active update_expiry ◌>>=◌ now pure
answered-Activated sub w =
    let v = (now w).1 in
    let u = (now v).1 in
    record {
      verified = v.clock;
      time = u.clock;
      updated = ((now u).1).clock;
      after = (now u).1;
      value = refl;
      later = omega (arith, now_later w, now_later v);
      same_db = refl;
    }

-- What a renewal without an error has done.
pub record Renewed (s : RenewalService) (sub : Subscription) (w w' : World) : Type 0 where
  pub response : SubscribeResponse
  pub accepted :
      Accepted s.hub (renewal_request s sub) (subscribe_form s.hub (renewal_request s sub)) response
  pub verified : Time
  pub time : Time
  pub updated : Time
  pub later : w.clock ≤ time
  pub now_at : Time
  pub saved :
      w'.db.pubsub_subscriptions
      ≡ replace_row now_at
          (renewed_subscription verified time updated sub)
          w.db.pubsub_subscriptions

record Saved (sub : Subscription) (w w' : World) : Type 0 where
  now_at : Time
  rows : w'.db.pubsub_subscriptions ≡ replace_row now_at sub w.db.pubsub_subscriptions

update_subscription-Saved :
    (sub : Subscription) (w : World) {a : Subscription} {w' : World}
    → update_subscription sub w ≡ (ok a, w')
    → Saved sub w w'
unfolding update_subscription change_subscription
update_subscription-Saved sub w h =
    let ran = statement-eq-ok _ (change_subscription sub) w h in
    record { now_at = w.clock; rows = ground arith }

-- The fields of Renewed that the saving decides.
record SavedActive (sub : Subscription) (w w' : World) : Type 0 where
  verified : Time
  time : Time
  updated : Time
  later : w.clock ≤ time
  now_at : Time
  rows :
      w'.db.pubsub_subscriptions
      ≡ replace_row now_at
          (renewed_subscription verified time updated sub)
          w.db.pubsub_subscriptions

save_renewal-SavedActive :
    (sub : Subscription) (w w' : World)
    → save_renewal sub true w ≡ (ok tt, w')
    → SavedActive sub w w'
unfolding save_renewal ◌>>=◌ context pure
save_renewal-SavedActive sub w w' h =
    let a = answered-Activated sub w in
    let renewed = renewed_subscription a.verified a.time a.updated sub in
    let update : Action Subscription = update_subscription renewed in
    let save : Action Subscription = context "failed to update subscription" update in
    let q : (save >>= λ saved. pure tt) a.after ≡ (ok tt, w') = simp a.value at h in
    let (b, v, e, k) = bind-eq-ok save (λ saved. pure tt) a.after q in
    let saved =
      update_subscription-Saved renewed a.after
        (context-eq-ok "failed to update subscription" update a.after e) in
    record {
      verified = a.verified;
      time = a.time;
      updated = a.updated;
      later = a.later;
      now_at = saved.now_at;
      rows =
          ap (λ x. x.1.db.pubsub_subscriptions) (sym k)
          ∙ saved.rows
          ∙ ap (λ db. replace_row saved.now_at renewed db.pubsub_subscriptions) a.same_db;
    }

fail_renewal-not_ok :
    (sub : Subscription) (e : Error) (w w' : World) → fail_renewal sub e w ≡ (ok tt, w') → ⊥
unfolding fail_renewal mark_failed ◌>>=◌ attempt context fail now pure
fail_renewal-not_ok sub e w w' h = cc

after_subscribe-Renewed :
    (s : RenewalService) (sub : Subscription) (w w' : World) (response : Option SubscribeResponse)
    (e : Option Error)
    → subscribe s.hub (some (renewal_request s sub)) ≡ record { response = response; error = e }
    → after_subscribe sub response e w ≡ (ok tt, w')
    → Renewed s sub w w'
unfolding after_subscribe fail
after_subscribe-Renewed s sub w w' response (some e) q h = absurd (fail_renewal-not_ok sub e w w' h)
after_subscribe-Renewed s sub w w' none none q h = cc
after_subscribe-Renewed s sub w w' (some response) none q h =
    let accepted = subscribe-Accepted s.hub (renewal_request s sub) response q in
    let saved = save_renewal-SavedActive sub w w' (simp accepted.accepted at h) in
    record {
      response = response;
      accepted = accepted;
      verified = saved.verified;
      time = saved.time;
      updated = saved.updated;
      later = saved.later;
      now_at = saved.now_at;
      saved = saved.rows;
    }

-- A renewal that is counted as a success is one: the hub has answered the subscription's own request, with
-- the service's callback and secret, by 202 or 204, and the row with its id now is active and expires one
-- lease after a time of the clock that is not before the start of the renewal.
pub renew_subscription-Renewed :
    (s : RenewalService) (sub : Subscription) (w w' : World)
    → renew_subscription s sub w ≡ (ok tt, w')
    → Renewed s sub w w'
unfolding renew_subscription
renew_subscription-Renewed s sub w w' h = after_subscribe-Renewed s sub w w' _ _ refl h
