-- ===== src/Subscriptions/Creation.antt =====
-- What a subscription that was created is.
use Prim.Native.String.{◌++◌ as ◌<>◌}
use youtube_webhook_ingestio.Base.{
  ℕ, ◌≤◌, ℤ, pos, negsuc, Bool, true, false, Option, none, some, ◌≡◌, refl, sym, ap, ◌∙◌, arith,
  Bool-cases, inl, inr, [], ◌∷◌, ◌++◌, eqb,
}
use youtube_webhook_ingestio.Errors.{Error}
use youtube_webhook_ingestio.Models.{Time, Subscription}
use youtube_webhook_ingestio.World.{World}
use youtube_webhook_ingestio.World.Action.{Result, ok, err, now, pure, ◌>>=◌}
use youtube_webhook_ingestio.Http.{respond, on_result}
use youtube_webhook_ingestio.Repository.Outcome.{statement-eq-ok}
use youtube_webhook_ingestio.Repository.Subscriptions.{
  channel_taken, insert_subscription, create_subscription,
}
use youtube_webhook_ingestio.PubSubHub.{SubscribeResponse, subscribe, subscribe_form}
use youtube_webhook_ingestio.PubSubHub.Acceptance.{Accepted, subscribe-Accepted}
use youtube_webhook_ingestio.Subscriptions.{
  new_subscription, mark_active, status_active, add_seconds,
}
use youtube_webhook_ingestio.Subscriptions.Handler.{
  SubscriptionHandler, CreateSubscriptionRequest, is_channel_id, exceeds, below_zero,
  validate_create_request, created_response, save_created, marked, create_request, after_hub,
  subscribe_new, lease_or_default, create_validated, handle_create,
}

-- A lease that the handler stores: between one second and ten days.
abbrev pub IsLease : ℤ → Type 0
IsLease lease = (n : ℕ) × (lease ≡ pos n) × (1 ≤ n) × (n ≤ 864000)

lease_or_default-IsLease :
    (lease : ℤ)
    → below_zero lease ≡ false
    → exceeds lease 864000 ≡ false
    → IsLease (lease_or_default lease)
lease_or_default-IsLease (negsuc n) h k = absurd (ground arith)
lease_or_default-IsLease (pos n) h k = elim (Bool-cases (eqb n 0)) [
  | inl q ↦ (432000, simp q refl, omega arith, omega arith)
  | inr q ↦ (n, simp q refl, ground arith, ground arith)
]

record Valid (r : CreateSubscriptionRequest) : Type 0 where
  channel : is_channel_id r.channel_id ≡ true
  lease : IsLease (lease_or_default r.lease_seconds)

validate-Valid : (r : CreateSubscriptionRequest) → validate_create_request r ≡ ok tt → Valid r
unfolding validate_create_request
validate-Valid r h = record {
  channel = ground arith;
  lease = lease_or_default-IsLease r.lease_seconds (ground arith) (ground arith);
}

record Inserted (sub : Subscription) (w w' : World) : Type 0 where
  id : ℕ
  free : channel_taken id sub.channel_id w.db.pubsub_subscriptions ≡ false
  rows :
      w'.db.pubsub_subscriptions
      ≡ w.db.pubsub_subscriptions ++ record sub { id = id; last_verified_at = none } ∷ []

create_subscription-Inserted :
    (sub : Subscription) (w w' : World) (a : Subscription)
    → create_subscription sub w ≡ (ok a, w')
    → Inserted sub w w'
unfolding create_subscription insert_subscription
create_subscription-Inserted sub w w' a h =
    let ran = statement-eq-ok _ (insert_subscription sub) w h in
    record { id = w.db.next_subscription_id; free = ground arith; rows = ground arith }

created_response-ok :
    (h : SubscriptionHandler) (r : Result Subscription)
    → (created_response h r).status ≡ 201
    → (a : Subscription) × (r ≡ ok a)
unfolding created_response
created_response-ok h (ok a) q = (a, refl)
created_response-ok h (err e) q = absurd (ground arith)

save_created-Inserted :
    (h : SubscriptionHandler) (sub : Subscription) (w : World)
    → (save_created h (ok sub) w).0.status ≡ 201
    → Inserted sub w (save_created h (ok sub) w).1
unfolding save_created on_result respond
save_created-Inserted h sub w q =
    let (a, e) = created_response-ok h (create_subscription sub w).0 q in
    create_subscription-Inserted sub w (create_subscription sub w).1 a
      λ i. (e i, (create_subscription sub w).1)

-- What a creation answered by 201 has done to the table and the hub.
pub record Created (h : SubscriptionHandler) (r : CreateSubscriptionRequest) (w w' : World)
    : Type 0 where
  pub row : Subscription
  pub rows : w'.db.pubsub_subscriptions ≡ w.db.pubsub_subscriptions ++ row ∷ []
  pub free : channel_taken row.id row.channel_id w.db.pubsub_subscriptions ≡ false
  pub channel_id : row.channel_id ≡ r.channel_id
  pub well_formed : is_channel_id row.channel_id ≡ true
  pub lease : IsLease row.lease_seconds
  pub status : row.status ≡ status_active
  pub last_verified_at : row.last_verified_at ≡ none
  pub expires_at : row.expires_at ≡ add_seconds row.created_at row.lease_seconds
  pub response : SubscribeResponse
  pub accepted :
      Accepted h.hub (create_request h row) (subscribe_form h.hub (create_request h row)) response

-- The subscription that the handler makes at a time.
abbrev new_at : Time → CreateSubscriptionRequest → Subscription
new_at time r = record {
  id = 0;
  channel_id = r.channel_id;
  topic_url = "https://www.youtube.com/xml/feeds/videos.xml?channel_id=" <> r.channel_id;
  hub_url = "https://pubsubhubbub.appspot.com/subscribe";
  lease_seconds = lease_or_default r.lease_seconds;
  expires_at = add_seconds time (lease_or_default r.lease_seconds);
  status = "pending";
  last_verified_at = none;
  created_at = time;
  updated_at = time;
}

module _ (h : SubscriptionHandler) (r : CreateSubscriptionRequest) (time : Time)
    (valid : Valid r) where
  sub : Subscription
  sub = new_at time r

  active : Time → Subscription
  active t = record sub { status = status_active; last_verified_at = some t; updated_at = t }

  Inserted-Created :
      (t : Time) (w v : World) (response : SubscribeResponse)
      → v.db ≡ w.db
      → subscribe h.hub (some (create_request h sub))
        ≡ record { response = some response; error = none }
      → (w' : World) → Inserted (active t) v w'
      → Created h r w w'
  unfolding sub active
  Inserted-Created t w v response d q w' i =
      let row : Subscription = record (active t) { id = i.id; last_verified_at = none } in
      record {
        row = row;
        rows = i.rows ∙ ap (λ db. db.pubsub_subscriptions ++ row ∷ []) d;
        free = ap (λ db. channel_taken i.id r.channel_id db.pubsub_subscriptions) (sym d) ∙ i.free;
        channel_id = refl;
        well_formed = valid.channel;
        lease = valid.lease;
        status = refl;
        last_verified_at = refl;
        expires_at = refl;
        response = response;
        accepted = subscribe-Accepted h.hub (create_request h sub) response q;
      }

  marked-Created :
      (accepted : Bool) (w v : World) (response : SubscribeResponse)
      → v.db ≡ w.db
      → subscribe h.hub (some (create_request h sub))
        ≡ record { response = some response; error = none }
      → accepted ≡ true
      → (on_result (marked accepted sub) (save_created h) v).0.status ≡ 201
      → Created h r w (on_result (marked accepted sub) (save_created h) v).1
  unfolding on_result mark_active now pure ◌>>=◌ active
  marked-Created false w v response d q b k = absurd (ground arith)
  marked-Created true w v response d q b k =
      let v1 = (now v).1 in
      Inserted-Created v1.clock w v1 response d q _ (save_created-Inserted h (active v1.clock) v1 k)

  after_hub-Created :
      (w v : World) (response : Option SubscribeResponse) (e : Option Error)
      → v.db ≡ w.db
      → subscribe h.hub (some (create_request h sub)) ≡ record { response = response; error = e }
      → (after_hub h sub response e v).0.status ≡ 201
      → Created h r w (after_hub h sub response e v).1
  unfolding after_hub respond
  after_hub-Created w v response (some e) d q k = absurd (ground arith)
  after_hub-Created w v none none d q k = absurd (ground arith)
  after_hub-Created w v (some response) none d q k =
      marked-Created response.accepted w v response d q
        (subscribe-Accepted h.hub (create_request h sub) response q).accepted k

Created-of_valid :
    (h : SubscriptionHandler) (r : CreateSubscriptionRequest) (x : Result (Unit {0})) (w : World)
    → validate_create_request r ≡ x
    → (create_validated h r x w).0.status ≡ 201
    → Created h r w (create_validated h r x w).1
unfolding create_validated respond on_result new_subscription now pure ◌>>=◌ subscribe_new sub
Created-of_valid h r (err e) w v k = absurd (ground arith)
Created-of_valid h r (ok a) w v k =
    let u = (now w).1 in after_hub-Created h r u.clock (validate-Valid r v) w u _ _ refl refl k

-- A creation that is answered by 201 has added one row, whatever fails: its channel is the one requested,
-- which is UC and 22 letters of an ID and had no row before; its lease is between one second and ten days;
-- its status is active, since the hub has accepted the subscription with the handler's callback and
-- secret; it expires one lease after its creation. The time of the verification is not stored.
pub handle_create-Created :
    (h : SubscriptionHandler) (r : CreateSubscriptionRequest) (w : World)
    → (handle_create h (ok r) w).0.status ≡ 201
    → Created h r w (handle_create h (ok r) w).1
unfolding handle_create
handle_create-Created h r w k = Created-of_valid h r (validate_create_request r) w refl k
