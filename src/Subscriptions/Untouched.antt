-- ===== src/Subscriptions/Untouched.antt =====
-- The rows that a renewal run leaves alone.
use youtube_webhook_ingestio.Base.{
  ℕ, ℤ, Option, none, some, Bool, true, false, ◌≡◌, ◌≢◌, refl, sym, ◌∙◌, ap, subst, arith, List, [],
  ◌∷◌, keep, eqb, All,
}
use youtube_webhook_ingestio.Models.{Time, Subscription}
use youtube_webhook_ingestio.World.{World}
use youtube_webhook_ingestio.World.Action.{Result, ok, err, pure, now, continue, context, ◌>>=◌}
use youtube_webhook_ingestio.World.Keeps.{
  IsSteady, Keeps, Keeps-bind, Keeps-attempt, Keeps-pure, Keeps-fail, Keeps-context, Keeps-remote,
}
use youtube_webhook_ingestio.World.Yields.{ok-injective, Yields, Keeps-bind_of}
use youtube_webhook_ingestio.Errors.{Error}
use youtube_webhook_ingestio.PubSubHub.{SubscribeResponse}
use youtube_webhook_ingestio.Repository.Statement.{statement, on_tables}
use youtube_webhook_ingestio.Repository.Outcome.{statement-eq-ok, context-eq-ok}
use youtube_webhook_ingestio.Repository.Subscriptions.{
  select_expiring, get_expiring_soon, replace_row, change_subscription, update_subscription,
}
use youtube_webhook_ingestio.Subscriptions.{mark_active, mark_failed, update_expiry}
use youtube_webhook_ingestio.Subscriptions.Selection.{NotDue, select_expiring-other}
use youtube_webhook_ingestio.Subscriptions.Renewer.{
  RenewalService, fail_renewal, answered, save_renewal, after_subscribe, renew_subscription,
  renew_all, renew_expiring, counted, RenewalCounts,
}

-- the rows that have an id
abbrev pub rows_of : ℕ → World → List Subscription
rows_of id w = keep (λ s. eqb s.id id) w.db.pubsub_subscriptions

-- The methods leave the id of a subscription.
abbrev SameRow : Subscription → Subscription → Type 0
SameRow sub a = a.id ≡ sub.id

mark_failed-SameRow : (sub : Subscription) → Yields (SameRow sub) (mark_failed sub)
unfolding mark_failed
mark_failed-SameRow sub = record { value = λ w a h. ground arith }

answered-SameRow :
    (sub : Subscription) (accepted : Bool) → Yields (SameRow sub) (answered sub accepted)
unfolding answered mark_active mark_failed update_expiry ◌>>=◌ now
answered-SameRow sub true = record { value = λ w a h. ground arith }
answered-SameRow sub false = record { value = λ w a h. ground arith }

module _ (id : ℕ) where
  record Untouched (w w' : World) : Type 0 where
    rows : rows_of id w' ≡ rows_of id w

  Untouched-IsSteady : IsSteady Untouched
  Untouched-IsSteady = record {
    refl_at = λ w. record { rows = refl };
    trans_at = λ u v w p q. record { rows = q.rows ∙ p.rows };
    environment =
        λ w v d b t. record { rows = λ i. keep (λ s. eqb s.id id) (sym d i).pubsub_subscriptions };
  }

  keep-replace_row :
      (time : Time) (sub : Subscription) (rows : List Subscription)
      → sub.id ≢ id
      → keep (λ s. eqb s.id id) (replace_row time sub rows) ≡ keep (λ s. eqb s.id id) rows
  unfolding replace_row
  keep-replace_row time sub [] other = refl
  keep-replace_row time sub (s ∷ rows) other = ground (arith, keep-replace_row time sub rows other)

  change-Untouched :
      (sub : Subscription) → sub.id ≢ id → Keeps Untouched (on_tables (change_subscription sub))
  unfolding change_subscription
  change-Untouched sub other = record {
    at = λ w. record {
      rows = ground (arith, keep-replace_row w.clock sub w.db.pubsub_subscriptions other);
    };
  }

  update-Untouched : (sub : Subscription) → sub.id ≢ id → Keeps Untouched (update_subscription sub)
  unfolding update_subscription statement
  update-Untouched sub other = record {
    at = λ w. (Keeps-remote Untouched-IsSteady _ (change-Untouched sub other)).at w;
  }

  Steady : IsSteady Untouched
  Steady = Untouched-IsSteady

  mark_failed-Untouched : (sub : Subscription) → Keeps Untouched (mark_failed sub)
  unfolding mark_failed
  mark_failed-Untouched sub = record { at = λ w. Steady.environment w _ refl refl refl }

  mark_active-Untouched : (sub : Subscription) → Keeps Untouched (mark_active sub)
  unfolding mark_active
  mark_active-Untouched sub = record { at = λ w. Steady.environment w _ refl refl refl }

  update_expiry-Untouched :
      (sub : Subscription) (lease : ℤ) → Keeps Untouched (update_expiry sub lease)
  unfolding update_expiry
  update_expiry-Untouched sub lease = record { at = λ w. Steady.environment w _ refl refl refl }

  fail_renewal-Untouched :
      (sub : Subscription) (e : Error) → sub.id ≢ id → Keeps Untouched (fail_renewal sub e)
  unfolding fail_renewal
  fail_renewal-Untouched sub e other =
      Keeps-bind_of Steady (mark_failed sub) _ (mark_failed-Untouched sub) (mark_failed-SameRow sub)
        λ failed p.
          Keeps-bind Steady _ _
            (Keeps-attempt Steady _ (update-Untouched failed λ q. other (sym p ∙ q)))
            λ saved. Keeps-context Steady _ _ (Keeps-fail Steady e)

  answered-Untouched :
      (sub : Subscription) (accepted : Bool) → Keeps Untouched (answered sub accepted)
  unfolding answered
  answered-Untouched sub true =
      Keeps-bind Steady (mark_active sub) _ (mark_active-Untouched sub)
        λ active. update_expiry-Untouched active active.lease_seconds
  answered-Untouched sub false = mark_failed-Untouched sub

  select-Untouched : (limit : ℕ) → Keeps Untouched (get_expiring_soon limit)
  unfolding get_expiring_soon statement select_expiring
  select-Untouched limit = record {
    at = λ w.
        (Keeps-remote Steady (on_tables (select_expiring limit))
            (record { at = λ v. record { rows = refl } })).at
          w;
  }

  save_renewal-Untouched :
      (sub : Subscription) (accepted : Bool)
      → sub.id ≢ id
      → Keeps Untouched (save_renewal sub accepted)
  unfolding save_renewal
  save_renewal-Untouched sub accepted other =
      Keeps-bind_of Steady (answered sub accepted) _ (answered-Untouched sub accepted)
        (answered-SameRow sub accepted)
        λ renewed p.
          Keeps-bind Steady _ _
            (Keeps-context Steady _ _ (update-Untouched renewed λ q. other (sym p ∙ q)))
            λ saved. Keeps-pure Steady tt

  after_subscribe-Untouched :
      (sub : Subscription) (response : Option SubscribeResponse) (e : Option Error)
      → sub.id ≢ id
      → Keeps Untouched (after_subscribe sub response e)
  unfolding after_subscribe
  after_subscribe-Untouched sub response (some e) other = fail_renewal-Untouched sub e other
  after_subscribe-Untouched sub none none other = Keeps-fail Steady _
  after_subscribe-Untouched sub (some response) none other =
      save_renewal-Untouched sub response.accepted other

  renew_all-Untouched :
      (s : RenewalService) (subs : List Subscription) (n : RenewalCounts)
      → All (λ sub. sub.id ≢ id) subs
      → Keeps Untouched (renew_all s subs n)
  unfolding renew_all renew_subscription
  renew_all-Untouched s [] n h = Keeps-pure Steady n
  renew_all-Untouched s (sub ∷ subs) n h =
      Keeps-bind Steady _ _ (Keeps-attempt Steady _ (after_subscribe-Untouched sub _ _ h.0))
        λ renewed. renew_all-Untouched s subs (counted renewed n) h.1

module _ (id : ℕ) (s : RenewalService) where
  continue-Untouched :
      (r : Result (List Subscription)) (v : World)
      → ((subs : List Subscription) → r ≡ ok subs → All (λ sub. sub.id ≢ id) subs)
      → Untouched id v
          (continue {0, 0} r
            (λ subs.
              renew_all s subs (record { successes = 0; failures = 0 }) >>= λ counts. pure tt)
            v).1
  continue-Untouched (err e) v h = (Untouched-IsSteady id).refl_at v
  continue-Untouched (ok subs) v h =
      (Keeps-bind (Untouched-IsSteady id) _ _
          (renew_all-Untouched id s subs (record { successes = 0; failures = 0 }) (h subs refl))
          λ counts. Keeps-pure (Untouched-IsSteady id) tt).at
        v

selected-other :
    (id limit : ℕ) (w : World) (subs : List Subscription) (v : World)
    → NotDue id w.clock w.db.pubsub_subscriptions
    → context "failed to get expiring subscriptions" (get_expiring_soon limit) w ≡ (ok subs, v)
    → All (λ sub. sub.id ≢ id) subs
unfolding get_expiring_soon select_expiring
selected-other id limit w subs v h q =
    let ran = statement-eq-ok _ (select_expiring limit) w (context-eq-ok _ _ w q) in
    subst (All (λ sub. sub.id ≢ id)) (ok-injective _ _ (ap (λ x. x.0) ran.tables))
      (select_expiring-other id limit w h)

-- A run of RenewExpiring leaves every row alone that is not active or does not expire within 24 hours: if
-- no row with an id is due when the run starts, the rows with that id are the same after it, whatever the
-- hub answers and whichever calls fail. In particular a row whose status is failed stays failed.
pub renew_expiring-untouched :
    (id : ℕ) (s : RenewalService) (w : World)
    → NotDue id w.clock w.db.pubsub_subscriptions
    → rows_of id (renew_expiring s w).1 ≡ rows_of id w
unfolding renew_expiring ◌>>=◌
renew_expiring-untouched id s w h =
    let m = context "failed to get expiring subscriptions" (get_expiring_soon s.batch_size) in
    let select : Keeps (Untouched id) m =
      Keeps-context (Untouched-IsSteady id) _ _ (select-Untouched id s.batch_size) in
    let rest =
      continue-Untouched id s (m w).0 (m w).1
        (λ subs q. selected-other id s.batch_size w subs (m w).1 h λ i. (q i, (m w).1)) in
    rest.rows ∙ (select.at w).rows
