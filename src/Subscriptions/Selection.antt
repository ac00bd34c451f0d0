-- ===== src/Subscriptions/Selection.antt =====
-- Which rows GetExpiringSoon can select.
use youtube_webhook_ingestio.Base.{ℕ, true, false, ◌≡◌, ◌≢◌, List, [], ◌∷◌, take, All}
use youtube_webhook_ingestio.Models.{Time, Subscription}
use youtube_webhook_ingestio.World.{World}
use youtube_webhook_ingestio.Repository.Rows.{rows_where}
use youtube_webhook_ingestio.Repository.Rows.Order.{All-take, All-ordered, All-keep}
use youtube_webhook_ingestio.Repository.Subscriptions.{is_due, first_to_expire}

-- No row with the id is due at a time.
abbrev pub NotDue : ℕ → Time → List Subscription → Type 0
NotDue id time = All (λ s. s.id ≡ id → is_due time s ≡ false)

NotDue-other :
    (id : ℕ) (time : Time) (rows : List Subscription)
    → NotDue id time rows
    → All (λ s. is_due time s ≡ true → s.id ≢ id) rows
NotDue-other id time [] h = tt
NotDue-other id time (s ∷ rows) h =
    (λ due same. absurd (cc (h.0 same)), NotDue-other id time rows h.1)

pub select_expiring-other :
    (id limit : ℕ) (w : World)
    → NotDue id w.clock w.db.pubsub_subscriptions
    → All
        (λ s. s.id ≢ id)
        (take limit (rows_where (is_due w.clock) first_to_expire w.db.pubsub_subscriptions))
unfolding rows_where
select_expiring-other id limit w h =
    let P : Subscription → Type 0 = λ s. s.id ≢ id in
    All-take P limit _ (
      All-ordered P first_to_expire _
        (All-keep P (is_due w.clock) w.db.pubsub_subscriptions (NotDue-other id w.clock _ h)))
