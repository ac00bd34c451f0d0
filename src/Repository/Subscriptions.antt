-- ===== src/Repository/Subscriptions.antt =====
-- internal/db/repository/subscription.go. Rows that an ORDER BY does not tell apart come in insertion
-- order.
use youtube_webhook_ingestio.Base.{
  ℕ, suc, ◌+◌, String, Bool, true, not, ◌&&◌, ◌||◌, Option, none, some, List, [], ◌∷◌, ◌++◌, keep,
  take, drop, length, ◌==◌, eqb, leb, is_some, if◌then◌else◌,
}
use youtube_webhook_ingestio.Errors.{Error, pg, no_rows, wrap_failure}
use youtube_webhook_ingestio.Models.{Time, Subscription}
use youtube_webhook_ingestio.World.Action.{Result, ok, err, Action, fail, ◌>>=◌, pure}
use youtube_webhook_ingestio.Repository.Statement.{Statement, statement, unique_violation}
use youtube_webhook_ingestio.Repository.Rows.{rows_where}
use youtube_webhook_ingestio.Subscriptions.{
  status_pending, status_active, status_expired, status_failed,
}

unfoldable pub find_subscription : (Subscription → Bool) → List Subscription → Option Subscription
find_subscription p [] = none
find_subscription p (s ∷ rows) = if p s then some s else find_subscription p rows

-- CHECK (status IN ('pending', 'active', 'expired', 'failed'))
abbrev pub is_status : String → Bool
is_status t = t == status_pending || t == status_active || t == status_expired || t == status_failed

check_violation : Error
check_violation = pg (record {
  code = "23514";
  constraint_name = "chk_status";
  message = "new row violates check constraint";
})

-- whether another row than that of the id has the channel
abbrev pub channel_taken : ℕ → String → List Subscription → Bool
channel_taken id channel_id rows =
    is_some (find_subscription (λ s. s.channel_id == channel_id && not (eqb s.id id)) rows)

-- INSERT INTO pubsub_subscriptions … RETURNING id, created_at, updated_at
unfoldable pub insert_subscription : Subscription → Statement Subscription
unfolding find_subscription check_violation
insert_subscription sub time db =
    let row : Subscription = record sub { id = db.next_subscription_id; last_verified_at = none } in
    if not (is_status sub.status)
    then (err check_violation, db)
    else if channel_taken db.next_subscription_id sub.channel_id db.pubsub_subscriptions
    then (err (unique_violation "uq_channel"), db)
    else (
      ok (record sub { id = db.next_subscription_id }),
      record db {
        pubsub_subscriptions = db.pubsub_subscriptions ++ row ∷ [];
        next_subscription_id = suc db.next_subscription_id;
      },
    )

-- Create; the result is the subscription with its id.
unfoldable pub create_subscription : Subscription → Action Subscription
create_subscription sub = statement "create subscription" (insert_subscription sub)

abbrev pub found_row : Option Subscription → Result Subscription
found_row none = err no_rows
found_row (some s) = ok s

-- GetByID
unfoldable pub get_subscription_by_id : ℕ → Action Subscription
get_subscription_by_id id =
    statement "get subscription by id"
      (λ time db. (found_row (find_subscription (λ s. eqb s.id id) db.pubsub_subscriptions), db))

abbrev pub newest_first : Subscription → Subscription → Bool
newest_first s t = leb t.created_at s.created_at

abbrev pub first_to_expire : Subscription → Subscription → Bool
first_to_expire s t = leb s.expires_at t.expires_at

-- GetByChannelID
unfoldable pub get_subscriptions_by_channel_id : String → Action (List Subscription)
get_subscriptions_by_channel_id channel_id = statement "get subscriptions by channel id" (λ time db.
    (ok (rows_where (λ s. s.channel_id == channel_id) newest_first db.pubsub_subscriptions), db))

-- UPDATE pubsub_subscriptions SET … WHERE id = $8; the trigger sets updated_at.
abbrev pub as_updated : Time → Subscription → Subscription → Subscription
as_updated time sub row = record sub { id = row.id; created_at = row.created_at; updated_at = time }

unfoldable pub replace_row : Time → Subscription → List Subscription → List Subscription
replace_row time sub [] = []
replace_row time sub (s ∷ rows) =
    (if eqb s.id sub.id then as_updated time sub s else s) ∷ replace_row time sub rows

unfoldable pub change_subscription : Subscription → Statement Subscription
unfolding find_subscription replace_row check_violation
change_subscription sub time db =
    elim (find_subscription (λ s. eqb s.id sub.id) db.pubsub_subscriptions) [
      | none ↦ (err no_rows, db)
      | some row ↦
          if not (is_status sub.status)
          then (err check_violation, db)
          else if channel_taken sub.id sub.channel_id db.pubsub_subscriptions
          then (err (unique_violation "uq_channel"), db)
          else (
            ok (record sub { updated_at = time }),
            record db { pubsub_subscriptions = replace_row time sub db.pubsub_subscriptions },
          )
    ]

-- Update; the result is the subscription with the time that the statement returns.
unfoldable pub update_subscription : Subscription → Action Subscription
update_subscription sub = statement "update subscription" (change_subscription sub)

unfoldable pub delete_subscription_rows : ℕ → Statement Bool
unfolding find_subscription
delete_subscription_rows id time db = (
  ok (is_some (find_subscription (λ s. eqb s.id id) db.pubsub_subscriptions)),
  record db { pubsub_subscriptions = keep (λ s. not (eqb s.id id)) db.pubsub_subscriptions },
)

-- `if result.RowsAffected() == 0 { return db.WrapError(pgx.ErrNoRows, "delete subscription") }`
abbrev pub unless_none : Bool → Action (Unit {0})
unless_none deleted = if deleted then pure tt else fail (wrap_failure no_rows "delete subscription")

-- Delete
unfoldable pub delete_subscription : ℕ → Action (Unit {0})
unfolding ◌>>=◌
delete_subscription id =
    statement "delete subscription" (delete_subscription_rows id) >>= unless_none

-- WHERE status = 'active' AND expires_at <= NOW() + INTERVAL '24 hours'
abbrev pub is_due : Time → Subscription → Bool
is_due time s = s.status == status_active && leb s.expires_at (time + 86400)

unfoldable pub select_expiring : ℕ → Statement (List Subscription)
unfolding rows_where
select_expiring limit time db =
    (ok (take limit (rows_where (is_due time) first_to_expire db.pubsub_subscriptions)), db)

-- GetExpiringSoon; a limit below zero, which PostgreSQL refuses, is one more fault.
unfoldable pub get_expiring_soon : ℕ → Action (List Subscription)
get_expiring_soon limit = statement "get expiring subscriptions" (select_expiring limit)

-- GetByStatus
unfoldable pub get_subscriptions_by_status : String → ℕ → Action (List Subscription)
get_subscriptions_by_status status limit = statement "get subscriptions by status" (λ time db. (
  ok (take limit (rows_where (λ s. s.status == status) newest_first db.pubsub_subscriptions)),
  db,
))

-- SubscriptionFilters
pub record SubscriptionFilters : Type 0 where
  pub limit : ℕ
  pub offset : ℕ
  pub channel_id : String
  pub status : String
  pub expires_before : Option Time

abbrev pub expires_by : Option Time → Subscription → Bool
expires_by none s = true
expires_by (some t) s = leb s.expires_at t

-- the WHERE clause that List builds
abbrev pub matches_filters : SubscriptionFilters → Subscription → Bool
matches_filters f s =
    (f.channel_id == "" || s.channel_id == f.channel_id)
    && (f.status == "" || s.status == f.status)
    && expires_by f.expires_before s

unfoldable pub count_subscriptions : SubscriptionFilters → Statement ℕ
count_subscriptions f time db = (ok (length (keep (matches_filters f) db.pubsub_subscriptions)), db)

-- … LIMIT … OFFSET …
unfoldable pub select_page : SubscriptionFilters → Statement (List Subscription)
unfolding rows_where
select_page f time db = (
  ok (
      take f.limit
        (drop f.offset (rows_where (matches_filters f) newest_first db.pubsub_subscriptions))),
  db,
)

-- List
unfoldable pub list_subscriptions : SubscriptionFilters → Action (List Subscription × ℕ)
unfolding pure ◌>>=◌
list_subscriptions f = do
  total ← statement "count subscriptions" (count_subscriptions f)
  rows ← statement "list subscriptions" (select_page f)
  pure (rows, total)
