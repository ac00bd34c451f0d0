-- ===== src/Repository/WebhookEvents/Laws.antt =====
-- Look-ups by the content hash, after an insertion and after an update.
use mathlib.Core.Option
use youtube_webhook_ingestio.Base.{
  ℕ, String, ◌≡◌, arith, none, some, List, [], ◌∷◌, ◌++◌, eq_iff, eqb, if◌then◌else◌,
}
use youtube_webhook_ingestio.Models.{WebhookEvent}
use youtube_webhook_ingestio.Table.{find}
use youtube_webhook_ingestio.Repository.WebhookEvents.{by_hash, update_event}

pub find-append :
    (hash : String) (events : List WebhookEvent) (e : WebhookEvent)
    → find by_hash hash events ≡ none
    → e.content_hash ≡ hash
    → find by_hash hash (events ++ e ∷ []) ≡ some e
unfolding find
find-append hash [] e h k = ground (arith, eq_iff e.content_hash hash)
find-append hash (x ∷ xs) e h k = ground (arith, find-append hash xs e)

-- An update that leaves the hashes alone is seen by a look-up as a change of the row found.
pub find-update_event :
    (hash : String) (id : ℕ) (f : WebhookEvent → WebhookEvent) (events : List WebhookEvent)
    → ((e : WebhookEvent) → (f e).content_hash ≡ e.content_hash)
    → find by_hash hash (update_event id f events)
      ≡ Option.map (λ e. if eqb e.id id then f e else e) (find by_hash hash events)
unfolding find update_event
find-update_event hash id f [] h = ground arith
find-update_event hash id f (x ∷ xs) h = ground (
  arith,
  h x,
  eq_iff x.content_hash hash,
  eq_iff (f x).content_hash hash,
  find-update_event hash id f xs h,
)
