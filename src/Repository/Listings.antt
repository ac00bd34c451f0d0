-- ===== src/Repository/Listings.antt =====
-- internal/db/repository: List of the webhook events, the channels, the videos and their updates. The text of
-- the query parameters order_by and order_dir stands in the statement as it is: what PostgreSQL makes of the
-- text behind ORDER BY is a parameter, as is ILIKE. A text that is no order is an error of the statement, and
-- so is a LIMIT or OFFSET below zero, which is one more fault.
pub mod Pages
pub mod Videos
use Prim.Native.String.{◌++◌ as ◌<>◌}
use youtube_webhook_ingestio.Base.{
  ℕ, String, Bool, true, false, ◌&&◌, ◌||◌, ◌==◌, Option, none, some, List, keep, take, drop,
  length, leb, eqb, if◌then◌else◌,
}
use youtube_webhook_ingestio.Errors.{Error, pg}
use youtube_webhook_ingestio.Models.{
  Time, WebhookEvent, Channel, Video, VideoUpdate, UpdateType, new_video, title_update,
  description_update, unknown,
}
use youtube_webhook_ingestio.World.{Db}
use youtube_webhook_ingestio.World.Action.{Result, ok, err, Action, pure, ◌>>=◌}
use youtube_webhook_ingestio.Repository.Statement.{Statement, statement}
use youtube_webhook_ingestio.Repository.Rows.{rows_where}
use youtube_webhook_ingestio.Repository.WebhookEvents.{is_text}

-- The order of the rows by the text behind ORDER BY; `none` where the text is no order. An expression whose
-- evaluation has effects is not represented.
abbrev pub OrderBy : Type 0 → Type 0
OrderBy A = String → Option (A → A → Bool)

unfoldable pub syntax_error : Error
syntax_error = pg (record { code = "42601"; constraint_name = ""; message = "syntax error" })

-- The text behind ORDER BY, where the first text is the default column
abbrev pub order_text : String → String → String → String
order_text column order_by order_dir =
    (if order_by == "" then column else order_by)
    <> " "
    <> (if order_dir == "" then "DESC" else order_dir)

unfoldable pub select_listed :
    {A : Type 0} → (Db → List A) → (A → Bool) → Option (A → A → Bool) → ℕ → ℕ → Statement (List A)
select_listed rows p none limit offset time db = (err syntax_error, db)
select_listed rows p (some before) limit offset time db =
    (ok (take limit (drop offset (rows_where p before (rows db)))), db)

-- SELECT COUNT(*), and then the rows
unfoldable pub list_page :
    {A : Type 0}
    → String
    → (Db → List A)
    → (A → Bool)
    → Option (A → A → Bool)
    → ℕ
    → ℕ
    → Action (List A × ℕ)
unfolding ◌>>=◌ pure
list_page table rows p order limit offset = do
  total ← statement ("count " <> table) λ time db. (ok (length (keep p (rows db))), db)
  page ← statement ("list " <> table) (select_listed rows p order limit offset)
  pure (page, total)

-- A filter with the empty text is not set.
abbrev pub unset_or : String → Bool → Bool
unset_or filter test = filter == "" || test

-- `if filters.Processed != nil { … }`
abbrev pub is_processed : Option Bool → Bool → Bool
is_processed none b = true
is_processed (some true) b = b
is_processed (some false) b = if b then false else true

-- WebhookEventFilters
pub record WebhookEventFilters : Type 0 where
  pub limit : ℕ
  pub offset : ℕ
  pub processed : Option Bool
  pub video_id : String
  pub channel_id : String
  pub order_by : String
  pub order_dir : String

abbrev pub matches_event : WebhookEventFilters → WebhookEvent → Bool
matches_event f e =
    is_processed f.processed e.processed
    && unset_or f.video_id (is_text f.video_id e.video_id)
    && unset_or f.channel_id (is_text f.channel_id e.channel_id)

-- List of the webhook events
unfoldable pub list_events :
    OrderBy WebhookEvent → WebhookEventFilters → Action (List WebhookEvent × ℕ)
list_events order f =
    list_page "webhook events" (λ db. db.webhook_events) (matches_event f)
      (order (order_text "received_at" f.order_by f.order_dir)) f.limit f.offset

-- ChannelFilters
pub record ChannelFilters : Type 0 where
  pub limit : ℕ
  pub offset : ℕ
  pub title : String
  pub order_by : String
  pub order_dir : String

-- title ILIKE '%…%'
abbrev pub like_title : (String → String → Bool) → String → String → Bool
like_title ilike title text = unset_or title (ilike text ("%" <> title <> "%"))

-- List of the channels
unfoldable pub list_channel_page :
    (String → String → Bool) → OrderBy Channel → ChannelFilters → Action (List Channel × ℕ)
list_channel_page ilike order f =
    list_page "channels" (λ db. db.channels) (λ c. like_title ilike f.title c.title)
      (order (order_text "last_updated_at" f.order_by f.order_dir)) f.limit f.offset

-- VideoFilters
pub record VideoFilters : Type 0 where
  pub limit : ℕ
  pub offset : ℕ
  pub channel_id : String
  pub title : String
  pub published_after : Option Time
  pub published_before : Option Time
  pub order_by : String
  pub order_dir : String

abbrev pub is_from : Option Time → Time → Bool
is_from none time = true
is_from (some t) time = leb t time

abbrev pub is_until : Option Time → Time → Bool
is_until none time = true
is_until (some t) time = leb time t

abbrev pub matches_video : (String → String → Bool) → VideoFilters → Video → Bool
matches_video ilike f v =
    unset_or f.channel_id (v.channel_id == f.channel_id)
    && like_title ilike f.title v.title
    && is_from f.published_after v.published_at
    && is_until f.published_before v.published_at

-- List of the videos
unfoldable pub list_video_page :
    (String → String → Bool) → OrderBy Video → VideoFilters → Action (List Video × ℕ)
list_video_page ilike order f =
    list_page "videos" (λ db. db.videos) (matches_video ilike f)
      (order (order_text "published_at" f.order_by f.order_dir)) f.limit f.offset

-- VideoUpdateFilters
pub record VideoUpdateFilters : Type 0 where
  pub limit : ℕ
  pub offset : ℕ
  pub video_id : String
  pub channel_id : String
  pub webhook_event_id : ℕ
  pub update_type : String
  pub order_by : String
  pub order_dir : String

abbrev pub update_type_text : UpdateType → String
update_type_text new_video = "new_video"
update_type_text title_update = "title_update"
update_type_text description_update = "description_update"
update_type_text unknown = "unknown"

abbrev pub matches_update : VideoUpdateFilters → VideoUpdate → Bool
matches_update f u =
    unset_or f.video_id (u.video_id == f.video_id)
    && unset_or f.channel_id (u.channel_id == f.channel_id)
    && (eqb f.webhook_event_id 0 || eqb u.webhook_event_id f.webhook_event_id)
    && unset_or f.update_type (update_type_text u.update_type == f.update_type)

-- List of the updates of videos
unfoldable pub list_updates :
    OrderBy VideoUpdate → VideoUpdateFilters → Action (List VideoUpdate × ℕ)
list_updates order f =
    list_page "video updates" (λ db. db.video_updates) (matches_update f)
      (order (order_text "created_at" f.order_by f.order_dir)) f.limit f.offset
