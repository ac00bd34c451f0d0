-- ===== src/Repository/Channels.antt =====
-- internal/db/repository/channel.go: the statements of the API, but for Delete, which cascades, and List,
-- which sorts by a column of the query.
use youtube_webhook_ingestio.Base.{
  ℕ, String, true, List, [], ◌∷◌, ◌++◌, ◌==◌, if◌then◌else◌, is_some, take, drop, leb, Option, none,
  some,
}
use youtube_webhook_ingestio.Errors.{no_rows}
use youtube_webhook_ingestio.Models.{Time, Channel}
use youtube_webhook_ingestio.Table.{find}
use youtube_webhook_ingestio.World.{Db}
use youtube_webhook_ingestio.World.Action.{Result, ok, err, Action, now, ◌>>=◌}
use youtube_webhook_ingestio.Repository.Rows.{rows_where, first_rows, descending}
use youtube_webhook_ingestio.Repository.Statement.{Statement, statement, unique_violation}
use youtube_webhook_ingestio.Repository.Videos.{by_channel_id}

-- ListChannels. A LIMIT or OFFSET below zero, which PostgreSQL refuses, is one more fault.
unfoldable pub list_channels : ℕ → ℕ → Action (List Channel)
list_channels limit offset = statement "list channels" λ time db. (
  ok (
      take limit
        (drop offset (rows_where (λ c. true) (descending (λ c. c.last_updated_at)) db.channels))),
  db,
)

-- GetChannelsByLastUpdated
unfoldable pub get_channels_by_last_updated : Time → ℕ → Action (List Channel)
get_channels_by_last_updated since limit = statement "get channels by last updated" λ time db. (
  ok (
      first_rows (λ c. leb since c.last_updated_at) (descending (λ c. c.last_updated_at)) limit
        db.channels),
  db,
)

-- INSERT INTO channels … RETURNING …
unfoldable pub insert_channel : Channel → Statement Channel
unfolding find
insert_channel channel time db =
    if is_some (find by_channel_id channel.channel_id db.channels)
    then (err (unique_violation "channels_pkey"), db)
    else (ok channel, record db { channels = db.channels ++ channel ∷ [] })

-- Create; the result is the channel with what the statement returns.
unfoldable pub create_channel : Channel → Action Channel
create_channel channel = statement "create channel" (insert_channel channel)

-- SET title = $1, channel_url = $2, last_updated_at = $3, updated_at = $4
abbrev pub channel_as_updated : Time → Channel → Channel → Channel
channel_as_updated time channel row = record row {
  title = channel.title;
  channel_url = channel.channel_url;
  last_updated_at = time;
  updated_at = time;
}

-- UPDATE … WHERE channel_id = $5
unfoldable pub replace_channel : (Channel → Channel) → String → List Channel → List Channel
replace_channel f channel_id [] = []
replace_channel f channel_id (c ∷ rows) =
    (if c.channel_id == channel_id then f c else c) ∷ replace_channel f channel_id rows

-- The row of the channel, if it has one, is updated; without a row RETURNING gives none.
abbrev pub changed_channel : Time → Channel → Option Channel → Db → Result Channel × Db
changed_channel time channel none db = (err no_rows, db)
changed_channel time channel (some row) db = (
  ok (channel_as_updated time channel row),
  record db {
    channels = replace_channel (channel_as_updated time channel) channel.channel_id db.channels;
  },
)

-- `time` is that of time.Now(); the result is the row that RETURNING gives.
unfoldable pub change_channel : Time → Channel → Statement Channel
change_channel time channel statement_time db =
    changed_channel time channel (find by_channel_id channel.channel_id db.channels) db

-- Update; the result is the channel with what the statement returns.
unfoldable pub update_channel_row : Channel → Action Channel
unfolding ◌>>=◌
update_channel_row channel = do time ← now; statement "update channel" (change_channel time channel)
