-- ===== src/Repository/ChannelEnrichments.antt =====
-- internal/db/repository/enrichment.go: the enrichments of channels.
use youtube_webhook_ingestio.Base.{
  ℕ, ℤ, suc, String, Bool, true, false, Option, none, List, [], ◌∷◌, ◌++◌, map, take, ◌==◌, eqb,
  is_some, is_member, if◌then◌else◌,
}
use youtube_webhook_ingestio.Errors.{sentinel, not_found, no_rows, wrap_failure}
use youtube_webhook_ingestio.Models.{Time}
use youtube_webhook_ingestio.Models.Enrichment.{ChannelEnrichment}
use youtube_webhook_ingestio.Table.{find}
use youtube_webhook_ingestio.World.Action.{Result, ok, err, Action, now, remote, pure, ◌>>=◌}
use youtube_webhook_ingestio.Repository.Enrichments.{limit_or}
use youtube_webhook_ingestio.Repository.Rows.{rows_where, descending, head_row, row_or_none}
use youtube_webhook_ingestio.Repository.Statement.{
  Statement, statement, on_tables, unique_violation, foreign_key_failure,
}
use youtube_webhook_ingestio.Repository.Videos.{by_channel_id}

-- the unique index on the channel and the time of its enrichment
abbrev pub has_enrichment_at : String → Time → List ChannelEnrichment → Bool
has_enrichment_at channel_id time [] = false
has_enrichment_at channel_id time (e ∷ rows) =
    if e.channel_id == channel_id
    then (if eqb e.enriched_at time then true else has_enrichment_at channel_id time rows)
    else has_enrichment_at channel_id time rows

-- INSERT INTO channel_api_enrichments … RETURNING id, enriched_at, created_at, updated_at
unfoldable pub insert_channel_enrichment : ChannelEnrichment → Statement ChannelEnrichment
unfolding find
insert_channel_enrichment enrichment time db =
    let row : ChannelEnrichment = record enrichment { id = db.next_channel_enrichment_id } in
    if has_enrichment_at row.channel_id row.enriched_at db.channel_api_enrichments
    then (err (unique_violation "idx_channel_api_enrichments_channel_latest"), db)
    else if is_some (find by_channel_id row.channel_id db.channels)
    then (
      ok row,
      record db {
        channel_api_enrichments = db.channel_api_enrichments ++ row ∷ [];
        next_channel_enrichment_id = suc db.next_channel_enrichment_id;
      },
    )
    else (err (foreign_key_failure "channel_api_enrichments_channel_id_fkey"), db)

-- The times that Create fills in. The zero time is 0.
abbrev pub channel_as_enriched : Time → ChannelEnrichment → ChannelEnrichment
channel_as_enriched time e = record e {
  enriched_at = if eqb e.enriched_at 0 then time else e.enriched_at;
  created_at = time;
  updated_at = time;
}

-- Create; the result is the enrichment with what the statement returns.
unfoldable pub create_channel_enrichment : ChannelEnrichment → Action ChannelEnrichment
unfolding ◌>>=◌
create_channel_enrichment enrichment = do
  time ← now
  statement "create channel enrichment"
      (insert_channel_enrichment (channel_as_enriched time enrichment))

-- WHERE channel_id = $1 ORDER BY enriched_at DESC
unfoldable pub channel_enrichments_of : String → List ChannelEnrichment → List ChannelEnrichment
unfolding rows_where
channel_enrichments_of channel_id rows =
    rows_where (λ e. e.channel_id == channel_id) (descending (λ e. e.enriched_at)) rows

-- `if err == pgx.ErrNoRows { return nil, db.ErrNotFound }`, which is not wrapped
abbrev latest_channel_result : Result ChannelEnrichment → Result ChannelEnrichment
latest_channel_result (ok e) = ok e
latest_channel_result (err no_rows) = err (sentinel not_found)
latest_channel_result (err e) = err (wrap_failure e "get latest channel enrichment")

-- GetLatest
unfoldable pub get_latest_channel_enrichment : String → Action ChannelEnrichment
get_latest_channel_enrichment channel_id w =
    let (r, w') =
      remote
        (on_tables λ time db. (
          row_or_none (head_row (channel_enrichments_of channel_id db.channel_api_enrichments)),
          db,
        ))
        w in
    (latest_channel_result r, w')

-- The columns that GetHistory reads.
pub record ChannelEnrichmentSummary : Type 0 where
  pub id : ℕ
  pub channel_id : String
  pub enriched_at : Time
  pub quota_cost : ℕ
  pub subscriber_count : Option ℤ
  pub video_count : Option ℤ
  pub view_count : Option ℤ
  pub created_at : Time

abbrev pub channel_summary : ChannelEnrichment → ChannelEnrichmentSummary
channel_summary e = record {
  id = e.id;
  channel_id = e.channel_id;
  enriched_at = e.enriched_at;
  quota_cost = e.quota_cost;
  subscriber_count = e.subscriber_count;
  video_count = e.video_count;
  view_count = e.view_count;
  created_at = e.created_at;
}

-- GetHistory
unfoldable pub get_channel_enrichment_history : String → ℤ → Action (List ChannelEnrichmentSummary)
get_channel_enrichment_history channel_id limit =
    statement "get channel enrichment history" λ time db. (
      ok (
          map channel_summary (
            take (limit_or 10 limit)
              (channel_enrichments_of channel_id db.channel_api_enrichments))),
      db,
    )

-- GetBatchLatest: DISTINCT ON (channel_id) takes the first row of each channel. The result is the map
-- from a channel to its enrichment. No statement runs when there is no channel.
unfoldable pub get_batch_latest_channel_enrichments :
    List String → Action (String → Option ChannelEnrichment)
get_batch_latest_channel_enrichments [] = pure λ id. none
get_batch_latest_channel_enrichments (channel_id ∷ channel_ids) =
    statement "get batch latest channel enrichments" λ time db. (
      ok (λ id.
          if is_member id (channel_id ∷ channel_ids)
          then head_row (channel_enrichments_of id db.channel_api_enrichments)
          else none),
      db,
    )
