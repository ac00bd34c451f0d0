-- ===== src/Repository/Enrichments.antt =====
-- internal/db/repository/enrichment.go: the enrichments of videos. A scan of rows that is cut short is one
-- more fault.
use youtube_webhook_ingestio.Base.{
  ℕ, suc, ℤ, pos, negsuc, String, Bool, not, Option, none, List, [], ◌∷◌, ◌++◌, map, take, keep,
  ltb, ◌-◌, length, ◌==◌, eqb, is_some, is_member, if◌then◌else◌,
}
use youtube_webhook_ingestio.Errors.{sentinel, not_found, no_rows, wrap_failure}
use youtube_webhook_ingestio.Models.{Time, Video}
use youtube_webhook_ingestio.Models.Enrichment.{VideoEnrichment}
use youtube_webhook_ingestio.Table.{find}
use youtube_webhook_ingestio.World.Action.{Result, ok, err, Action, now, remote, pure, ◌>>=◌}
use youtube_webhook_ingestio.Repository.Rows.{
  head_row, row_or_none, rows_where, descending, first_rows,
}
use youtube_webhook_ingestio.Repository.Statement.{
  Statement, statement, on_tables, unique_violation, foreign_key_failure,
}
use youtube_webhook_ingestio.Repository.Videos.{by_video_id}

-- the unique index on the video and the time of its enrichment
abbrev pub is_enriched_at : String → Time → List VideoEnrichment → Bool
is_enriched_at video_id time [] = Bool.false
is_enriched_at video_id time (e ∷ rows) =
    if e.video_id == video_id
    then (if eqb e.enriched_at time then Bool.true else is_enriched_at video_id time rows)
    else is_enriched_at video_id time rows

-- INSERT INTO video_api_enrichments … RETURNING id, enriched_at, created_at, updated_at
unfoldable pub insert_enrichment : VideoEnrichment → Statement VideoEnrichment
unfolding find
insert_enrichment enrichment time db =
    let row : VideoEnrichment = record enrichment { id = db.next_enrichment_id } in
    if is_enriched_at row.video_id row.enriched_at db.video_api_enrichments
    then (err (unique_violation "idx_video_api_enrichments_video_latest"), db)
    else if is_some (find by_video_id row.video_id db.videos)
    then (
      ok row,
      record db {
        video_api_enrichments = db.video_api_enrichments ++ row ∷ [];
        next_enrichment_id = suc db.next_enrichment_id;
      },
    )
    else (err (foreign_key_failure "video_api_enrichments_video_id_fkey"), db)

-- The times that CreateEnrichment fills in. The zero time is 0.
abbrev pub as_enriched : Time → VideoEnrichment → VideoEnrichment
as_enriched time e = record e {
  enriched_at = if eqb e.enriched_at 0 then time else e.enriched_at;
  created_at = time;
  updated_at = time;
}

-- CreateEnrichment; the result is the enrichment with what the statement returns.
unfoldable pub create_enrichment : VideoEnrichment → Action VideoEnrichment
unfolding ◌>>=◌
create_enrichment enrichment = do
  time ← now
  statement "create enrichment" (insert_enrichment (as_enriched time enrichment))

-- WHERE video_id = $1 ORDER BY enriched_at DESC
unfoldable pub enrichments_of : String → List VideoEnrichment → List VideoEnrichment
unfolding rows_where
enrichments_of video_id rows =
    rows_where (λ e. e.video_id == video_id) (descending (λ e. e.enriched_at)) rows

-- `if err == pgx.ErrNoRows { return nil, db.ErrNotFound }`, which is not wrapped
abbrev latest_result : Result VideoEnrichment → Result VideoEnrichment
latest_result (ok e) = ok e
latest_result (err no_rows) = err (sentinel not_found)
latest_result (err e) = err (wrap_failure e "get latest enrichment")

-- GetLatestEnrichment
unfoldable pub get_latest_enrichment : String → Action VideoEnrichment
get_latest_enrichment video_id w =
    let (r, w') =
      remote
        (on_tables λ time db.
          (row_or_none (head_row (enrichments_of video_id db.video_api_enrichments)), db))
        w in
    (latest_result r, w')

-- `if limit <= 0 { limit = … }`
abbrev pub limit_or : ℕ → ℤ → ℕ
limit_or default (negsuc n) = default
limit_or default (pos ℕ.zero) = default
limit_or default (pos (ℕ.suc n)) = suc n

-- The columns that GetEnrichmentHistory reads.
pub record EnrichmentSummary : Type 0 where
  pub id : ℕ
  pub video_id : String
  pub enriched_at : Time
  pub quota_cost : ℕ
  pub view_count : Option ℤ
  pub like_count : Option ℤ
  pub comment_count : Option ℤ
  pub privacy_status : Option String
  pub upload_status : Option String
  pub created_at : Time

abbrev pub summary : VideoEnrichment → EnrichmentSummary
summary e = record {
  id = e.id;
  video_id = e.video_id;
  enriched_at = e.enriched_at;
  quota_cost = e.quota_cost;
  view_count = e.view_count;
  like_count = e.like_count;
  comment_count = e.comment_count;
  privacy_status = e.privacy_status;
  upload_status = e.upload_status;
  created_at = e.created_at;
}

-- GetEnrichmentHistory
unfoldable pub get_enrichment_history : String → ℤ → Action (List EnrichmentSummary)
get_enrichment_history video_id limit = statement "get enrichment history" λ time db. (
  ok (map summary (take (limit_or 10 limit) (enrichments_of video_id db.video_api_enrichments))),
  db,
)

abbrev pub is_enriched : List VideoEnrichment → Video → Bool
is_enriched rows v = is_member v.video_id (map (λ e. e.video_id) rows)

-- GetUnenrichedVideos
unfoldable pub get_unenriched_videos : ℤ → Action (List String)
get_unenriched_videos limit = statement "get unenriched videos" λ time db. (
  ok (
      map by_video_id (
        first_rows (λ v. not (is_enriched db.video_api_enrichments v))
          (descending (λ v. v.first_seen_at)) (limit_or 50 limit) db.videos)),
  db,
)

-- A row of the join meets `e.enriched_at < $1`.
abbrev pub was_enriched_before : Time → List VideoEnrichment → Video → Bool
was_enriched_before cutoff rows v =
    is_member v.video_id (map (λ e. e.video_id) (keep (λ e. ltb e.enriched_at cutoff) rows))

-- GetVideosNeedingReenrichment. The age is in seconds and not below zero; the order of texts is a parameter,
-- and DISTINCT ON takes each video once.
unfoldable pub get_videos_needing_reenrichment :
    (String → String → Bool) → ℕ → ℤ → Action (List String)
unfolding ◌>>=◌
get_videos_needing_reenrichment text_order older_than limit = do
  time ← now
  statement "get videos needing re-enrichment" λ at db. (
    ok (
        map by_video_id (
          first_rows (was_enriched_before (time - older_than) db.video_api_enrichments)
            (λ v w. text_order v.video_id w.video_id) (limit_or 50 limit) db.videos)),
    db,
  )

-- GetEnrichmentCount
unfoldable pub get_enrichment_count : Action ℕ
get_enrichment_count =
    statement "get enrichment count" λ time db. (ok (length db.video_api_enrichments), db)

-- COUNT(DISTINCT …)
unfoldable pub count_distinct : List String → ℕ
count_distinct [] = 0
count_distinct (x ∷ xs) = let n = count_distinct xs in if is_member x xs then n else suc n

-- GetEnrichedVideoCount
unfoldable pub get_enriched_video_count : Action ℕ
get_enriched_video_count =
    statement "get enriched video count"
      λ time db. (ok (count_distinct (map (λ e. e.video_id) db.video_api_enrichments)), db)

-- GetBatchLatestEnrichments: DISTINCT ON (video_id) takes the first row of each video. The result is
-- the map from a video to its enrichment. No statement runs when there is no video.
unfoldable pub get_batch_latest_enrichments : List String → Action (String → Option VideoEnrichment)
get_batch_latest_enrichments [] = pure λ id. none
get_batch_latest_enrichments (video_id ∷ video_ids) =
    statement "get batch latest enrichments" λ time db. (
      ok (λ id.
          if is_member id (video_id ∷ video_ids)
          then head_row (enrichments_of id db.video_api_enrichments)
          else none),
      db,
    )
