-- ===== src/Repository/Detection.antt =====
-- internal/db/repository/sponsor_detection.go: SaveDetectionResults. strings.ToLower and
-- strings.TrimSpace are parameters.
pub mod Results
pub mod Sponsors
pub mod Sound
pub mod Counts
use youtube_webhook_ingestio.Base.{
  ℕ, suc, ℤ, pos, negsuc, String, Bool, true, false, not, ◌&&◌, Option, none, some, List, [], ◌∷◌,
  ◌++◌, ◌==◌, eqb, leb, is_some, keep, map, length, if◌then◌else◌,
}
use youtube_webhook_ingestio.Errors.{Error, pg, no_rows, wrap_failure}
use youtube_webhook_ingestio.Models.{Time}
use youtube_webhook_ingestio.Models.Sponsor.{
  SponsorDetectionPrompt, Sponsor, SponsorDetectionJob, VideoSponsor, LlmSponsorResult,
}
use youtube_webhook_ingestio.Table.{find}
use youtube_webhook_ingestio.World.Action.{
  Result, ok, err, Action, pure, fail, attempt, remote, now, ◌>>=◌, ◌>>◌,
}
use youtube_webhook_ingestio.Repository.Statement.{
  Statement, statement, on_tables, unique_violation, foreign_key_failure,
}
use youtube_webhook_ingestio.Repository.Videos.{by_video_id}
use youtube_webhook_ingestio.Repository.Enrichments.{count_distinct}
use youtube_webhook_ingestio.Repository.Rows.{row_or_none}
use youtube_webhook_ingestio.Repository.Transaction.{transaction}

-- strings.ToLower(strings.TrimSpace(s))
pub record Normalizer : Type 0 where
  pub to_lower : String → String
  pub trim_space : String → String

abbrev pub normalized : Normalizer → String → String
normalized n name = n.to_lower (n.trim_space name)

abbrev pub by_normalized_name : Sponsor → String
by_normalized_name s = s.normalized_name

abbrev pub by_name : Sponsor → String
by_name s = s.name

-- SELECT … FROM sponsors WHERE normalized_name = $1
unfoldable pub select_sponsor : String → Statement Sponsor
select_sponsor name time db = (row_or_none (find by_normalized_name name db.sponsors), db)

-- INSERT INTO sponsors … RETURNING id
unfoldable pub insert_named_sponsor : String → String → Time → Statement ℕ
insert_named_sponsor name normalized_name seen_at time db =
    if is_some (find by_name name db.sponsors)
    then (err (unique_violation "sponsors_name_key"), db)
    else (
      ok db.next_sponsor_id,
      record db {
        sponsors =
            db.sponsors
            ++ record {
              id = db.next_sponsor_id;
              name = name;
              normalized_name = normalized_name;
              category = none;
              website_url = none;
              description = none;
              first_seen_at = seen_at;
              last_seen_at = seen_at;
              video_count = 0;
              created_at = time;
              updated_at = time;
            }
              ∷ [];
        next_sponsor_id = suc db.next_sponsor_id;
      },
    )

-- UPDATE sponsors SET … WHERE id = $1
unfoldable pub update_sponsor : ℕ → (Sponsor → Sponsor) → List Sponsor → List Sponsor
update_sponsor id f [] = []
update_sponsor id f (s ∷ rows) = (if eqb s.id id then f s else s) ∷ update_sponsor id f rows

abbrev pub change_sponsor : ℕ → (Time → Sponsor → Sponsor) → Statement (Unit {0})
change_sponsor id f time db =
    (ok tt, record db { sponsors = update_sponsor id (f time) db.sponsors })

abbrev pub as_seen : Time → Time → Sponsor → Sponsor
as_seen seen_at time s = record s { last_seen_at = seen_at; updated_at = time }

abbrev pub links_between : String → ℕ → ℕ → VideoSponsor → Bool
links_between video_id sponsor_id job_id l =
    l.video_id == video_id && eqb l.sponsor_id sponsor_id && eqb l.detection_job_id job_id

unfoldable pub find_link : (VideoSponsor → Bool) → List VideoSponsor → Option VideoSponsor
find_link p [] = none
find_link p (l ∷ rows) = if p l then some l else find_link p rows

unfoldable pub find_detection_job : ℕ → List SponsorDetectionJob → Option SponsorDetectionJob
find_detection_job id [] = none
find_detection_job id (j ∷ rows) = if eqb j.id id then some j else find_detection_job id rows

unfoldable pub find_sponsor : ℕ → List Sponsor → Option Sponsor
find_sponsor id [] = none
find_sponsor id (s ∷ rows) = if eqb s.id id then some s else find_sponsor id rows

-- NUMERIC(5,4), and CHECK (confidence >= 0 AND confidence <= 1)
abbrev pub is_confidence : ℤ → Bool
is_confidence (pos n) = leb n 10000
is_confidence (negsuc n) = false

unfoldable pub confidence_refused : Error
confidence_refused = pg (record {
  code = "23514";
  constraint_name = "video_sponsors_confidence_check";
  message = "new row violates check constraint";
})

-- The foreign keys of a row of video_sponsors
abbrev pub insert_link_row : Bool → VideoSponsor → Statement (Unit {0})
insert_link_row taken row time db =
    if taken
    then (ok tt, db)
    else if not (is_some (find by_video_id row.video_id db.videos))
    then (err (foreign_key_failure "video_sponsors_video_id_fkey"), db)
    else if not (is_some (find_sponsor row.sponsor_id db.sponsors))
    then (err (foreign_key_failure "video_sponsors_sponsor_id_fkey"), db)
    else if not (is_some (find_detection_job row.detection_job_id db.sponsor_detection_jobs))
    then (err (foreign_key_failure "video_sponsors_detection_job_id_fkey"), db)
    else (
      ok tt,
      record db {
        video_sponsors = db.video_sponsors ++ row ∷ [];
        next_video_sponsor_id = suc db.next_video_sponsor_id;
      },
    )

abbrev pub link_row : ℕ → ℕ → String → LlmSponsorResult → Time → Time → ℕ → VideoSponsor
link_row sponsor_id job_id video_id result detected_at time id = record {
  id = id;
  video_id = video_id;
  sponsor_id = sponsor_id;
  detection_job_id = job_id;
  confidence = result.confidence;
  evidence = result.evidence;
  detected_at = detected_at;
  created_at = time;
  updated_at = time;
}

-- INSERT INTO video_sponsors … ON CONFLICT (video_id, sponsor_id, detection_job_id) DO NOTHING. A confidence
-- outside of the column's type is refused as one that the check refuses.
unfoldable pub insert_link : ℕ → ℕ → String → LlmSponsorResult → Time → Statement (Unit {0})
insert_link sponsor_id job_id video_id result detected_at time db =
    if not (is_confidence result.confidence)
    then (err confidence_refused, db)
    else insert_link_row
        (is_some (find_link (links_between video_id sponsor_id job_id) db.video_sponsors))
        (link_row sponsor_id job_id video_id result detected_at time db.next_video_sponsor_id) time
        db

-- SELECT COUNT(DISTINCT video_id) FROM video_sponsors WHERE sponsor_id = $1
unfoldable pub linked_videos : ℕ → List VideoSponsor → ℕ
linked_videos sponsor_id links =
    count_distinct (map (λ l. l.video_id) (keep (λ l. eqb l.sponsor_id sponsor_id) links))

-- UPDATE sponsors SET video_count = (…) WHERE id = $1
unfoldable pub recount : ℕ → Statement (Unit {0})
recount sponsor_id time db = (
  ok tt,
  record db {
    sponsors =
        update_sponsor sponsor_id
          (λ s. record s { video_count = linked_videos sponsor_id db.video_sponsors }) db.sponsors;
  },
)
