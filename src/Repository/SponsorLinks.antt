-- ===== src/Repository/SponsorLinks.antt =====
-- internal/db/repository/sponsor_detection.go: the jobs of detections and the links of videos to sponsors.
use youtube_webhook_ingestio.Base.{
  ℕ, suc, ℤ, pos, negsuc, String, Bool, true, false, not, ◌&&◌, Option, none, some, List, [], ◌∷◌,
  ◌++◌, ◌==◌, eqb, leb, keep, take, drop, is_some, if◌then◌else◌,
}
use youtube_webhook_ingestio.Models.{Video}
use youtube_webhook_ingestio.Models.Sponsor.{
  Sponsor, SponsorDetectionJob, VideoSponsor, VideoSponsorDetail,
}
use youtube_webhook_ingestio.Table.{find}
use youtube_webhook_ingestio.World.Action.{Result, ok, err, Action, now, ◌>>=◌}
use youtube_webhook_ingestio.Repository.Rows.{rows_where, descending, head_row, row_or_none}
use youtube_webhook_ingestio.Repository.Statement.{
  Statement, statement, unique_violation, foreign_key_failure,
}
use youtube_webhook_ingestio.Repository.Videos.{by_video_id}
use youtube_webhook_ingestio.Repository.Prompts.{statement_or_nil}
use youtube_webhook_ingestio.Repository.Detection.{
  find_detection_job, find_link, find_sponsor, links_between, insert_link_row, is_confidence,
  confidence_refused,
}
use youtube_webhook_ingestio.Repository.Detection.Results.{
  is_known_prompt, change_detection_job, as_completed_detection,
}

-- INSERT INTO sponsor_detection_jobs … RETURNING id, sponsors_detected_count, created_at, updated_at
unfoldable pub insert_detection_job : SponsorDetectionJob → Statement SponsorDetectionJob
insert_detection_job job time db =
    let row : SponsorDetectionJob = record job {
      id = db.next_detection_job_id;
      llm_response_raw = none;
      sponsors_detected_count = 0;
      processing_time_ms = none;
      error_message = none;
      detected_at = none;
      created_at = time;
      updated_at = time;
    } in
    if not (is_some (find by_video_id job.video_id db.videos))
    then (err (foreign_key_failure "sponsor_detection_jobs_video_id_fkey"), db)
    else if not (is_known_prompt job.prompt_id db.sponsor_detection_prompts)
    then (err (foreign_key_failure "sponsor_detection_jobs_prompt_id_fkey"), db)
    else (
      ok (record job {
        id = row.id;
        sponsors_detected_count = 0;
        created_at = time;
        updated_at = time;
      }),
      record db {
        sponsor_detection_jobs = db.sponsor_detection_jobs ++ row ∷ [];
        next_detection_job_id = suc db.next_detection_job_id;
      },
    )

-- CreateDetectionJob; the result is the job with what the statement returns.
unfoldable pub create_detection_job : SponsorDetectionJob → Action SponsorDetectionJob
create_detection_job job = statement "create detection job" (insert_detection_job job)

-- UpdateDetectionJobStatus
unfoldable pub update_detection_job_status : ℕ → String → Option String → Action (Unit {0})
update_detection_job_status id status message = statement "update detection job status" (
    change_detection_job id none
      λ time j. record j { status = status; error_message = message; updated_at = time })

-- CompleteDetectionJob
unfoldable pub complete_detection_job : ℕ → Option ℕ → String → ℕ → ℕ → Action (Unit {0})
complete_detection_job id prompt_id raw processing_time_ms count =
    statement "complete detection job" (
      change_detection_job id prompt_id
        λ time. as_completed_detection prompt_id raw processing_time_ms count time time)

-- The jobs of a video, the newest first
unfoldable pub detection_jobs_of : String → List SponsorDetectionJob → List SponsorDetectionJob
unfolding rows_where
detection_jobs_of video_id jobs =
    rows_where (λ j. j.video_id == video_id) (descending (λ j. j.created_at)) jobs

-- GetDetectionJobsByVideoID
unfoldable pub get_detection_jobs_by_video_id : String → Action (List SponsorDetectionJob)
get_detection_jobs_by_video_id video_id =
    statement "get detection jobs by video ID"
      λ time db. (ok (detection_jobs_of video_id db.sponsor_detection_jobs), db)

-- GetLatestDetectionJobForVideo
unfoldable pub get_latest_detection_job : String → Action (Option SponsorDetectionJob)
get_latest_detection_job video_id =
    statement_or_nil "get latest detection job for video"
      λ time db. (row_or_none (head_row (detection_jobs_of video_id db.sponsor_detection_jobs)), db)

-- GetDetectionJobByID
unfoldable pub get_detection_job_by_id : ℕ → Action (Option SponsorDetectionJob)
get_detection_job_by_id id =
    statement_or_nil "get detection job by ID"
      λ time db. (row_or_none (find_detection_job id db.sponsor_detection_jobs), db)

-- INSERT INTO video_sponsors … RETURNING id, detected_at, created_at, updated_at
unfoldable pub insert_video_sponsor : VideoSponsor → Statement VideoSponsor
insert_video_sponsor l time db =
    let row : VideoSponsor = record l {
      id = db.next_video_sponsor_id;
      created_at = time;
      updated_at = time;
    } in
    if not (is_confidence l.confidence)
    then (err confidence_refused, db)
    else if is_some
        (find_link (links_between l.video_id l.sponsor_id l.detection_job_id) db.video_sponsors)
    then (err (unique_violation "video_sponsors_video_id_sponsor_id_detection_job_id_key"), db)
    else let (r, db') = insert_link_row false row time db in (returned row r, db')
  where
    returned : VideoSponsor → Result (Unit {0}) → Result VideoSponsor
    returned row (ok a) = ok row
    returned row (err e) = err e

-- CreateVideoSponsor; the result is the link with what the statement returns.
unfoldable pub create_video_sponsor : VideoSponsor → Action VideoSponsor
unfolding ◌>>=◌
create_video_sponsor l = do
  time ← now
  statement "create video sponsor" (
      insert_video_sponsor
        (record l { detected_at = if eqb l.detected_at 0 then time else l.detected_at }))

abbrev pub int_leb : ℤ → ℤ → Bool
int_leb (pos m) (pos n) = leb m n
int_leb (pos m) (negsuc n) = false
int_leb (negsuc m) (pos n) = true
int_leb (negsuc m) (negsuc n) = leb n m

abbrev pub int_eqb : ℤ → ℤ → Bool
int_eqb m n = int_leb m n && int_leb n m

-- ORDER BY confidence DESC, detected_at DESC
abbrev pub surest_first : VideoSponsor → VideoSponsor → Bool
surest_first k l =
    if int_eqb k.confidence l.confidence
    then leb l.detected_at k.detected_at
    else int_leb l.confidence k.confidence

-- JOIN sponsors s ON vs.sponsor_id = s.id
unfoldable pub with_sponsors : List Sponsor → List VideoSponsor → List VideoSponsorDetail
with_sponsors sponsors [] = []
with_sponsors sponsors (l ∷ links) =
    let rest = with_sponsors sponsors links in
    elim (find_sponsor l.sponsor_id sponsors) [
      | none ↦ rest
      | some s ↦
          (record { video_sponsor = l; sponsor_name = s.name; sponsor_category = s.category })
          ∷ rest
    ]

-- GetVideoSponsorsWithDetails
unfoldable pub get_video_sponsors_with_details : String → Action (List VideoSponsorDetail)
get_video_sponsors_with_details video_id = statement "get video sponsors with details" λ time db. (
  ok (
      with_sponsors db.sponsors
        (rows_where (λ l. l.video_id == video_id) surest_first db.video_sponsors)),
  db,
)

-- GetSponsorVideos
unfoldable pub get_sponsor_videos : ℕ → ℕ → ℕ → Action (List VideoSponsor)
get_sponsor_videos sponsor_id limit offset = statement "get sponsor videos" λ time db. (
  ok (
      take limit (
        drop offset (
          rows_where (λ l. eqb l.sponsor_id sponsor_id) (descending (λ l. l.detected_at))
            db.video_sponsors))),
  db,
)

-- GetVideoSponsorsByJobID
unfoldable pub get_video_sponsors_by_job_id : ℕ → Action (List VideoSponsor)
get_video_sponsors_by_job_id job_id = statement "get video sponsors by job ID" λ time db. (
  ok (
      rows_where (λ l. eqb l.detection_job_id job_id) (λ k l. int_leb l.confidence k.confidence)
        db.video_sponsors),
  db,
)

abbrev pub is_of_channel : String → List Video → VideoSponsor → Bool
is_of_channel channel_id videos l =
    is_some (head_row (keep (λ v. v.video_id == l.video_id && v.channel_id == channel_id) videos))

-- ORDER BY s.video_count DESC, s.name ASC
abbrev pub most_seen_first : (String → String → Bool) → Sponsor → Sponsor → Bool
most_seen_first text_order s t =
    if eqb s.video_count t.video_count
    then text_order s.name t.name
    else leb t.video_count s.video_count

-- GetSponsorsByChannelID: SELECT DISTINCT takes each sponsor once.
unfoldable pub get_sponsors_by_channel_id :
    (String → String → Bool) → String → ℕ → ℕ → Action (List Sponsor)
get_sponsors_by_channel_id text_order channel_id limit offset =
    statement "get sponsors by channel ID" λ time db. (
      ok (
          take limit (
            drop offset (
              rows_where
                (λ s. is_some (
                  find_link (λ l. eqb l.sponsor_id s.id && is_of_channel channel_id db.videos l)
                    db.video_sponsors))
                (most_seen_first text_order) db.sponsors))),
      db,
    )
