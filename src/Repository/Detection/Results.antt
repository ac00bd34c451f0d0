-- ===== src/Repository/Detection/Results.antt =====
-- internal/db/repository/sponsor_detection.go: SaveDetectionResults, its statements in their order.
use youtube_webhook_ingestio.Base.{
  ℕ, suc, String, Bool, ◌&&◌, not, Option, none, some, List, [], ◌∷◌, eqb, is_some, length,
  if◌then◌else◌,
}
use youtube_webhook_ingestio.Errors.{no_rows, wrap_failure}
use youtube_webhook_ingestio.Models.{Time}
use youtube_webhook_ingestio.Models.Sponsor.{
  SponsorDetectionPrompt, Sponsor, SponsorDetectionJob, LlmSponsorResult,
}
use youtube_webhook_ingestio.World.Action.{
  Result, ok, err, Action, pure, fail, attempt, remote, now, ◌>>=◌, ◌>>◌,
}
use youtube_webhook_ingestio.Repository.Statement.{
  Statement, statement, on_tables, foreign_key_failure,
}
use youtube_webhook_ingestio.Repository.Transaction.{transaction}
use youtube_webhook_ingestio.Repository.Detection.{
  Normalizer, normalized, select_sponsor, insert_named_sponsor, change_sponsor, as_seen,
  insert_link, recount, find_detection_job,
}

-- The ID of the sponsor, by what the SELECT returns: the row that there is, or a new one.
unfoldable pub sponsor_id_of : Time → LlmSponsorResult → String → Result Sponsor → Action ℕ
unfolding ◌>>=◌ pure
sponsor_id_of time result name (ok s) = do
  statement "update sponsor last seen in transaction" (change_sponsor s.id (as_seen time))
  pure s.id
sponsor_id_of time result name (err no_rows) =
    statement "create sponsor in transaction" (insert_named_sponsor result.name name time)
sponsor_id_of time result name (err e) = fail (wrap_failure e "get sponsor in transaction")

unfoldable pub find_or_create_sponsor : Normalizer → Time → LlmSponsorResult → Action ℕ
unfolding ◌>>=◌
find_or_create_sponsor n time result =
    attempt (remote (on_tables (select_sponsor (normalized n result.name))))
    >>= sponsor_id_of time result (normalized n result.name)

unfoldable pub link_sponsor : ℕ → String → Time → LlmSponsorResult → ℕ → Action (Unit {0})
unfolding ◌>>=◌
link_sponsor job_id video_id time result sponsor_id = do
  statement "create video sponsor in transaction"
      (insert_link sponsor_id job_id video_id result time)
  statement "increment sponsor video count in transaction" (recount sponsor_id)

-- One round of the loop
unfoldable pub save_result : Normalizer → ℕ → String → Time → LlmSponsorResult → Action (Unit {0})
unfolding ◌>>=◌
save_result n job_id video_id time result =
    find_or_create_sponsor n time result >>= link_sponsor job_id video_id time result

unfoldable pub save_results :
    Normalizer → ℕ → String → Time → List LlmSponsorResult → Action (Unit {0})
unfolding ◌>>=◌ pure
save_results n job_id video_id time [] = pure tt
save_results n job_id video_id time (result ∷ results) =
    save_result n job_id video_id time result >> save_results n job_id video_id time results

unfoldable pub update_detection_job :
    ℕ
    → (SponsorDetectionJob → SponsorDetectionJob)
    → List SponsorDetectionJob
    → List SponsorDetectionJob
update_detection_job id f [] = []
update_detection_job id f (j ∷ rows) =
    (if eqb j.id id then f j else j) ∷ update_detection_job id f rows

unfoldable pub find_prompt : ℕ → List SponsorDetectionPrompt → Option SponsorDetectionPrompt
find_prompt id [] = none
find_prompt id (p ∷ rows) = if eqb p.id id then some p else find_prompt id rows

abbrev pub is_known_prompt : Option ℕ → List SponsorDetectionPrompt → Bool
is_known_prompt none prompts = Bool.true
is_known_prompt (some id) prompts = is_some (find_prompt id prompts)

abbrev pub as_completed_detection :
    Option ℕ → String → ℕ → ℕ → Time → Time → SponsorDetectionJob → SponsorDetectionJob
as_completed_detection prompt_id raw processing_time_ms count detected_at time j = record j {
  status = "completed";
  prompt_id = prompt_id;
  llm_response_raw = some raw;
  processing_time_ms = some processing_time_ms;
  sponsors_detected_count = count;
  detected_at = some detected_at;
  updated_at = time;
}

-- UPDATE sponsor_detection_jobs SET …, prompt_id = $1 WHERE id = …, which says nothing of a missing row
unfoldable pub change_detection_job :
    ℕ → Option ℕ → (Time → SponsorDetectionJob → SponsorDetectionJob) → Statement (Unit {0})
change_detection_job id prompt_id f time db =
    if is_some (find_detection_job id db.sponsor_detection_jobs)
      && not (is_known_prompt prompt_id db.sponsor_detection_prompts)
    then (err (foreign_key_failure "sponsor_detection_jobs_prompt_id_fkey"), db)
    else (
      ok tt,
      record db {
        sponsor_detection_jobs = update_detection_job id (f time) db.sponsor_detection_jobs;
      },
    )

unfoldable pub use_prompt : ℕ → List SponsorDetectionPrompt → List SponsorDetectionPrompt
use_prompt id [] = []
use_prompt id (p ∷ rows) =
    (if eqb p.id id then record p { usage_count = suc p.usage_count } else p) ∷ use_prompt id rows

-- UPDATE sponsor_detection_prompts SET usage_count = usage_count + 1 WHERE id = $1
unfoldable pub count_prompt_use : ℕ → Statement (Unit {0})
count_prompt_use id time db =
    (ok tt, record db { sponsor_detection_prompts = use_prompt id db.sponsor_detection_prompts })

-- `if promptID != nil { … }`
unfoldable pub count_use_in_transaction : Option ℕ → Action (Unit {0})
unfolding pure
count_use_in_transaction none = pure tt
count_use_in_transaction (some id) =
    statement "increment prompt usage in transaction" (count_prompt_use id)

-- What SaveDetectionResults is called with
pub record Detection : Type 0 where
  pub job_id : ℕ
  pub video_id : String
  pub prompt_id : Option ℕ
  pub results : List LlmSponsorResult
  pub raw_response : String
  pub processing_time_ms : ℕ

-- The statements after the loop
unfoldable pub finish : Detection → Time → Action (Unit {0})
unfolding ◌>>=◌
finish d time = do
  statement "update detection job in transaction" (
      change_detection_job d.job_id d.prompt_id (
        as_completed_detection d.prompt_id d.raw_response d.processing_time_ms (length d.results)
          time))
  count_use_in_transaction d.prompt_id

unfoldable pub rounds_and_finish : Normalizer → Detection → Time → Action (Unit {0})
unfolding ◌>>=◌
rounds_and_finish n d time = save_results n d.job_id d.video_id time d.results >> finish d time

-- The statements between Begin and Commit
unfoldable pub detection_statements : Normalizer → Detection → Action (Unit {0})
unfolding ◌>>=◌
detection_statements n d = now >>= rounds_and_finish n d

-- SaveDetectionResults
unfoldable pub save_detection_results : Normalizer → Detection → Action (Unit {0})
save_detection_results n d = transaction (detection_statements n d)
