-- ===== src/Queue/SponsorWorker/Completed.antt =====
-- The job of a detection after the statements of SaveDetectionResults.
use youtube_webhook_ingestio.Base.{
  ℕ, Option, none, some, ◌≡◌, refl, sym, ap, subst, List, [], ◌∷◌, All, length, is_some, not, ◌&&◌,
  eqb, eqb_iff, Bool-cases, inl, inr, arith,
}
use youtube_webhook_ingestio.Models.{Time}
use youtube_webhook_ingestio.Models.Sponsor.{SponsorDetectionJob}
use youtube_webhook_ingestio.World.{World, Db}
use youtube_webhook_ingestio.World.Action.{Result, ok, pure, now, bind-eq-ok}
use youtube_webhook_ingestio.Repository.Statement.{statement}
use youtube_webhook_ingestio.Repository.Outcome.{statement-eq-ok}
use youtube_webhook_ingestio.Repository.Detection.{Normalizer, find_detection_job}
use youtube_webhook_ingestio.Repository.Detection.Results.{
  Detection, save_results, change_detection_job, update_detection_job, as_completed_detection,
  count_use_in_transaction, count_prompt_use, is_known_prompt, finish, rounds_and_finish,
  detection_statements,
}

-- The job is completed with the number of the results.
abbrev pub IsCompleted : Detection → SponsorDetectionJob → Type 0
IsCompleted d j =
    j.id ≡ d.job_id → (j.status ≡ "completed") × (j.sponsors_detected_count ≡ length d.results)

update-IsCompleted :
    (d : Detection) (f : SponsorDetectionJob → SponsorDetectionJob)
    (rows : List SponsorDetectionJob)
    → ((j : SponsorDetectionJob) → IsCompleted d (f j))
    → All (IsCompleted d) (update_detection_job d.job_id f rows)
unfolding update_detection_job
update-IsCompleted d f [] done = tt
update-IsCompleted d f (j ∷ rows) done =
    let rest = update-IsCompleted d f rows done in
    elim (Bool-cases (eqb j.id d.job_id)) [
      | inl q ↦ simp q (done j, rest)
      | inr q ↦ simp q ((λ e. absurd (ground (arith, (eqb_iff j.id d.job_id).1 e))), rest)
    ]

changed-IsCompleted :
    (d : Detection) (detected_at time : Time) (db db' : Db)
    → change_detection_job d.job_id d.prompt_id
        (as_completed_detection d.prompt_id d.raw_response d.processing_time_ms
          (length d.results)
          detected_at)
        time
        db
      ≡ (ok tt, db')
    → All (IsCompleted d) db'.sponsor_detection_jobs
unfolding change_detection_job
changed-IsCompleted d detected_at time db db' h =
    elim (Bool-cases (
      is_some (find_detection_job d.job_id db.sponsor_detection_jobs)
      && not (is_known_prompt d.prompt_id db.sponsor_detection_prompts))) [
        | inl q ↦ absurd (ground (arith, simp q at h))
        | inr q ↦
            let f : SponsorDetectionJob → SponsorDetectionJob =
              as_completed_detection d.prompt_id d.raw_response d.processing_time_ms
                (length d.results) detected_at time in
            let g : ◌≡◌ {A = Result (Unit {0}) × Db}
                (
                  ok tt,
                  record db {
                    sponsor_detection_jobs =
                        update_detection_job d.job_id f db.sponsor_detection_jobs;
                  },
                )
                (ok tt, db') =
              simp q at h in
            subst (λ (x : Result (Unit {0}) × Db). All (IsCompleted d) x.1.sponsor_detection_jobs) g
              (update-IsCompleted d f db.sponsor_detection_jobs λ j e. (refl, refl))
      ]

count_use-jobs :
    (prompt_id : Option ℕ) (w w' : World)
    → count_use_in_transaction prompt_id w ≡ (ok tt, w')
    → w'.db.sponsor_detection_jobs ≡ w.db.sponsor_detection_jobs
unfolding count_use_in_transaction pure count_prompt_use
count_use-jobs none w w' h = ap (λ x. x.1.db.sponsor_detection_jobs) (sym h)
count_use-jobs (some id) w w' h =
    ap (λ x. x.1.sponsor_detection_jobs)
      (sym
        (statement-eq-ok "increment prompt usage in transaction" (count_prompt_use id) w {a = tt}
          {w' = w'} h).tables)

pub detection_statements-IsCompleted :
    (n : Normalizer) (d : Detection) (w w' : World)
    → detection_statements n d w ≡ (ok tt, w')
    → All (IsCompleted d) w'.db.sponsor_detection_jobs
unfolding detection_statements rounds_and_finish finish
detection_statements-IsCompleted n d w w' h =
    let (time, v, e, k) = bind-eq-ok now (rounds_and_finish n d) w h in
    let (a, x, e2, k2) =
      bind-eq-ok (save_results n d.job_id d.video_id time d.results) (λ a. finish d time) v k in
    let change = change_detection_job d.job_id d.prompt_id (
      as_completed_detection d.prompt_id d.raw_response d.processing_time_ms (length d.results)
        time) in
    let (b, y, e3, k3) =
      bind-eq-ok (statement "update detection job in transaction" change)
        (λ b. count_use_in_transaction d.prompt_id) x k2 in
    subst (All (IsCompleted d)) (sym (count_use-jobs d.prompt_id y w' k3)) (
      changed-IsCompleted d time x.clock x.db y.db
        (statement-eq-ok "update detection job in transaction" change x {a = b} {w' = y} e3).tables)
