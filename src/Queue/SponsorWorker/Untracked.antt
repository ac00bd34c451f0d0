-- ===== src/Queue/SponsorWorker/Untracked.antt =====
-- What a sponsor detection task leaves alone: the jobs of the queue's tasks.
use youtube_webhook_ingestio.Base.{
  ℕ, String, Option, none, some, ◌≡◌, refl, sym, ap, ◌∙◌, List, [], ◌∷◌, ◌==◌, inl, inr, arith,
}
use youtube_webhook_ingestio.Errors.{Error, no_rows}
use youtube_webhook_ingestio.Models.{Time}
use youtube_webhook_ingestio.Models.Sponsor.{
  SponsorDetectionPrompt, SponsorDetectionJob, Sponsor, LlmSponsorResult,
}
use youtube_webhook_ingestio.World.{World, SponsorDetectionPayload}
use youtube_webhook_ingestio.World.Action.{Result, ok, err}
use youtube_webhook_ingestio.World.Keeps.{
  IsSteady, Keeps, Keeps-bind, Keeps-attempt, Keeps-pure, Keeps-fail, Keeps-lift, Keeps-now,
  Keeps-context, Keeps-remote, Keeps-if,
}
use youtube_webhook_ingestio.Ollama.{OllamaClient}
use youtube_webhook_ingestio.Queue.Client.Effects.{Keeps-statement}
use youtube_webhook_ingestio.Repository.Statement.{statement}
use youtube_webhook_ingestio.Repository.Transaction.Atomic.{transaction-atomic}
use youtube_webhook_ingestio.Repository.Prompts.{insert_prompt, prompt_or_new, get_or_create_prompt}
use youtube_webhook_ingestio.Repository.SponsorLinks.{update_detection_job_status}
use youtube_webhook_ingestio.Repository.Detection.{
  Normalizer, insert_named_sponsor, insert_link, recount, select_sponsor,
}
use youtube_webhook_ingestio.Repository.Detection.Results.{
  sponsor_id_of, find_or_create_sponsor, link_sponsor, save_result, save_results,
  change_detection_job, count_prompt_use, count_use_in_transaction, finish, rounds_and_finish,
  detection_statements, Detection, save_detection_results,
}
use youtube_webhook_ingestio.Queue.SponsorWorker.{
  SponsorDetector, mark_detection, fail_detection, detection_saved, save_analysis, analyzed,
  prompted, detect_with, skip_job, skip_detection, detect_for_payload,
  handle_sponsor_detection_task,
}

record SameJobs (w w' : World) : Type 0 where
  jobs : w'.db.enrichment_jobs ≡ w.db.enrichment_jobs

Steady : IsSteady SameJobs
Steady = record {
  refl_at = λ w. record { jobs = refl };
  trans_at = λ u v w p q. record { jobs = q.jobs ∙ p.jobs };
  environment = λ w v d b t. record { jobs = λ i. (sym d i).enrichment_jobs };
}

change_detection_job-SameJobs :
    (operation : String) (id : ℕ) (prompt_id : Option ℕ)
    (f : Time → SponsorDetectionJob → SponsorDetectionJob)
    → Keeps SameJobs (statement operation (change_detection_job id prompt_id f))
unfolding change_detection_job
change_detection_job-SameJobs operation id prompt_id f =
    Keeps-statement operation _ Steady (record { at = λ w. record { jobs = ground arith } })

sponsor_id_of-SameJobs :
    (time : Time) (result : LlmSponsorResult) (name : String) (r : Result Sponsor)
    → Keeps SameJobs (sponsor_id_of time result name r)
unfolding sponsor_id_of insert_named_sponsor
sponsor_id_of-SameJobs time result name (ok s) =
    Keeps-bind Steady _ _
      (Keeps-statement "update sponsor last seen in transaction" _ Steady
        (record { at = λ w. record { jobs = refl } }))
      λ a. Keeps-pure Steady s.id
sponsor_id_of-SameJobs time result name (err no_rows) =
    Keeps-statement "create sponsor in transaction" _ Steady
      (record { at = λ w. record { jobs = ground arith } })
sponsor_id_of-SameJobs time result name (err (Error.sentinel s)) = Keeps-fail Steady _
sponsor_id_of-SameJobs time result name (err (Error.pg e)) = Keeps-fail Steady _
sponsor_id_of-SameJobs time result name (err (Error.plain t)) = Keeps-fail Steady _
sponsor_id_of-SameJobs time result name (err (Error.wrapped b e a)) = Keeps-fail Steady _

save_results-SameJobs :
    (n : Normalizer) (job_id : ℕ) (video_id : String) (time : Time)
    (results : List LlmSponsorResult)
    → Keeps SameJobs (save_results n job_id video_id time results)
unfolding save_results save_result find_or_create_sponsor link_sponsor select_sponsor insert_link
    recount
save_results-SameJobs n job_id video_id time [] = Keeps-pure Steady tt
save_results-SameJobs n job_id video_id time (result ∷ results) =
    Keeps-bind Steady _ _
      (Keeps-bind Steady _ _
        (Keeps-bind Steady _ _
          (Keeps-attempt Steady _
            (Keeps-remote Steady _ (record { at = λ w. record { jobs = refl } })))
          λ r. sponsor_id_of-SameJobs time result _ r)
        λ id.
          Keeps-bind Steady _ _
            (Keeps-statement "create video sponsor in transaction" _ Steady
              (record { at = λ w. record { jobs = ground arith } }))
            λ a.
              Keeps-statement "increment sponsor video count in transaction" _ Steady
                (record { at = λ w. record { jobs = refl } }))
      λ a. save_results-SameJobs n job_id video_id time results

count_use-SameJobs : (prompt_id : Option ℕ) → Keeps SameJobs (count_use_in_transaction prompt_id)
unfolding count_use_in_transaction count_prompt_use
count_use-SameJobs none = Keeps-pure Steady tt
count_use-SameJobs (some id) =
    Keeps-statement "increment prompt usage in transaction" _ Steady
      (record { at = λ w. record { jobs = refl } })

save_detection_results-SameJobs :
    (n : Normalizer) (d : Detection) → Keeps SameJobs (save_detection_results n d)
unfolding save_detection_results detection_statements rounds_and_finish finish
save_detection_results-SameJobs n d =
    let statements : Keeps SameJobs (detection_statements n d) =
      Keeps-bind Steady _ _ (Keeps-now Steady) λ time.
        Keeps-bind Steady _ _ (save_results-SameJobs n d.job_id d.video_id time d.results) λ a.
          Keeps-bind Steady _ _
            (change_detection_job-SameJobs "update detection job in transaction" _ _ _)
            λ b. count_use-SameJobs d.prompt_id in
    record {
      at = λ w. elim (transaction-atomic (detection_statements n d) w) [
        | inl q ↦ record { jobs = ap (λ db. db.enrichment_jobs) q }
        | inr c ↦ record {
          jobs =
              ap (λ db. db.enrichment_jobs) c.tables
              ∙ (sym (ap (λ x. x.1.db.enrichment_jobs) c.ran) ∙ (statements.at c.start).jobs)
              ∙ ap (λ db. db.enrichment_jobs) c.from;
        }
      ];
    }

prompt_or_new-SameJobs :
    (text hash version description : String) (r : Result SponsorDetectionPrompt)
    → Keeps SameJobs (prompt_or_new text hash version description r)
unfolding prompt_or_new insert_prompt
prompt_or_new-SameJobs text hash version description (ok p) = Keeps-pure Steady p
prompt_or_new-SameJobs text hash version description (err no_rows) =
    Keeps-statement "create prompt" _ Steady (record { at = λ w. record { jobs = ground arith } })
prompt_or_new-SameJobs text hash version description (err (Error.sentinel s)) = Keeps-fail Steady _
prompt_or_new-SameJobs text hash version description (err (Error.pg e)) = Keeps-fail Steady _
prompt_or_new-SameJobs text hash version description (err (Error.plain t)) = Keeps-fail Steady _
prompt_or_new-SameJobs text hash version description (err (Error.wrapped b e a)) =
    Keeps-fail Steady _

get_or_create_prompt-SameJobs :
    (hash : String → String) (text version description : String)
    → Keeps SameJobs (get_or_create_prompt hash text version description)
unfolding get_or_create_prompt
get_or_create_prompt-SameJobs hash text version description =
    Keeps-bind Steady _ _
      (Keeps-attempt Steady _ (Keeps-remote Steady _ (record { at = λ w. record { jobs = refl } })))
      λ r. prompt_or_new-SameJobs text _ version description r

mark_detection-SameJobs :
    (id : ℕ) (status message : String) → Keeps SameJobs (mark_detection id status message)
unfolding mark_detection update_detection_job_status
mark_detection-SameJobs id status message =
    Keeps-bind Steady _ _
      (Keeps-attempt Steady _ (change_detection_job-SameJobs "update detection job status" _ _ _))
      λ r. Keeps-pure Steady tt

fail_detection-SameJobs :
    (id : ℕ) (message : String) (e : Error)
    → Keeps SameJobs (fail_detection {A = Unit {0}} id message e)
unfolding fail_detection
fail_detection-SameJobs id message e =
    Keeps-bind Steady _ _ (mark_detection-SameJobs id "failed" message) λ a. Keeps-fail Steady e

detection_saved-SameJobs : (id : ℕ) (r : Result (Unit {0})) → Keeps SameJobs (detection_saved id r)
unfolding detection_saved
detection_saved-SameJobs id (ok a) = Keeps-pure Steady tt
detection_saved-SameJobs id (err e) = fail_detection-SameJobs id _ _

analyzed-SameJobs :
    (h : SponsorDetector) (p : SponsorDetectionPayload) (job_id : ℕ) (start : Time) (prompt_id : ℕ)
    (r : Result (List LlmSponsorResult)) (raw : String)
    → Keeps SameJobs (analyzed h p job_id start prompt_id r raw)
unfolding analyzed save_analysis
analyzed-SameJobs h p job_id start prompt_id (err e) raw = fail_detection-SameJobs job_id _ _
analyzed-SameJobs h p job_id start prompt_id (ok sponsors) raw =
    Keeps-bind Steady _ _ (Keeps-now Steady) λ end.
      Keeps-bind Steady _ _
        (Keeps-attempt Steady _ (save_detection_results-SameJobs h.normalizer _))
        λ r. detection_saved-SameJobs job_id r

prompted-SameJobs :
    (h : SponsorDetector) (client : OllamaClient) (p : SponsorDetectionPayload) (job_id : ℕ)
    (start : Time) (r : Result SponsorDetectionPrompt)
    → Keeps SameJobs (prompted h client p job_id start r)
unfolding prompted
prompted-SameJobs h client p job_id start (err e) = fail_detection-SameJobs job_id _ _
prompted-SameJobs h client p job_id start (ok prompt) =
    analyzed-SameJobs h p job_id start prompt.id _ _

detect_with-SameJobs :
    (h : SponsorDetector) (o : Option OllamaClient) (p : SponsorDetectionPayload) (job_id : ℕ)
    → Keeps SameJobs (detect_with h o p job_id)
unfolding detect_with
detect_with-SameJobs h none p job_id = fail_detection-SameJobs job_id _ _
detect_with-SameJobs h (some client) p job_id = Keeps-bind Steady _ _ (Keeps-now Steady) λ start.
    Keeps-bind Steady _ _ (Keeps-attempt Steady _ (get_or_create_prompt-SameJobs h.hash _ _ _))
      λ r. prompted-SameJobs h client p job_id start r

skip_job-SameJobs : (r : Result ℕ) → Keeps SameJobs (skip_job r)
unfolding skip_job
skip_job-SameJobs (ok id) = mark_detection-SameJobs id _ _
skip_job-SameJobs (err e) = Keeps-pure Steady tt

detect_for_payload-SameJobs :
    (h : SponsorDetector) (p : SponsorDetectionPayload) → Keeps SameJobs (detect_for_payload h p)
unfolding detect_for_payload skip_detection
detect_for_payload-SameJobs h p =
    Keeps-if Steady (p.description == "") _ _
      (λ q.
        Keeps-if Steady (p.detection_job_id == "") _ _ (λ r. Keeps-pure Steady tt)
          λ r. skip_job-SameJobs (h.parse_uuid p.detection_job_id))
      λ q.
        Keeps-bind Steady _ _
          (Keeps-context Steady _ _ (Keeps-lift Steady (h.parse_uuid p.detection_job_id)))
          λ job_id. detect_with-SameJobs h h.ollama p job_id

-- A sponsor detection task changes no job of the queue's tasks, whatever it does and whatever fails: the job
-- that EnqueueSponsorDetection records for the task keeps its status, which is pending.
pub handle_sponsor_detection_task-untracked :
    (h : SponsorDetector) (payload : Result SponsorDetectionPayload) (w : World)
    → (handle_sponsor_detection_task h payload w).1.db.enrichment_jobs ≡ w.db.enrichment_jobs
unfolding handle_sponsor_detection_task
handle_sponsor_detection_task-untracked h payload w =
    let kept : Keeps SameJobs (handle_sponsor_detection_task h payload) =
      Keeps-bind Steady _ _
        (Keeps-context Steady "failed to unmarshal sponsor detection payload" _
          (Keeps-lift Steady payload))
        λ p. detect_for_payload-SameJobs h p in
    (kept.at w).jobs
