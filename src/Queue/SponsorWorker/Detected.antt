-- ===== src/Queue/SponsorWorker/Detected.antt =====
-- What a sponsor detection task without an error has done.
use youtube_webhook_ingestio.Base.{
  ℕ, String, Option, none, some, ◌==◌, ◌≡◌, refl, sym, ap, subst, ◌∙◌, List, All, false, arith,
}
use youtube_webhook_ingestio.Errors.{Error}
use youtube_webhook_ingestio.Models.{Time}
use youtube_webhook_ingestio.Models.Sponsor.{SponsorDetectionPrompt, LlmSponsorResult}
use youtube_webhook_ingestio.World.{World, Db, SponsorDetectionPayload}
use youtube_webhook_ingestio.World.Action.{
  Result, ok, err, Action, pure, fail, lift, attempt, context, now, bind-eq-ok, ◌>>=◌,
}
use youtube_webhook_ingestio.Ollama.{OllamaClient, get_prompt_text, analyze_video_for_sponsors}
use youtube_webhook_ingestio.Repository.Outcome.{context-eq-ok, attempt-eq-ok}
use youtube_webhook_ingestio.Repository.Transaction.Atomic.{Committed, transaction-ok}
use youtube_webhook_ingestio.Repository.Prompts.{get_or_create_prompt}
use youtube_webhook_ingestio.Repository.Detection.Results.{
  Detection, detection_statements, save_detection_results,
}
use youtube_webhook_ingestio.Queue.SponsorWorker.{
  SponsorDetector, mark_detection, fail_detection, detection_saved, milliseconds_since,
  save_analysis, analyzed, prompted, detect_with, detect_for_payload, handle_sponsor_detection_task,
}
use youtube_webhook_ingestio.Queue.SponsorWorker.Completed.{
  IsCompleted, detection_statements-IsCompleted,
}

-- What a task has done for its video: the model has answered, and its results are committed as one.
pub record Detected (h : SponsorDetector) (p : SponsorDetectionPayload) (w' : World) : Type 0 where
  pub client : OllamaClient
  pub configured : h.ollama ≡ some client
  pub detection : Detection
  pub job : h.parse_uuid p.detection_job_id ≡ ok detection.job_id
  pub video : detection.video_id ≡ p.video_id
  pub answered :
      (analyze_video_for_sponsors client p.title p.description).sponsors ≡ ok detection.results
  pub before : Db
  pub committed : Committed (detection_statements h.normalizer detection) before w'
  pub completed : All (IsCompleted detection) w'.db.sponsor_detection_jobs

fail_detection-not_ok :
    (id : ℕ) (message : String) (e : Error) (w w' : World)
    → fail_detection id message e w ≡ (ok tt, w')
    → ⊥
unfolding fail_detection mark_detection ◌>>=◌ attempt pure fail
fail_detection-not_ok id message e w w' h = ground arith

detection_saved-ok :
    (id : ℕ) (r : Result (Unit {0})) (w w' : World)
    → detection_saved id r w ≡ (ok tt, w')
    → (r ≡ ok tt) × (w ≡ w')
unfolding detection_saved pure
detection_saved-ok id (ok a) w w' h = (refl, ap (λ x. x.1) h)
detection_saved-ok id (err e) w w' h = absurd (fail_detection-not_ok id _ _ w w' h)

module _ (h : SponsorDetector) (client : OllamaClient) (configured : h.ollama ≡ some client)
    (p : SponsorDetectionPayload) (job_id : ℕ)
    (job : h.parse_uuid p.detection_job_id ≡ ok job_id) where
  save_analysis-Detected :
      (start : Time) (prompt_id : ℕ) (sponsors : List LlmSponsorResult) (raw : String)
      (w w' : World)
      → (analyze_video_for_sponsors client p.title p.description).sponsors ≡ ok sponsors
      → save_analysis h p job_id start prompt_id sponsors raw w ≡ (ok tt, w')
      → Detected h p w'
  unfolding save_analysis save_detection_results
  save_analysis-Detected start prompt_id sponsors raw w w' answered q =
      let (end, v, e, k) = bind-eq-ok now (saved_at start prompt_id sponsors raw) w q in
      let d = detection_at start prompt_id sponsors raw end in
      let (r, x, e2, k2) =
        bind-eq-ok (attempt (save_detection_results h.normalizer d)) (detection_saved job_id) v k in
      let (r_ok, same) = detection_saved-ok job_id r x w' k2 in
      let ran = attempt-eq-ok (save_detection_results h.normalizer d) v e2 in
      let c =
        transaction-ok (detection_statements h.normalizer d) v w' (ran ∙ λ i. (r_ok i, same i)) in
      record {
        client = client;
        configured = configured;
        detection = d;
        job = job;
        video = refl;
        answered = answered;
        before = v.db;
        committed = c;
        completed =
            subst (λ (db : Db). All (IsCompleted d) db.sponsor_detection_jobs) (sym c.tables)
              (detection_statements-IsCompleted h.normalizer d c.start c.end c.ran);
      }
    where
      detection_at : Time → ℕ → List LlmSponsorResult → String → Time → Detection
      detection_at start prompt_id sponsors raw end = record {
        job_id = job_id;
        video_id = p.video_id;
        prompt_id = some prompt_id;
        results = sponsors;
        raw_response = raw;
        processing_time_ms = milliseconds_since start end;
      }

      saved_at : Time → ℕ → List LlmSponsorResult → String → Time → Action (Unit {0})
      saved_at start prompt_id sponsors raw end =
          attempt
            (save_detection_results h.normalizer (detection_at start prompt_id sponsors raw end))
          >>= detection_saved job_id

  analyzed-Detected :
      (start : Time) (prompt_id : ℕ) (r : Result (List LlmSponsorResult)) (raw : String)
      (w w' : World)
      → (analyze_video_for_sponsors client p.title p.description).sponsors ≡ r
      → analyzed h p job_id start prompt_id r raw w ≡ (ok tt, w')
      → Detected h p w'
  unfolding analyzed
  analyzed-Detected start prompt_id (err e) raw w w' a q =
      absurd (fail_detection-not_ok job_id _ _ w w' q)
  analyzed-Detected start prompt_id (ok sponsors) raw w w' a q =
      save_analysis-Detected start prompt_id sponsors raw w w' a q

  prompted-Detected :
      (start : Time) (r : Result SponsorDetectionPrompt) (w w' : World)
      → prompted h client p job_id start r w ≡ (ok tt, w')
      → Detected h p w'
  unfolding prompted
  prompted-Detected start (err e) w w' q = absurd (fail_detection-not_ok job_id _ _ w w' q)
  prompted-Detected start (ok prompt) w w' q = analyzed-Detected start prompt.id _ _ w w' refl q

detect_with-Detected :
    (h : SponsorDetector) (o : Option OllamaClient) (p : SponsorDetectionPayload) (job_id : ℕ)
    (w w' : World)
    → h.ollama ≡ o
    → h.parse_uuid p.detection_job_id ≡ ok job_id
    → detect_with h o p job_id w ≡ (ok tt, w')
    → Detected h p w'
unfolding detect_with
detect_with-Detected h none p job_id w w' c j q = absurd (fail_detection-not_ok job_id _ _ w w' q)
detect_with-Detected h (some client) p job_id w w' c j q =
    let create =
      get_or_create_prompt h.hash (get_prompt_text p.title p.description) "v1.0"
        "Initial sponsor detection prompt" in
    let (start, v, e, k) =
      bind-eq-ok now (λ start. attempt create >>= prompted h client p job_id start) w q in
    let (r, x, e2, k2) = bind-eq-ok (attempt create) (prompted h client p job_id start) v k in
    prompted-Detected h client c p job_id j start r x w' k2

-- A sponsor detection task with a description that ends without an error has detected, whatever calls have
-- failed on the way: a language model is configured and has answered, the statements that record its
-- results have all run without an error and are committed as one, and the job of the task, if there is one,
-- is completed with the number of the results.
pub handle_sponsor_detection_task-Detected :
    (h : SponsorDetector) (p : SponsorDetectionPayload) (w w' : World)
    → (p.description == "") ≡ false
    → handle_sponsor_detection_task h (ok p) w ≡ (ok tt, w')
    → Detected h p w'
unfolding handle_sponsor_detection_task detect_for_payload context lift ◌>>=◌
handle_sponsor_detection_task-Detected h p w w' d q =
    let asked = context "invalid detection job ID" (lift (h.parse_uuid p.detection_job_id)) in
    let g : (asked >>= detect_with h h.ollama p) w ≡ (ok tt, w') = simp d at q in
    let (job_id, x, e, k) = bind-eq-ok asked (detect_with h h.ollama p) w g in
    let parsed =
      context-eq-ok "invalid detection job ID" (lift (h.parse_uuid p.detection_job_id)) w e in
    detect_with-Detected h h.ollama p job_id x w' refl (ap (λ x. x.0) parsed) k
