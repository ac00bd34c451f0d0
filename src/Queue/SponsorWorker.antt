-- ===== src/Queue/SponsorWorker.antt =====
-- internal/queue/handler.go: the handler of sponsor detection tasks, and the callback of cmd/enricher/main.go
-- that enqueues them. uuid.Parse, the text of a UUID and SHA-256 are parameters.
pub mod Completed
pub mod Detected
pub mod Untracked
use Prim.Native.String.{◌++◌ as ◌<>◌}
use youtube_webhook_ingestio.Base.{
  ℕ, ◌-◌, ◌*◌, String, Bool, true, false, Option, none, some, List, [], ◌∷◌, ◌==◌, if◌then◌else◌,
}
use youtube_webhook_ingestio.Errors.{Error, plain, wrapped, error_text}
use youtube_webhook_ingestio.Models.{Time}
use youtube_webhook_ingestio.Models.Enrichment.{VideoEnrichment}
use youtube_webhook_ingestio.Models.Sponsor.{
  SponsorDetectionPrompt, SponsorDetectionJob, LlmSponsorResult,
}
use youtube_webhook_ingestio.World.{SponsorDetectionPayload}
use youtube_webhook_ingestio.World.Action.{
  Result, ok, err, Action, pure, fail, lift, attempt, context, now, ◌>>=◌, ◌>>◌,
}
use youtube_webhook_ingestio.Externals.{Externals}
use youtube_webhook_ingestio.Ollama.{
  OllamaClient, Analysis, get_prompt_text, analyze_video_for_sponsors,
}
use youtube_webhook_ingestio.Repository.Detection.{Normalizer}
use youtube_webhook_ingestio.Repository.Detection.Results.{Detection, save_detection_results}
use youtube_webhook_ingestio.Repository.Prompts.{get_or_create_prompt}
use youtube_webhook_ingestio.Repository.SponsorLinks.{
  create_detection_job, update_detection_job_status,
}
use youtube_webhook_ingestio.Queue.Others.{enqueue_sponsor_detection}
use youtube_webhook_ingestio.Queue.Worker.{EnrichmentCallback, register_callback}

-- EnrichmentHandler, with what sponsor detection uses of it, after SetSponsorDetection has set the repository.
-- `ollama` is `none` where the client that it was given is nil or is no such client.
pub record SponsorDetector : Type 0 where
  pub ollama : Option OllamaClient
  pub normalizer : Normalizer
  pub hash : String → String
  pub parse_uuid : String → Result ℕ

-- UpdateDetectionJobStatus, whose error is dropped
unfoldable pub mark_detection : ℕ → String → String → Action (Unit {0})
unfolding ◌>>=◌ pure
mark_detection id status message =
    attempt (update_detection_job_status id status (some message)) >> pure tt

-- The job is marked as failed with a message, and the error is returned.
unfoldable pub fail_detection : {A : Type 0} → ℕ → String → Error → Action A
unfolding ◌>>=◌
fail_detection id message e = mark_detection id "failed" message >> fail e

unfoldable pub detection_saved : ℕ → Result (Unit {0}) → Action (Unit {0})
unfolding pure
detection_saved job_id (ok a) = pure tt
detection_saved job_id (err e) =
    fail_detection job_id ("failed to save detection results: " <> error_text e)
      (wrapped "failed to save detection results: " e "")

-- `int(time.Since(startTime).Milliseconds())`, on a clock of seconds
abbrev pub milliseconds_since : Time → Time → ℕ
milliseconds_since start end = (end - start) * 1000

unfoldable pub save_analysis :
    SponsorDetector
    → SponsorDetectionPayload
    → ℕ
    → Time
    → ℕ
    → List LlmSponsorResult
    → String
    → Action (Unit {0})
unfolding ◌>>=◌
save_analysis h payload job_id start prompt_id sponsors raw = do
  end ← now
  saved ← attempt (
      save_detection_results h.normalizer (record {
        job_id = job_id;
        video_id = payload.video_id;
        prompt_id = some prompt_id;
        results = sponsors;
        raw_response = raw;
        processing_time_ms = milliseconds_since start end;
      }))
  detection_saved job_id saved

unfoldable pub analyzed :
    SponsorDetector
    → SponsorDetectionPayload
    → ℕ
    → Time
    → ℕ
    → Result (List LlmSponsorResult)
    → String
    → Action (Unit {0})
analyzed h payload job_id start prompt_id (err e) raw =
    fail_detection job_id (error_text e) (wrapped "failed to analyze video for sponsors: " e "")
analyzed h payload job_id start prompt_id (ok sponsors) raw =
    save_analysis h payload job_id start prompt_id sponsors raw

unfoldable pub prompted :
    SponsorDetector
    → OllamaClient
    → SponsorDetectionPayload
    → ℕ
    → Time
    → Result SponsorDetectionPrompt
    → Action (Unit {0})
prompted h client payload job_id start (err e) =
    fail_detection job_id ("failed to get/create prompt: " <> error_text e)
      (wrapped "failed to get/create prompt: " e "")
prompted h client payload job_id start (ok prompt) =
    let analysis = analyze_video_for_sponsors client payload.title payload.description in
    analyzed h payload job_id start prompt.id analysis.sponsors analysis.raw_response

unfoldable pub detect_with :
    SponsorDetector → Option OllamaClient → SponsorDetectionPayload → ℕ → Action (Unit {0})
unfolding ◌>>=◌
detect_with h none payload job_id =
    fail_detection job_id "ollama client not configured" (plain "ollama client not configured")
detect_with h (some client) payload job_id = do
  start ← now
  prompt ← attempt (
      get_or_create_prompt h.hash (get_prompt_text payload.title payload.description) "v1.0"
        "Initial sponsor detection prompt")
  prompted h client payload job_id start prompt

-- `if jobID, err := parseUUID(…); err == nil { … }`
unfoldable pub skip_job : Result ℕ → Action (Unit {0})
unfolding pure
skip_job (err e) = pure tt
skip_job (ok id) = mark_detection id "skipped" "No description available"

unfoldable pub skip_detection : SponsorDetector → String → Action (Unit {0})
unfolding pure
skip_detection h job_id = if job_id == "" then pure tt else skip_job (h.parse_uuid job_id)

unfoldable pub detect_for_payload : SponsorDetector → SponsorDetectionPayload → Action (Unit {0})
unfolding ◌>>=◌
detect_for_payload h payload =
    if payload.description == ""
    then skip_detection h payload.detection_job_id
    else context "invalid detection job ID" (lift (h.parse_uuid payload.detection_job_id))
      >>= detect_with h h.ollama payload

-- HandleSponsorDetectionTask, on what UnmarshalSponsorDetectionPayload returns
unfoldable pub handle_sponsor_detection_task :
    SponsorDetector → Result SponsorDetectionPayload → Action (Unit {0})
unfolding ◌>>=◌
handle_sponsor_detection_task h payload =
    context "failed to unmarshal sponsor detection payload" (lift payload) >>= detect_for_payload h

-- the job that the callback creates
abbrev pub pending_detection : String → String → SponsorDetectionJob
pending_detection llm_model video_id = record {
  id = 0;
  video_id = video_id;
  prompt_id = none;
  llm_model = llm_model;
  llm_response_raw = none;
  sponsors_detected_count = 0;
  processing_time_ms = none;
  status = "pending";
  error_message = none;
  detected_at = none;
  created_at = 0;
  updated_at = 0;
}

unfoldable pub request_detection :
    Externals → (ℕ → String) → String → String → String → Action (Unit {0})
unfolding ◌>>=◌
request_detection x uuid_text llm_model video_id description = do
  job ← create_detection_job (pending_detection llm_model video_id)
  enqueue_sponsor_detection x video_id "" description (uuid_text job.id) 0

unfoldable pub detect_if_described :
    Externals → (ℕ → String) → String → String → Option String → Action (Unit {0})
unfolding pure
detect_if_described x uuid_text llm_model video_id none = pure tt
detect_if_described x uuid_text llm_model video_id (some description) =
    if description == ""
    then pure tt
    else request_detection x uuid_text llm_model video_id description

-- the callback of registerSponsorDetectionCallback
unfoldable pub sponsor_detection_callback : Externals → (ℕ → String) → String → EnrichmentCallback
sponsor_detection_callback x uuid_text llm_model video_id channel_id enrichment =
    detect_if_described x uuid_text llm_model video_id enrichment.description

-- registerSponsorDetectionCallback, on the callbacks of a new manager
unfoldable pub sponsor_callbacks : Externals → (ℕ → String) → String → List EnrichmentCallback
sponsor_callbacks x uuid_text llm_model =
    register_callback (sponsor_detection_callback x uuid_text llm_model) []
