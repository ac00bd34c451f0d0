-- ===== src/Tests/Sponsors.antt =====
-- Runs of the sponsor detection.
use youtube_webhook_ingestio.Base.{pos, none, some, [], ◌∷◌, ◌≡◌, refl, List, ◌==◌, if◌then◌else◌}
use youtube_webhook_ingestio.Errors.{plain}
use youtube_webhook_ingestio.Models.Sponsor.{LlmSponsorResult}
use youtube_webhook_ingestio.World.{World, SponsorDetectionPayload}
use youtube_webhook_ingestio.World.Action.{ok, err}
use youtube_webhook_ingestio.Ollama.{OllamaClient, analyze_video_for_sponsors}
use youtube_webhook_ingestio.Ollama.Confidence.{AreStorable, analyze_video_for_sponsors-AreStorable}
use youtube_webhook_ingestio.Repository.SponsorLinks.{create_detection_job}
use youtube_webhook_ingestio.Repository.Detection.{Normalizer}
use youtube_webhook_ingestio.Repository.Detection.Results.{Detection, save_detection_results}
use youtube_webhook_ingestio.Repository.Detection.Sponsors.{IsSound}
use youtube_webhook_ingestio.Repository.Detection.Counts.{save_detection_results-IsSound}
use youtube_webhook_ingestio.Queue.SponsorWorker.{
  SponsorDetector, handle_sponsor_detection_task, pending_detection,
}
use youtube_webhook_ingestio.Queue.SponsorWorker.Detected.{
  Detected, handle_sponsor_detection_task-Detected,
}
use youtube_webhook_ingestio.Queue.SponsorWorker.Untracked.{handle_sponsor_detection_task-untracked}
use youtube_webhook_ingestio.Tests.Enrichment.{queued}
use youtube_webhook_ingestio.Ollama.{
  analyze_answer, analyze_body, analyze_reply, analyze_text, send_marshalled, send_request,
}
use youtube_webhook_ingestio.Queue.SponsorWorker.{
  detect_for_payload, detect_with, prompted, analyzed, save_analysis, detection_saved,
}
use youtube_webhook_ingestio.World.Action.{context, attempt, lift, pure, remote, now, ◌>>=◌}
use youtube_webhook_ingestio.Repository.Statement.{statement}
use youtube_webhook_ingestio.Repository.Prompts.{get_or_create_prompt, prompt_or_new, insert_prompt}
use youtube_webhook_ingestio.Table.{find}
use youtube_webhook_ingestio.Ollama.{get_prompt_text}
use youtube_webhook_ingestio.Repository.Transaction.{transaction, run_statements, settle}
use youtube_webhook_ingestio.Repository.Detection.{
  select_sponsor, insert_named_sponsor, update_sponsor, insert_link, find_link, find_sponsor,
  find_detection_job, recount, linked_videos,
}
use youtube_webhook_ingestio.Repository.Detection.Results.{
  detection_statements, rounds_and_finish, finish, save_results, save_result,
  find_or_create_sponsor, link_sponsor, sponsor_id_of, change_detection_job, update_detection_job,
  find_prompt, count_use_in_transaction, count_prompt_use, use_prompt,
}
use youtube_webhook_ingestio.Repository.SponsorLinks.{insert_detection_job}
use youtube_webhook_ingestio.Repository.Enrichments.{count_distinct}

abbrev normalizer : Normalizer
normalizer = record { to_lower = λ s. if s == "NordVPN" then "nordvpn" else s; trim_space = λ s. s }

-- twice the same sponsor
abbrev results : List LlmSponsorResult
results =
    (record { name = "NordVPN"; confidence = pos 9500; evidence = "sponsored by NordVPN" })
    ∷ (record { name = "nordvpn"; confidence = pos 12000; evidence = "nordvpn.com" })
    ∷ []

abbrev client : OllamaClient
client = record {
  api = record {
    marshal = λ r. ok r.prompt;
    new_request = λ url. ok tt;
    send = λ url headers body. ok (record { status_code = 200; body = ok "{}"; read = "" });
    parse_reply = λ s. ok s;
    parse_analysis = λ s. ok results;
    trim_space = λ s. s;
  };
  base_url = "http://localhost:11434";
  model = "llama3:8b";
  api_key = "";
}

abbrev storable : List LlmSponsorResult
storable =
    (record { name = "NordVPN"; confidence = pos 9500; evidence = "sponsored by NordVPN" })
    ∷ (record { name = "nordvpn"; confidence = pos 10000; evidence = "nordvpn.com" })
    ∷ []

analyze_video_for_sponsors-AreStorable_example : AreStorable storable
unfolding analyze_video_for_sponsors send_marshalled send_request analyze_answer analyze_body
    analyze_reply analyze_text
analyze_video_for_sponsors-AreStorable_example =
    analyze_video_for_sponsors-AreStorable client "" "A description" storable refl

-- the video of the task, and a pending job
abbrev described : World
described = (create_detection_job (pending_detection "llama3:8b" "dQw4w9WgXcQ") queued).1

abbrev detection : Detection
detection = record {
  job_id = 1;
  video_id = "dQw4w9WgXcQ";
  prompt_id = none;
  results = storable;
  raw_response = "{}";
  processing_time_ms = 3000;
}

abbrev no_sponsors : IsSound queued.db
no_sponsors = record { distinct = tt; known = tt; linked = tt; counted = tt }

save_detection_results-IsSound_example :
    IsSound (save_detection_results normalizer detection queued).1.db
save_detection_results-IsSound_example =
    save_detection_results-IsSound normalizer detection queued no_sponsors

abbrev detector : SponsorDetector
detector = record {
  ollama = some client;
  normalizer = normalizer;
  hash = λ s. "hash";
  parse_uuid = λ s. if s == "1" then ok 1 else err (plain "invalid UUID");
}

abbrev payload : SponsorDetectionPayload
payload = record {
  video_id = "dQw4w9WgXcQ";
  title = "";
  description = "A description";
  detection_job_id = "1";
  metadata = [];
}

handle_sponsor_detection_task-untracked_example :
    (handle_sponsor_detection_task detector (ok payload) described).1.db.enrichment_jobs
    ≡ described.db.enrichment_jobs
handle_sponsor_detection_task-untracked_example =
    handle_sponsor_detection_task-untracked detector (ok payload) described

handle_sponsor_detection_task-Detected_example :
    Detected detector payload (handle_sponsor_detection_task detector (ok payload) described).1
unfolding handle_sponsor_detection_task detect_for_payload detect_with prompted analyzed
    save_analysis detection_saved context attempt lift pure remote now ◌>>=◌ statement
    get_or_create_prompt prompt_or_new insert_prompt find analyze_video_for_sponsors send_marshalled
    send_request analyze_answer analyze_body analyze_reply analyze_text get_prompt_text transaction
    run_statements settle select_sponsor insert_named_sponsor update_sponsor insert_link find_link
    find_sponsor find_detection_job recount linked_videos save_detection_results
    detection_statements rounds_and_finish finish save_results save_result find_or_create_sponsor
    link_sponsor sponsor_id_of change_detection_job update_detection_job find_prompt
    count_use_in_transaction count_prompt_use use_prompt create_detection_job insert_detection_job
    count_distinct
handle_sponsor_detection_task-Detected_example =
    handle_sponsor_detection_task-Detected detector payload described
      (handle_sponsor_detection_task detector (ok payload) described).1 refl refl
