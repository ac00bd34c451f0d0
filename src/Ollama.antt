-- ===== src/Ollama.antt =====
-- internal/service/ollama/client.go. The HTTP client, encoding/json and strings.TrimSpace are parameters; a
-- confidence is a number of ten-thousandths, as in the table.
pub mod Confidence
use Prim.Native.String.{◌++◌ as ◌<>◌}
use youtube_webhook_ingestio.Base.{
  ℕ, ℤ, pos, negsuc, String, Bool, true, false, List, [], ◌∷◌, ◌++◌, map, not, ◌==◌, eqb, leb,
  if◌then◌else◌,
}
use youtube_webhook_ingestio.Base.Decimal.{itoa}
use youtube_webhook_ingestio.Errors.{Error, plain, wrapped}
use youtube_webhook_ingestio.Models.Sponsor.{LlmSponsorResult}
use youtube_webhook_ingestio.World.Action.{Result, ok, err}

-- ollamaGenerateRequest
pub record GenerateRequest : Type 0 where
  pub model : String
  pub prompt : String
  pub format : String
  pub stream : Bool

pub record Reply : Type 0 where
  pub status_code : ℕ
  -- what io.ReadAll returns, and the bytes that it has read before an error
  pub body : Result String
  pub read : String

pub record OllamaApi : Type 0 where
  pub marshal : GenerateRequest → Result String
  pub new_request : String → Result (Unit {0})
  -- the URL, the headers and the body
  pub send : String → List (String × String) → String → Result Reply
  -- the field `response` of an ollamaGenerateResponse
  pub parse_reply : String → Result String
  -- the sponsors of an LLMAnalysisResponse
  pub parse_analysis : String → Result (List LlmSponsorResult)
  pub trim_space : String → String

-- Client, less its timeout
pub record OllamaClient : Type 0 where
  pub api : OllamaApi
  pub base_url : String
  pub model : String
  pub api_key : String

-- buildSponsorDetectionPrompt
unfoldable pub build_sponsor_detection_prompt : String → String → String
build_sponsor_detection_prompt title description =
    "You are analyzing a YouTube video to identify sponsors or brand deals mentioned in the title or description.\n\nVideo Title: "
    <> title <> "\n\nVideo Description:\n" <> description
    <> "\n\nIdentify any sponsors, brand partnerships, or promotional content. For each sponsor found, provide:\n"
    <> "1. name: The brand or sponsor name (e.g., \"NordVPN\", \"Skillshare\", \"Squarespace\")\n"
    <> "2. confidence: A score from 0.0 to 1.0 indicating how confident you are this is a sponsor (1.0 = definitely a sponsor, 0.5 = possibly a sponsor, use your judgment)\n"
    <> "3. evidence: A direct quote from the title or description that indicates sponsorship (e.g., mention of promo codes, affiliate links, \"sponsored by\", \"brought to you by\", etc.)\n\n"
    <> "Look for common sponsorship indicators:\n"
    <> "- Promo codes or discount codes (e.g., \"Use code CREATOR20\")\n"
    <> "- Affiliate links or special URLs\n"
    <> "- Phrases like \"This video is sponsored by...\", \"Thanks to X for sponsoring...\", \"Brought to you by...\"\n"
    <> "- References to free trials, discounts, or special offers\n" <> "- Partnership mentions\n\n"
    <> "Return your response as JSON in this exact format:\n{\n  \"sponsors\": [\n"
    <> "    {\"name\": \"BrandName\", \"confidence\": 0.95, \"evidence\": \"quote from description\"},\n"
    <> "    {\"name\": \"AnotherBrand\", \"confidence\": 0.87, \"evidence\": \"another quote\"}\n  ]\n}\n\n"
    <> "If no sponsors are detected, return:\n{\n  \"sponsors\": []\n}\n\n"
    <> "Only return the JSON, no additional text or explanation."

-- GetPromptText
unfoldable pub get_prompt_text : String → String → String
get_prompt_text title description = build_sponsor_detection_prompt title description

-- The two tests of the loop that validates the confidences
abbrev pub clamped : ℤ → ℤ
clamped (negsuc n) = pos 0
clamped (pos n) = if leb n 10000 then pos n else pos 10000

abbrev pub with_clamped_confidence : LlmSponsorResult → LlmSponsorResult
with_clamped_confidence r = record r { confidence = clamped r.confidence }

-- The sponsors, the text that the model has answered, and the error, which may come beside the text
pub record Analysis : Type 0 where
  pub sponsors : Result (List LlmSponsorResult)
  pub raw_response : String

abbrev pub no_analysis : Error → Analysis
no_analysis e = record { sponsors = err e; raw_response = "" }

unfoldable pub analyze_text : String → Result (List LlmSponsorResult) → Analysis
analyze_text raw (err e) = record {
  sponsors = err (wrapped "parse LLM JSON response: " e (" (raw: " <> raw <> ")"));
  raw_response = raw;
}
analyze_text raw (ok sponsors) = record {
  sponsors = ok (map with_clamped_confidence sponsors);
  raw_response = raw;
}

unfoldable pub analyze_reply : OllamaClient → Result String → Analysis
analyze_reply c (err e) = no_analysis (wrapped "parse Ollama response: " e "")
analyze_reply c (ok response) =
    let raw = c.api.trim_space response in analyze_text raw (c.api.parse_analysis raw)

unfoldable pub analyze_body : OllamaClient → Result String → Analysis
analyze_body c (err e) = no_analysis (wrapped "read response body: " e "")
analyze_body c (ok body) = analyze_reply c (c.api.parse_reply body)

unfoldable pub analyze_answer : OllamaClient → Result Reply → Analysis
analyze_answer c (err e) = no_analysis (wrapped "send request to Ollama: " e "")
analyze_answer c (ok reply) =
    if eqb reply.status_code 200
    then analyze_body c reply.body
    else no_analysis
        (plain ("ollama API returned status " <> itoa reply.status_code <> ": " <> reply.read))

-- `req.Header`
abbrev pub headers : OllamaClient → List (String × String)
headers c =
    ("Content-Type", "application/json")
    ∷ (if c.api_key == "" then [] else ("Authorization", "Bearer " <> c.api_key) ∷ [])

unfoldable pub send_request : OllamaClient → String → Result (Unit {0}) → Analysis
send_request c body (err e) = no_analysis (wrapped "create request: " e "")
send_request c body (ok a) =
    analyze_answer c (c.api.send (c.base_url <> "/api/generate") (headers c) body)

unfoldable pub send_marshalled : OllamaClient → Result String → Analysis
send_marshalled c (err e) = no_analysis (wrapped "marshal request: " e "")
send_marshalled c (ok body) =
    send_request c body (c.api.new_request (c.base_url <> "/api/generate"))

-- AnalyzeVideoForSponsors
unfoldable pub analyze_video_for_sponsors : OllamaClient → String → String → Analysis
analyze_video_for_sponsors c title description = send_marshalled c (
    c.api.marshal (record {
      model = c.model;
      prompt = build_sponsor_detection_prompt title description;
      format = "json";
      stream = false;
    }))
