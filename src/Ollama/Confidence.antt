-- ===== src/Ollama/Confidence.antt =====
-- The confidences of an analysis are those that the table takes.
use youtube_webhook_ingestio.Base.{
  ℤ, pos, negsuc, String, true, ◌≡◌, refl, subst, List, [], ◌∷◌, map, All, eqb, Bool-cases, inl,
  inr, arith,
}
use youtube_webhook_ingestio.Models.Sponsor.{LlmSponsorResult}
use youtube_webhook_ingestio.World.Action.{Result, ok, err}
use youtube_webhook_ingestio.World.Yields.{ok-injective}
use youtube_webhook_ingestio.Repository.Detection.{is_confidence}
use youtube_webhook_ingestio.Ollama.{
  Reply, OllamaClient, Analysis, clamped, with_clamped_confidence, analyze_text, analyze_reply,
  analyze_body, analyze_answer, send_request, send_marshalled, analyze_video_for_sponsors,
}

-- Every sponsor has a confidence that video_sponsors takes.
abbrev pub AreStorable : List LlmSponsorResult → Type 0
AreStorable = All (λ r. is_confidence r.confidence ≡ true)

clamped-is_confidence : (c : ℤ) → is_confidence (clamped c) ≡ true
clamped-is_confidence (negsuc n) = refl
clamped-is_confidence (pos n) = ground arith

clamped-AreStorable :
    (rows : List LlmSponsorResult) → AreStorable (map with_clamped_confidence rows)
clamped-AreStorable [] = tt
clamped-AreStorable (r ∷ rows) = (clamped-is_confidence r.confidence, clamped-AreStorable rows)

-- what holds of an analysis that has sponsors
abbrev Storable : Analysis → Type 0
Storable a = (rows : List LlmSponsorResult) → a.sponsors ≡ ok rows → AreStorable rows

analyze_text-Storable :
    (raw : String) (r : Result (List LlmSponsorResult)) → Storable (analyze_text raw r)
unfolding analyze_text
analyze_text-Storable raw (err e) rows h = absurd (ground arith)
analyze_text-Storable raw (ok sponsors) rows h =
    subst AreStorable (ok-injective _ _ h) (clamped-AreStorable sponsors)

analyze_reply-Storable : (c : OllamaClient) (r : Result String) → Storable (analyze_reply c r)
unfolding analyze_reply
analyze_reply-Storable c (err e) rows h = absurd (ground arith)
analyze_reply-Storable c (ok response) rows h = analyze_text-Storable _ _ rows h

analyze_body-Storable : (c : OllamaClient) (r : Result String) → Storable (analyze_body c r)
unfolding analyze_body
analyze_body-Storable c (err e) rows h = absurd (ground arith)
analyze_body-Storable c (ok body) rows h = analyze_reply-Storable c _ rows h

analyze_answer-Storable : (c : OllamaClient) (r : Result Reply) → Storable (analyze_answer c r)
unfolding analyze_answer
analyze_answer-Storable c (err e) rows h = absurd (ground arith)
analyze_answer-Storable c (ok reply) rows h = elim (Bool-cases (eqb reply.status_code 200)) [
  | inl q ↦ analyze_body-Storable c reply.body rows (simp q at h)
  | inr q ↦ absurd (ground (arith, simp q at h))
]

send_request-Storable :
    (c : OllamaClient) (body : String) (r : Result (Unit {0})) → Storable (send_request c body r)
unfolding send_request
send_request-Storable c body (err e) rows h = absurd (ground arith)
send_request-Storable c body (ok a) rows h = analyze_answer-Storable c _ rows h

send_marshalled-Storable : (c : OllamaClient) (r : Result String) → Storable (send_marshalled c r)
unfolding send_marshalled
send_marshalled-Storable c (err e) rows h = absurd (ground arith)
send_marshalled-Storable c (ok body) rows h = send_request-Storable c body _ rows h

-- Whatever the language model answers, each sponsor that AnalyzeVideoForSponsors returns has a confidence
-- between 0 and 1, which is what the check of video_sponsors wants.
pub analyze_video_for_sponsors-AreStorable :
    (c : OllamaClient) (title description : String) (rows : List LlmSponsorResult)
    → (analyze_video_for_sponsors c title description).sponsors ≡ ok rows
    → AreStorable rows
unfolding analyze_video_for_sponsors
analyze_video_for_sponsors-AreStorable c title description rows h =
    send_marshalled-Storable c _ rows h
