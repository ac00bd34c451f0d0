-- ===== src/Webhook/Signature.antt =====
-- verifySignature and what an unsigned request may do.
use Prim.Native.String.{◌++◌ as ◌<>◌}
use youtube_webhook_ingestio.Base.{
  String, ◌≡◌, ◌≢◌, ◌↔◌, refl, sym, ap, arith, ◌∙◌, true, false, inl, inr, Option, none, some, ◌==◌,
  eq_iff, Bool-cases,
}
use youtube_webhook_ingestio.Base.Text.{
  has_prefix, trim_prefix, cut_prefix, has_prefix-append, trim_prefix-append,
  eq-append_of_cut_prefix,
}
use youtube_webhook_ingestio.World.{World}
use youtube_webhook_ingestio.World.Action.{Result, ok, err}
use youtube_webhook_ingestio.Http.{Request, respond, http_error}
use youtube_webhook_ingestio.Webhook.{
  WebhookHandler, verify_signature, accept, receive, handle_notification, handle_verification,
  serve_http,
}

-- The header that the hub sends with a body under the shared secret.
abbrev pub signature_of : WebhookHandler → String → String
signature_of h body = "sha1=" <> h.processor.externals.hmac_sha1_hex h.secret body

sound :
    (h : WebhookHandler) (signature body : String) (o : Option String)
    → cut_prefix signature "sha1=" ≡ o
    → verify_signature h signature body ≡ ok tt
    → signature ≡ signature_of h body
unfolding verify_signature has_prefix trim_prefix
sound h signature body none q k = absurd (ground arith)
sound h signature body (some r) q k =
    eq-append_of_cut_prefix signature "sha1=" {r = r} q
    ∙ ap (λ x. "sha1=" <> x)
        (sym (ground (arith, eq_iff (h.processor.externals.hmac_sha1_hex h.secret body) r)))

prefix_of_empty : ¬ (true ≡ has_prefix "" "sha1=")
unfolding has_prefix
prefix_of_empty e = cc

signed-nonempty : (x : String) → (("sha1=" <> x) == "") ≡ false
signed-nonempty x = elim (Bool-cases (("sha1=" <> x) == "")) [
  | inl q ↦ absurd (
      prefix_of_empty (
        sym (has_prefix-append "sha1=" x)
        ∙ ap (λ s. has_prefix s "sha1=") ((eq_iff ("sha1=" <> x) "").0 q)))
  | inr q ↦ q
]

complete :
    (h : WebhookHandler) (body : String) → verify_signature h (signature_of h body) body ≡ ok tt
unfolding verify_signature
complete h body =
    let x = h.processor.externals.hmac_sha1_hex h.secret body in
    ground (
      arith,
      signed-nonempty x,
      has_prefix-append "sha1=" x,
      trim_prefix-append "sha1=" x,
      eq_iff x x,
    )

-- The signature check accepts exactly the header value "sha1=" followed by the HMAC of the body
-- under the handler's secret, in hexadecimal.
pub verify_signature_iff :
    (h : WebhookHandler) (signature body : String)
    → (verify_signature h signature body ≡ ok tt) ↔ (signature ≡ signature_of h body)
verify_signature_iff h signature body = (
  sound h signature body (cut_prefix signature "sha1=") refl,
  λ e. ap (λ s. verify_signature h s body) e ∙ complete h body,
)

accept-rejected :
    (h : WebhookHandler) (signature body : String) (r : Result (Unit {0})) (w : World)
    → verify_signature h signature body ≡ r
    → signature ≢ signature_of h body
    → accept h body r w ≡ (http_error "Signature verification failed" 401, w)
unfolding accept respond
accept-rejected h signature body (ok a) w q n =
    absurd (n ((verify_signature_iff h signature body).0 q))
accept-rejected h signature body (err e) w q n = refl

-- A POST whose header X-Hub-Signature is not the signature of its body is answered by 401, and the
-- world (tables, queue, cache, clock) is as it was: no call is made.
serve_http-unsigned :
    (h : WebhookHandler) (r : Request) (body : String) (w : World)
    → r.method ≡ "POST"
    → r.body ≡ ok body
    → r.header "X-Hub-Signature" ≢ signature_of h body
    → serve_http h r w ≡ (http_error "Signature verification failed" 401, w)
unfolding serve_http handle_notification receive
serve_http-unsigned h r body w m b n =
    simp (m, b) (accept-rejected h (r.header "X-Hub-Signature") body _ w refl n)

-- What a request that changes the world is: a POST with a readable body, signed with the secret.
pub record IsSigned (h : WebhookHandler) (r : Request) : Type 0 where
  pub method : r.method ≡ "POST"
  pub body : String
  pub readable : r.body ≡ ok body
  pub signed : r.header "X-Hub-Signature" ≡ signature_of h body

handle_verification-reads : (r : Request) (w : World) → (handle_verification r w).1 ≡ w
unfolding handle_verification respond
handle_verification-reads r w = ground arith

receive-IsSigned :
    (h : WebhookHandler) (r : Request) (b : Result String) (w : World)
    → r.method ≡ "POST"
    → r.body ≡ b
    → (receive h (r.header "X-Hub-Signature") b w).1 ≢ w
    → IsSigned h r
unfolding receive respond
receive-IsSigned h r (err e) w m q n = absurd (n refl)
receive-IsSigned h r (ok body) w m q n =
    elim (Bool-cases (r.header "X-Hub-Signature" == signature_of h body)) [
      | inl k ↦ record {
        method = m;
        body = body;
        readable = q;
        signed = (eq_iff (r.header "X-Hub-Signature") (signature_of h body)).0 k;
      }
      | inr k ↦ absurd (
          n (
            ap (λ x. x.1)
              (accept-rejected h (r.header "X-Hub-Signature") body _ w refl (λ e.
                ground (arith, e, eq_iff (r.header "X-Hub-Signature") (signature_of h body))))))
    ]

-- A request that changes the world in any way (the tables, the queue, the cache, or a call made)
-- is a POST whose body was read and whose header X-Hub-Signature is "sha1=" and the HMAC of the body
-- under the handler's secret.
pub serve_http-authentic :
    (h : WebhookHandler) (r : Request) (w : World) → (serve_http h r w).1 ≢ w → IsSigned h r
unfolding serve_http handle_notification respond
serve_http-authentic h r w n = elim (Bool-cases (r.method == "GET")) [
  | inl k ↦ absurd (n (simp k (handle_verification-reads r w)))
  | inr k ↦ elim (Bool-cases (r.method == "POST")) [
    | inl j ↦
        receive-IsSigned h r r.body w ((eq_iff r.method "POST").0 j) refl (λ e. n (simp (k, j) e))
    | inr j ↦ absurd (n (simp (k, j) refl))
  ]
]
