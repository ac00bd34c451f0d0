-- ===== src/Webhook/Delivery.antt =====
-- What a notification that the service has acknowledged has left behind.
use youtube_webhook_ingestio.Base.{
  is_member, String, ◌≡◌, refl, sym, ap, subst, arith, ◌∙◌, inl, inr, Bool, true, false, Bool-cases,
}
use youtube_webhook_ingestio.World.{World, Fault, served, refused, lost}
use youtube_webhook_ingestio.World.Action.{
  Result, ok, err, context, remote, answer, next_fault, later_faults,
}
use youtube_webhook_ingestio.Http.{Request, respond, on_result}
use youtube_webhook_ingestio.Blocked.{sis_member, is_blocked}
use youtube_webhook_ingestio.Parser.{VideoData, parse_atom_feed}
use youtube_webhook_ingestio.Processor.{EventProcessor, process_event}
use youtube_webhook_ingestio.Processor.Duplicates.{IsDuplicate}
use youtube_webhook_ingestio.Processor.Success.{Recorded, process_event-ok}
use youtube_webhook_ingestio.Webhook.Signature.{signature_of, verify_signature_iff}
use youtube_webhook_ingestio.Webhook.{
  WebhookHandler, status_ok, processed_response, process, unless_blocked, check_blocked, accept,
  receive, handle_notification, serve_http, verify_signature,
}

-- The look-up in the cache answers for the set, if it answers, and changes nothing.
record Asked (video_id : String) (w : World) (r : Result Bool) (v : World) : Type 0 where
  used : v ≡ record w { faults = later_faults w.faults }
  yes : r ≡ ok true → is_member video_id w.blocked_set ≡ true

ask_answer :
    (f : Fault) (video_id : String) (w : World)
    → Asked video_id w
        (context "failed to check if video is blocked"
          (answer f (sis_member video_id))
          (record w { faults = later_faults w.faults })).0
        (context "failed to check if video is blocked"
          (answer f (sis_member video_id))
          (record w { faults = later_faults w.faults })).1
unfolding answer sis_member context
ask_answer served video_id w = record { used = refl; yes = λ q. ground arith }
ask_answer (refused t) video_id w = record { used = refl; yes = λ q. cc }
ask_answer (lost t) video_id w = record { used = refl; yes = λ q. cc }

is_blocked-Asked :
    (video_id : String) (w : World)
    → Asked video_id w (is_blocked video_id w).0 (is_blocked video_id w).1
unfolding is_blocked remote context
is_blocked-Asked video_id w = ask_answer (next_fault w.faults) video_id w

-- The world without the first fault of the environment has the same tables and queue.
Recorded-after_call :
    (p : EventProcessor) (raw_xml : String) (d : VideoData) (w w' : World)
    → Recorded p raw_xml d (record w { faults = later_faults w.faults }) w'
    → Recorded p raw_xml d w w'
Recorded-after_call p raw_xml d w w' r = record {
  event = r.event;
  stored = r.stored;
  raw = r.raw;
  processed = r.processed;
  no_error = r.no_error;
  video = r.video;
  other_videos = r.other_videos;
  channel = r.channel;
  history = r.history;
  tasks = r.tasks;
}

-- The video is blocked, and the tables and the queue are as they were.
pub record Ignored (h : WebhookHandler) (d : VideoData) (w w' : World) : Type 0 where
  pub cached : h.has_cache ≡ true
  pub blocked : is_member d.video_id w.blocked_set ≡ true
  pub db : w'.db ≡ w.db
  pub tasks : w'.tasks ≡ w.tasks

serve_http-of_post :
    (h : WebhookHandler) (r : Request) (body : String) (w : World)
    → r.method ≡ "POST"
    → r.body ≡ ok body
    → serve_http h r w ≡ accept h body (verify_signature h (r.header "X-Hub-Signature") body) w
unfolding serve_http handle_notification receive
serve_http-of_post h r body w m b = simp (m, b) refl

-- What an acknowledged notification of a video comes to.
pub data Handled (h : WebhookHandler) (raw_xml : String) (d : VideoData) (w w' : World)
    : Type 0 where
  duplicate :
      IsDuplicate (h.processor.externals.content_hash raw_xml) w w' → Handled h raw_xml d w w'
  recorded : Recorded h.processor raw_xml d w w' → Handled h raw_xml d w w'
  ignored : Ignored h d w w' → Handled h raw_xml d w w'

processed-status : (r : Result (Unit {0})) → (processed_response r).status ≡ 200 → r ≡ ok tt
unfolding processed_response
processed-status (ok a) q = refl
processed-status (err e) q = absurd (ground arith)

process-ok :
    (h : WebhookHandler) (raw_xml : String) (w : World)
    → (process h raw_xml w).0.status ≡ 200
    → process_event h.processor raw_xml w ≡ (ok tt, (process h raw_xml w).1)
unfolding process on_result respond
process-ok h raw_xml w q = λ i. (
  processed-status (process_event h.processor raw_xml w).0 q i,
  (process_event h.processor raw_xml w).1,
)

process-Handled :
    (h : WebhookHandler) (raw_xml : String) (d : VideoData) (w : World)
    → parse_atom_feed h.processor.externals.unmarshal raw_xml ≡ ok d
    → d.is_deleted ≡ false
    → (process h raw_xml w).0.status ≡ 200
    → Handled h raw_xml d w (process h raw_xml w).1
process-Handled h raw_xml d w a b q =
    elim (process_event-ok h.processor raw_xml d w (process h raw_xml w).1 a b
      (process-ok h raw_xml w q)) [ inl x ↦ duplicate x | inr x ↦ recorded x ]

Handled-after_call :
    (h : WebhookHandler) (raw_xml : String) (d : VideoData) (w w' : World)
    → Handled h raw_xml d (record w { faults = later_faults w.faults }) w'
    → Handled h raw_xml d w w'
Handled-after_call h raw_xml d w w' (duplicate x) =
    duplicate (record { present = x.present; db = x.db; tasks = x.tasks })
Handled-after_call h raw_xml d w w' (recorded x) =
    recorded (Recorded-after_call h.processor raw_xml d w w' x)
Handled-after_call h raw_xml d w w' (ignored x) =
    ignored (record { cached = x.cached; blocked = x.blocked; db = x.db; tasks = x.tasks })

unless_blocked-Handled :
    (h : WebhookHandler) (raw_xml : String) (d : VideoData) (w v : World) (r : Result Bool)
    → h.has_cache ≡ true
    → parse_atom_feed h.processor.externals.unmarshal raw_xml ≡ ok d
    → d.is_deleted ≡ false
    → Asked d.video_id w r v
    → (unless_blocked h raw_xml r v).0.status ≡ 200
    → Handled h raw_xml d w (unless_blocked h raw_xml r v).1
unfolding unless_blocked respond
unless_blocked-Handled h raw_xml d w v (ok true) c a b k q = ignored (record {
  cached = c;
  blocked = k.yes refl;
  db = ap (λ x. x.db) k.used;
  tasks = ap (λ x. x.tasks) k.used;
})
unless_blocked-Handled h raw_xml d w v (ok false) c a b k q = Handled-after_call h raw_xml d w _ (
    subst (λ x. Handled h raw_xml d x (process h raw_xml v).1) k.used
      (process-Handled h raw_xml d v a b q))
unless_blocked-Handled h raw_xml d w v (err e) c a b k q = Handled-after_call h raw_xml d w _ (
    subst (λ x. Handled h raw_xml d x (process h raw_xml v).1) k.used
      (process-Handled h raw_xml d v a b q))

accept-cached :
    (h : WebhookHandler) (raw_xml : String) (d : VideoData) (w : World)
    → h.has_cache ≡ true
    → parse_atom_feed h.processor.externals.unmarshal raw_xml ≡ ok d
    → accept h raw_xml (ok tt) w
      ≡ unless_blocked h raw_xml (is_blocked d.video_id w).0 (is_blocked d.video_id w).1
unfolding accept check_blocked on_result respond
accept-cached h raw_xml d w c a = simp (c, a) refl

accept-uncached :
    (h : WebhookHandler) (raw_xml : String) (w : World)
    → h.has_cache ≡ false
    → accept h raw_xml (ok tt) w ≡ process h raw_xml w
unfolding accept
accept-uncached h raw_xml w c = simp c refl

accept-Handled :
    (h : WebhookHandler) (raw_xml : String) (d : VideoData) (w : World) (r : Result (Unit {0}))
    → parse_atom_feed h.processor.externals.unmarshal raw_xml ≡ ok d
    → d.is_deleted ≡ false
    → (accept h raw_xml r w).0.status ≡ 200
    → Handled h raw_xml d w (accept h raw_xml r w).1
unfolding accept respond
accept-Handled h raw_xml d w (err e) a b q = absurd (ground arith)
accept-Handled h raw_xml d w (ok x) a b q = elim (Bool-cases h.has_cache) [
  | inl c ↦
      let e = accept-cached h raw_xml d w c a in
      subst (λ y. Handled h raw_xml d w y.1) (sym e)
        (unless_blocked-Handled h raw_xml d w (is_blocked d.video_id w).1
          (is_blocked d.video_id w).0 c a b (is_blocked-Asked d.video_id w)
          (subst (λ y. y.0.status ≡ 200) e q))
  | inr c ↦
      let e = accept-uncached h raw_xml w c in
      subst (λ y. Handled h raw_xml d w y.1) (sym e)
        (process-Handled h raw_xml d w a b (subst (λ y. y.0.status ≡ 200) e q))
]

-- If a POST whose body the parser reads as a video, which is not deleted, is answered by 200, then,
-- whatever calls the environment has refused or lost the answers of, one of three holds: an event
-- with the content hash of the body was already stored, and the tables and the queue are as they
-- were; or the event, the rows of the video and its channel, one row of history and at most one
-- task are recorded; or there is a cache, the video is in its set, and the tables and the queue are
-- as they were.
pub serve_http-acknowledged :
    (h : WebhookHandler) (r : Request) (raw_xml : String) (d : VideoData) (w : World)
    → r.method ≡ "POST"
    → r.body ≡ ok raw_xml
    → parse_atom_feed h.processor.externals.unmarshal raw_xml ≡ ok d
    → d.is_deleted ≡ false
    → (serve_http h r w).0.status ≡ 200
    → Handled h raw_xml d w (serve_http h r w).1
serve_http-acknowledged h r raw_xml d w m b a n q =
    let e = serve_http-of_post h r raw_xml w m b in
    subst (λ y. Handled h raw_xml d w y.1) (sym e)
      (accept-Handled h raw_xml d w _ a n (subst (λ y. y.0.status ≡ 200) e q))

-- If there is a cache, the call of it is served, and the video of a signed POST is in its set, then the
-- answer is 200 and nothing else changes: not the tables, the queue, the set nor the clock.
pub serve_http-blocked :
    (h : WebhookHandler) (r : Request) (raw_xml : String) (d : VideoData) (w : World)
    → r.method ≡ "POST"
    → r.body ≡ ok raw_xml
    → r.header "X-Hub-Signature" ≡ signature_of h raw_xml
    → parse_atom_feed h.processor.externals.unmarshal raw_xml ≡ ok d
    → h.has_cache ≡ true
    → next_fault w.faults ≡ served
    → is_member d.video_id w.blocked_set ≡ true
    → serve_http h r w ≡ (status_ok, record w { faults = later_faults w.faults })
unfolding is_blocked sis_member remote answer context unless_blocked respond
serve_http-blocked h r raw_xml d w m b g a c f k =
    serve_http-of_post h r raw_xml w m b
    ∙ ap (λ x. accept h raw_xml x w)
        ((verify_signature_iff h (r.header "X-Hub-Signature") raw_xml).1 g)
    ∙ accept-cached h raw_xml d w c a
    ∙ simp (f, k) refl
