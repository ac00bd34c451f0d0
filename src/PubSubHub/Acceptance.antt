-- ===== src/PubSubHub/Acceptance.antt =====
-- When Subscribe and Unsubscribe return no error.
use youtube_webhook_ingestio.Base.{ℕ, String, ◌≡◌, refl, arith, ◌⊎◌, inl, inr, true, none, some}
use youtube_webhook_ingestio.World.Action.{Result, ok, err}
use youtube_webhook_ingestio.PubSubHub.{
  Form, HubReply, Hub, SubscribeRequest, SubscribeResponse, Outcome, validate_fields,
  subscribe_form, subscribe_outcome, unsubscribe_form, unsubscribe_outcome, on_body, on_reply,
  send_form, send_valid, subscribe, unsubscribe,
}

-- The request is valid, and the hub answers the form by 202 or 204, with a body that can be read.
pub record Accepted (h : Hub) (r : SubscribeRequest) (form : Form) (response : SubscribeResponse)
    : Type 0 where
  pub valid : validate_fields h r ≡ ok tt
  pub reply : HubReply
  pub body : String
  pub answered : h.send r.hub_url form ≡ ok reply
  pub read : reply.body ≡ ok body
  pub status : (reply.status_code ≡ 202) ⊎ (reply.status_code ≡ 204)
  pub accepted : response.accepted ≡ true
  pub same_status : response.status_code ≡ reply.status_code
  pub same_body : response.response_body ≡ body

-- What a switch on the status does when it gives no error.
record Switched (status : ℕ) (body : String) (response : SubscribeResponse) : Type 0 where
  status_is : (status ≡ 202) ⊎ (status ≡ 204)
  accepted : response.accepted ≡ true
  same_status : response.status_code ≡ status
  same_body : response.response_body ≡ body

subscribe_outcome-Switched :
    (h : Hub) (r : SubscribeRequest) (status : ℕ) (body : String) (response : SubscribeResponse)
    → subscribe_outcome h r status body ≡ record { response = some response; error = none }
    → Switched status body response
unfolding subscribe_outcome
subscribe_outcome-Switched h r status body response q = record {
  status_is = ground arith;
  accepted = ground arith;
  same_status = ground arith;
  same_body = ground arith;
}

unsubscribe_outcome-Switched :
    (h : Hub) (status : ℕ) (body : String) (response : SubscribeResponse)
    → unsubscribe_outcome h status body ≡ record { response = some response; error = none }
    → Switched status body response
unfolding unsubscribe_outcome
unsubscribe_outcome-Switched h status body response q = record {
  status_is = ground arith;
  accepted = ground arith;
  same_status = ground arith;
  same_body = ground arith;
}

module _ (h : Hub) (r : SubscribeRequest) (form : Form) (outcome : ℕ → String → Outcome)
    (response : SubscribeResponse)
    (switch : (status : ℕ) (body : String)
      → outcome status body ≡ record { response = some response; error = none }
      → Switched status body response) where
  body-Accepted :
      (reply : HubReply) (b : Result String)
      → validate_fields h r ≡ ok tt
      → h.send r.hub_url form ≡ ok reply
      → reply.body ≡ b
      → on_body (outcome reply.status_code) b ≡ record { response = some response; error = none }
      → Accepted h r form response
  unfolding on_body
  body-Accepted reply (err e) v s p q = cc
  body-Accepted reply (ok body) v s p q =
      let w = switch reply.status_code body q in
      record {
        valid = v;
        reply = reply;
        body = body;
        answered = s;
        read = p;
        status = w.status_is;
        accepted = w.accepted;
        same_status = w.same_status;
        same_body = w.same_body;
      }

  reply-Accepted :
      (x : Result HubReply)
      → validate_fields h r ≡ ok tt
      → h.send r.hub_url form ≡ x
      → on_reply outcome x ≡ record { response = some response; error = none }
      → Accepted h r form response
  unfolding on_reply
  reply-Accepted (err e) v s q = cc
  reply-Accepted (ok reply) v s q = body-Accepted reply reply.body v s refl q

  form-Accepted :
      (x : Result (Unit {0}))
      → validate_fields h r ≡ ok tt
      → send_form h r.hub_url form outcome x ≡ record { response = some response; error = none }
      → Accepted h r form response
  unfolding send_form
  form-Accepted (err e) v q = cc
  form-Accepted (ok a) v q = reply-Accepted (h.send r.hub_url form) v refl q

  valid-Accepted :
      (x : Result (Unit {0}))
      → validate_fields h r ≡ x
      → send_valid h r form outcome x ≡ record { response = some response; error = none }
      → Accepted h r form response
  unfolding send_valid
  valid-Accepted (err e) v q = cc
  valid-Accepted (ok a) v q = form-Accepted (h.new_request r.hub_url) v q

-- When Subscribe returns a response and no error, the request is valid, the hub has answered its form
-- (mode, topic, callback, lease and a secret that is not empty) by 202 or 204 with a readable body, and the
-- response says that it was accepted, with that status and body.
pub subscribe-Accepted :
    (h : Hub) (r : SubscribeRequest) (response : SubscribeResponse)
    → subscribe h (some r) ≡ record { response = some response; error = none }
    → Accepted h r (subscribe_form h r) response
unfolding subscribe
subscribe-Accepted h r response q =
    valid-Accepted h r (subscribe_form h r) (subscribe_outcome h r) response
      (λ status body. subscribe_outcome-Switched h r status body response) (validate_fields h r)
      refl q

-- When Unsubscribe returns a response and no error, the request is valid, the hub has answered its form
-- (mode, topic and callback) by 202 or 204 with a readable body, and the response says that it was
-- accepted, with that status and body.
unsubscribe-Accepted :
    (h : Hub) (r : SubscribeRequest) (response : SubscribeResponse)
    → unsubscribe h (some r) ≡ record { response = some response; error = none }
    → Accepted h r (unsubscribe_form r) response
unfolding unsubscribe
unsubscribe-Accepted h r response q =
    valid-Accepted h r (unsubscribe_form r) (unsubscribe_outcome h) response
      (λ status body. unsubscribe_outcome-Switched h status body response) (validate_fields h r)
      refl q

subscribe_outcome-accepted :
    (h : Hub) (r : SubscribeRequest) (status : ℕ) (body : String)
    → (status ≡ 202) ⊎ (status ≡ 204)
    → subscribe_outcome h r status body ≡ record {
      response = some (record {
        accepted = true;
        status_code = status;
        response_body = body;
        lease_seconds = r.lease_seconds;
      });
      error = none;
    }
unfolding subscribe_outcome
subscribe_outcome-accepted h r status body (inl q) = ground (arith, q)
subscribe_outcome-accepted h r status body (inr q) = ground (arith, q)

-- A valid request whose form the hub answers by 202 or 204, with a readable body, is accepted: Subscribe
-- returns the response with that status and body and the request's lease, and no error.
subscribe-of_answer :
    (h : Hub) (r : SubscribeRequest) (status : ℕ) (body : String)
    → validate_fields h r ≡ ok tt
    → h.new_request r.hub_url ≡ ok tt
    → h.send r.hub_url (subscribe_form h r) ≡ ok (record { status_code = status; body = ok body })
    → (status ≡ 202) ⊎ (status ≡ 204)
    → subscribe h (some r) ≡ record {
      response = some (record {
        accepted = true;
        status_code = status;
        response_body = body;
        lease_seconds = r.lease_seconds;
      });
      error = none;
    }
unfolding subscribe send_valid send_form on_reply on_body
subscribe-of_answer h r status body v n s q =
    simp (v, n, s) (subscribe_outcome-accepted h r status body q)
