-- ===== src/Resolver/Statuses.antt =====
-- The statuses that HandleCreateFromURL can answer.
use Prim.Native.String.{◌++◌ as ◌<>◌}
use youtube_webhook_ingestio.Base.{
  ℕ, String, Bool, false, Option, none, some, ◌==◌, ◌≡◌, refl, sym, ap, ◌∙◌, inl, inr, Bool-cases,
  eq_iff, arith,
}
use youtube_webhook_ingestio.Base.Text.{cut_prefix, has_prefix, has_prefix-append}
use youtube_webhook_ingestio.Errors.{Error, wrapped, error_text}
use youtube_webhook_ingestio.Models.{Channel}
use youtube_webhook_ingestio.World.{World}
use youtube_webhook_ingestio.World.Action.{Result, ok, err}
use youtube_webhook_ingestio.World.Fails.{
  Fails, Fails-pure, Fails-attempt, Fails-context, Fails-now, Fails-bind,
}
use youtube_webhook_ingestio.Http.{respond, on_result}
use youtube_webhook_ingestio.YouTube.Channels.{ChannelDetails}
use youtube_webhook_ingestio.Resolver.{
  ChannelResolverService, ResolveResponse, resolve_channel_from_url, store_resolved,
  put_channel_row, complete_channel,
}
use youtube_webhook_ingestio.Resolver.Handler.{
  Json, ChannelFromUrlHandler, status_of_text, failed_response, resolution_response,
  create_from_url,
}

-- The contexts that the service puts before its errors.
pub data Context : Type 0 where
  resolving updating creating : Context

abbrev pub context_text : Context → String
context_text Context.resolving = "failed to resolve channel from YouTube: "
context_text Context.updating = "failed to update channel: "
context_text Context.creating = "failed to create channel: "

-- An error has one of the contexts.
abbrev pub HasContext : Error → Type 0
HasContext e = (c : Context) × (cause : Error) × (e ≡ wrapped (context_text c) cause "")

other_text :
    (c : Context) (s t : String)
    → has_prefix s (context_text c) ≡ false
    → (context_text c <> t == s) ≡ false
other_text c s t h = elim (Bool-cases (context_text c <> t == s)) [
  | inr q ↦ q
  | inl q ↦
      let p =
        sym (has_prefix-append (context_text c) t)
        ∙ ap (λ x. has_prefix x (context_text c)) ((eq_iff (context_text c <> t) s).0 q)
        ∙ h in
      absurd (ground arith)
]

status-of_other :
    (c : Context) (t : String)
    → has_prefix "channel not found" (context_text c) ≡ false
    → has_prefix "not a YouTube URL" (context_text c) ≡ false
    → has_prefix "unsupported YouTube URL format" (context_text c) ≡ false
    → (status_of_text (context_text c <> t)).0 ≡ 500
status-of_other c t p q r =
    simp
      (
        other_text c "channel not found" t p,
        other_text c "not a YouTube URL" t q,
        other_text c "unsupported YouTube URL format" t r,
      )
      refl

status-of_context : (c : Context) (t : String) → (status_of_text (context_text c <> t)).0 ≡ 500
unfolding has_prefix cut_prefix
status-of_context Context.resolving t = status-of_other Context.resolving t refl refl refl
status-of_context Context.updating t = status-of_other Context.updating t refl refl refl
status-of_context Context.creating t = status-of_other Context.creating t refl refl refl

put_channel_row-HasContext :
    (found : Option Channel) (channel : Channel) → Fails HasContext (put_channel_row found channel)
unfolding put_channel_row
put_channel_row-HasContext none channel =
    Fails-context HasContext "failed to create channel" _ λ cause. (Context.creating, cause, refl)
put_channel_row-HasContext (some existing) channel =
    Fails-context HasContext "failed to update channel" _ λ cause. (Context.updating, cause, refl)

complete_channel-HasContext :
    (s : ChannelResolverService) (yt : ChannelDetails) (b : Bool) (channel : Channel)
    → Fails HasContext (complete_channel s yt b channel)
unfolding complete_channel
complete_channel-HasContext s yt b channel =
    Fails-bind HasContext _ _ (Fails-now HasContext) λ time.
      Fails-bind HasContext _ _ (Fails-attempt HasContext _) λ stored.
        Fails-bind HasContext _ _ (Fails-attempt HasContext _)
          λ subscription. Fails-pure HasContext _

resolve_channel_from_url-HasContext :
    (s : ChannelResolverService) (url : String) → Fails HasContext (resolve_channel_from_url s url)
unfolding resolve_channel_from_url store_resolved
resolve_channel_from_url-HasContext s url =
    Fails-bind HasContext _ _
      (Fails-context HasContext "failed to resolve channel from YouTube" _
        λ cause. (Context.resolving, cause, refl))
      λ yt. Fails-bind HasContext _ _ (Fails-attempt HasContext _) λ found.
        Fails-bind HasContext _ _ (Fails-now HasContext) λ time.
          Fails-bind HasContext _ _ (put_channel_row-HasContext _ _)
            λ channel. complete_channel-HasContext s yt _ channel

HasContext-status :
    (json : Json) (url : String) (e : Error)
    → HasContext e
    → (failed_response json url e).status ≡ 500
unfolding failed_response error_text
HasContext-status json url e (c, cause, q) =
    ap (λ x. (failed_response json url x).status) q ∙ status-of_context c (error_text cause <> "")

abbrev pub has_resolved : {A : Type 0} → Result A → ℕ
has_resolved (ok a) = 200
has_resolved (err e) = 500

resolution_response-status :
    (h : ChannelFromUrlHandler) (url : String) (w : World) (r : Result ResolveResponse)
    → (resolve_channel_from_url h.service url w).0 ≡ r
    → (resolution_response h.json url r).status ≡ has_resolved r
unfolding resolution_response
resolution_response-status h url w (ok r) q = refl
resolution_response-status h url w (err e) q =
    HasContext-status h.json url e
      ((resolve_channel_from_url-HasContext h.service url).reason w e q)

-- A URL that is posted to HandleCreateFromURL is answered by 200 if the service resolves it, and by 500 for
-- each of its errors: the statuses 404 and 400 that the handler has for three texts of an error are never
-- sent, since the service puts a context before the texts.
pub create_from_url-status :
    (h : ChannelFromUrlHandler) (url : String) (w : World)
    → (url == "") ≡ false
    → (create_from_url h (ok url) w).0.status
      ≡ has_resolved (resolve_channel_from_url h.service url w).0
unfolding create_from_url on_result respond
create_from_url-status h url w q =
    simp q (resolution_response-status h url w (resolve_channel_from_url h.service url w).0 refl)
