-- ===== src/YouTube/Accounting.antt =====
-- The quota that resolving a channel records, against the cost that it reports.
use Prim.Native.String.{◌++◌ as ◌<>◌}
use youtube_webhook_ingestio.Base.Text.{trim_prefix}
use youtube_webhook_ingestio.Base.{
  Bool-cases, inl, inr, ℕ, ◌+◌, String, false, Option, some, List, [], ◌∷◌, ◌≡◌, refl, sym, ap, ◌∙◌,
  arith, ◌==◌, eq_iff,
}
use youtube_webhook_ingestio.Models.{Time}
use youtube_webhook_ingestio.World.{World, calm}
use youtube_webhook_ingestio.World.Action.{
  Result, ok, err, Action, pure, fail, lift, attempt, context, remote, ◌>>=◌, bind-eq-ok,
}
use youtube_webhook_ingestio.Repository.Statement.{statement}
use youtube_webhook_ingestio.Repository.Quota.{
  add_usage, increment_quota, increment_todays_quota, get_todays_quota,
}
use youtube_webhook_ingestio.Quota.{Manager, record_quota_usage}
use youtube_webhook_ingestio.Quota.Threshold.{used_today, used_on-add_usage}
use youtube_webhook_ingestio.YouTube.Api.{ApiChannel, ChannelListResponse}
use youtube_webhook_ingestio.YouTube.Client.{Api, Client, track_with, track_quota}
use youtube_webhook_ingestio.YouTube.Channels.{
  ChannelDetails, details_of_items, get_channel_details, first_channel, details_at_cost,
  search_by_handle, resolve_channel_by_handle, resolve_channel_by_username, first_found,
  resolve_channel_by_custom_url,
}
use youtube_webhook_ingestio.YouTube.Url.{
  Url, Urls, Identifier, identify_url, with_scheme, parse_youtube_url, resolve_identifier,
  resolve_channel_by_url,
}

-- The world after a cost was recorded.
abbrev charged : Manager → ℕ → String → World → World
charged m cost operation w = record w {
  db = record w.db {
    api_quota_usage = add_usage (m.day w.clock) cost operation w.db.api_quota_usage;
  };
}

used_today-charged :
    (m : Manager) (cost : ℕ) (operation : String) (w : World)
    → used_today m (charged m cost operation w) ≡ used_today m w + cost
used_today-charged m cost operation w =
    ground
      (arith, used_on-add_usage (m.day w.clock) (m.day w.clock) cost operation w.db.api_quota_usage)

module _ (api : Api) (m : Manager) where
  client : Client
  client = record { api = api; quota_tracker = some m }

  track-calm :
      (cost : ℕ) (operation : String) (w : World)
      → (operation == "") ≡ false
      → track_quota client cost operation (calm w) ≡ (ok tt, calm (charged m cost operation w))
  unfolding track_quota track_with client record_quota_usage increment_quota increment_todays_quota
      get_todays_quota statement remote attempt context ◌>>=◌ pure
  track-calm cost operation w q = simp q refl

  track-charged :
      (cost : ℕ) (operation : String) (w u t : World) {a : Unit {0}}
      → (operation == "") ≡ false
      → track_quota client cost operation u ≡ (ok a, t)
      → u ≡ calm w
      → t ≡ calm (charged m cost operation w)
  track-charged cost operation w u t named q u_is =
      ap (λ x. x.1) (sym q)
      ∙ ap (λ x. (track_quota client cost operation x).1) u_is
      ∙ ap (λ x. x.1) (track-calm cost operation w named)

  -- A resolution with a result: the cost that it reports, and what was recorded.
  record Paid (cost : ℕ) (e : ChannelDetails) (w v : World) : Type 0 where
    cost_is : e.quota_cost ≡ cost
    used : used_today m v ≡ used_today m w + cost

  lift-calm :
      {A : Type 0} (before : String) (r : Result A) (w v : World) {a : A}
      → context before (lift r) (calm w) ≡ (ok a, v)
      → v ≡ calm w
  unfolding context lift
  lift-calm before r w v h = ap (λ x. x.1) (sym h)

  details_of_items-cost :
      (parse_time : String → Option Time) (id etag : String) (items : List ApiChannel)
      (e : ChannelDetails)
      → details_of_items parse_time id etag items ≡ ok e
      → e.quota_cost ≡ 1
  details_of_items-cost parse_time id etag [] e h = absurd (ground arith)
  details_of_items-cost parse_time id etag (channel ∷ rest) e h = ground (arith, h)

  details-Paid :
      (id : String) (w v : World) (e : ChannelDetails)
      → get_channel_details client id (calm w) ≡ (ok e, v)
      → Paid 1 e w v
  unfolding get_channel_details client
  details-Paid id w v e h =
      let call : Action ChannelListResponse =
        context "failed to fetch channel from YouTube API" (lift (api.channels_by_id id)) in
      let read : ChannelListResponse → Action ChannelDetails =
        λ response. lift (details_of_items api.parse_time id response.etag response.items) in
      let track : Action (Unit {0}) = track_quota client 1 "channels_list" in
      let (response, u, p, k) =
        bind-eq-ok call (λ response. track >>= λ a. read response) (calm w) h in
      let u_is : u ≡ calm w =
        lift-calm "failed to fetch channel from YouTube API" (api.channels_by_id id) w u p in
      let (a, t, q, l) = bind-eq-ok track (λ a. read response) u k in
      let t_is =
        track-charged 1 "channels_list" w u t (ground (arith, eq_iff "channels_list" "")) q u_is in
      record {
        cost_is =
            details_of_items-cost api.parse_time id response.etag response.items e
              (ap (λ x. x.0) l);
        used =
            ap (λ x. used_today m x.1) (sym l)
            ∙ ap (used_today m) t_is
            ∙ used_today-charged m 1 "channels_list" w;
      }

  details_at_cost-Paid :
      (id : String) (n : ℕ) (w v : World) (e : ChannelDetails)
      → details_at_cost client id n (calm w) ≡ (ok e, v)
      → (e.quota_cost ≡ n) × (used_today m v ≡ used_today m w + 1)
  unfolding details_at_cost pure
  details_at_cost-Paid id n w v e h =
      let (d, u, p, k) = bind-eq-ok (get_channel_details client id) _ (calm w) h in
      let paid = details-Paid id w u d p in
      (ground (arith, k), ap (λ x. used_today m x.1) (sym k) ∙ paid.used)

  -- A search that finds a channel, and then its details.
  search-Paid :
      {A : Type 0} (before operation : String) (r : Result A) (first : A → Result String) (cost : ℕ)
      (w v : World) (e : ChannelDetails)
      → (operation == "") ≡ false
      → (context before (lift r) >>= λ found. track_quota client cost operation >>= λ a.
            lift (first found) >>= λ id. details_at_cost client id (cost + 1))
          (calm w)
        ≡ (ok e, v)
      → Paid (cost + 1) e w v
  unfolding lift
  search-Paid before operation r first cost w v e named h =
      let track : Action (Unit {0}) = track_quota client cost operation in
      let at : String → Action ChannelDetails = λ id. details_at_cost client id (cost + 1) in
      let (found, u, p, k) =
        bind-eq-ok (context before (lift r)) (λ found. track >>= λ a. lift (first found) >>= at)
          (calm w) h in
      let u_is : u ≡ calm w = lift-calm before r w u p in
      let (a, t, q, l) = bind-eq-ok track (λ a. lift (first found) >>= at) u k in
      let t_is = track-charged cost operation w u t named q u_is in
      let (id, s, x, y) = bind-eq-ok (lift (first found)) at t l in
      let s_is : s ≡ calm (charged m cost operation w) = ap (λ z. z.1) (sym x) ∙ t_is in
      let paid =
        details_at_cost-Paid id (cost + 1) (charged m cost operation w) v e
          (ap (at id) (sym s_is) ∙ y) in
      record {
        cost_is = paid.0;
        used = omega (arith, paid.1, used_today-charged m cost operation w);
      }

  -- What was recorded is the cost that the result reports.
  abbrev IsAccounted : ChannelDetails → World → World → Type 0
  IsAccounted e w v = used_today m v ≡ used_today m w + e.quota_cost

  Paid-IsAccounted :
      (cost : ℕ) (e : ChannelDetails) (w v : World) → Paid cost e w v → IsAccounted e w v
  Paid-IsAccounted cost e w v p = omega (arith, p.used, p.cost_is)

  handle-IsAccounted :
      (handle : String) (w v : World) (e : ChannelDetails)
      → search_by_handle client handle (calm w) ≡ (ok e, v)
      → IsAccounted e w v
  unfolding search_by_handle client
  handle-IsAccounted handle w v e h = Paid-IsAccounted 2 e w v (
      search-Paid ("failed to search channel by handle '@" <> handle <> "'") "channels_list"
        (api.channels_by_handle handle)
        (λ response. first_channel ("channel not found for handle: @" <> handle) response.items) 1 w
        v e (ground (arith, eq_iff "channels_list" "")) h)

  username-IsAccounted :
      (username : String) (w v : World) (e : ChannelDetails)
      → resolve_channel_by_username client username (calm w) ≡ (ok e, v)
      → IsAccounted e w v
  unfolding resolve_channel_by_username client
  username-IsAccounted username w v e h = Paid-IsAccounted 2 e w v (
      search-Paid ("failed to search channel by username '" <> username <> "'") "channels_list"
        (api.channels_by_username username)
        (λ response. first_channel ("channel not found for username: " <> username) response.items)
        1 w v e (ground (arith, eq_iff "channels_list" "")) h)

  custom-IsAccounted :
      (custom_url : String) (w v : World) (e : ChannelDetails)
      → resolve_channel_by_custom_url client custom_url (calm w) ≡ (ok e, v)
      → IsAccounted e w v
  unfolding resolve_channel_by_custom_url client
  custom-IsAccounted custom_url w v e h = Paid-IsAccounted 101 e w v (
      search-Paid ("failed to search channel by custom URL '" <> custom_url <> "'") "search_list"
        (api.search_channels custom_url) (first_found custom_url) 100 w v e
        (ground (arith, eq_iff "search_list" "")) h)

  identifier-IsAccounted :
      (i : Identifier) (w v : World) (e : ChannelDetails)
      → resolve_identifier client i (calm w) ≡ (ok e, v)
      → IsAccounted e w v
  unfolding resolve_identifier resolve_channel_by_handle fail
  identifier-IsAccounted i w v e h = elim (Bool-cases (i.channel_id == "")) [
    | inr p ↦ Paid-IsAccounted 1 e w v (details-Paid i.channel_id w v e (simp p at h))
    | inl p ↦ elim (Bool-cases (i.handle == "")) [
      | inr q ↦ handle-IsAccounted (trim_prefix i.handle "@") w v e (simp (p, q) at h)
      | inl q ↦ elim (Bool-cases (i.username == "")) [
        | inr r ↦ username-IsAccounted i.username w v e (simp (p, q, r) at h)
        | inl r ↦ elim (Bool-cases (i.custom_url == "")) [
          | inr s ↦ custom-IsAccounted i.custom_url w v e (simp (p, q, r, s) at h)
          | inl s ↦ absurd (ground (arith, simp (p, q, r, s) at h))
        ]
      ]
    ]
  ]

parsed-same :
    (urls : Urls) (url : String) (r : Result Url) (w : World)
    → ((context "invalid URL" (lift r) >>= λ parsed. lift (identify_url urls url parsed)) w).1 ≡ w
unfolding context lift ◌>>=◌
parsed-same urls url (ok parsed) w = refl
parsed-same urls url (err e) w = refl

parse_youtube_url-same :
    (urls : Urls) (text : String) (w : World) → (parse_youtube_url urls text w).1 ≡ w
unfolding parse_youtube_url
parse_youtube_url-same urls text w =
    let url = with_scheme (urls.trim_space text) in parsed-same urls url (urls.parse url) w

-- Resolving a channel from any of the supported forms of URL, with a quota tracker and no call that fails,
-- adds to the usage of the day exactly the cost that the result reports.
pub resolve_channel_by_url-accounted :
    (api : Api) (m : Manager) (urls : Urls) (text : String) (w v : World) (e : ChannelDetails)
    → resolve_channel_by_url urls (record { api = api; quota_tracker = some m }) text (calm w)
      ≡ (ok e, v)
    → used_today m v ≡ used_today m w + e.quota_cost
unfolding resolve_channel_by_url context client
resolve_channel_by_url-accounted api m urls text w v e h =
    let parse : Action Identifier =
      context "failed to parse YouTube URL" (parse_youtube_url urls text) in
    let (i, u, p, k) =
      bind-eq-ok parse (resolve_identifier (record { api = api; quota_tracker = some m })) (calm w)
        h in
    let u_is : u ≡ calm w = ap (λ x. x.1) (sym p) ∙ parse_youtube_url-same urls text (calm w) in
    identifier-IsAccounted api m i w v e
      (ap (resolve_identifier (record { api = api; quota_tracker = some m }) i) (sym u_is) ∙ k)
