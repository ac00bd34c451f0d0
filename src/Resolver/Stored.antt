-- ===== src/Resolver/Stored.antt =====
-- What ResolveChannelFromURL has stored when it returns no error.
use youtube_webhook_ingestio.Base.{
  String, Bool, false, Option, none, some, ◌≡◌, refl, sym, ap, ◌∙◌, List, [], ◌∷◌, ◌++◌,
  Option-cases, inl, inr, is_some, eq_iff, arith,
}
use youtube_webhook_ingestio.Models.{Time, Channel}
use youtube_webhook_ingestio.Table.{find, find-key, find-append}
use youtube_webhook_ingestio.World.{World}
use youtube_webhook_ingestio.World.Action.{ok, pure, attempt, context, now, bind-eq-ok, ◌>>=◌}
use youtube_webhook_ingestio.Repository.Statement.{statement}
use youtube_webhook_ingestio.Repository.Outcome.{statement-eq-ok, context-eq-ok}
use youtube_webhook_ingestio.Repository.Videos.{by_channel_id, get_channel_by_id}
use youtube_webhook_ingestio.Repository.Channels.{
  insert_channel, create_channel, channel_as_updated, replace_channel, changed_channel,
  change_channel, update_channel_row,
}
use youtube_webhook_ingestio.World.Yields.{ok-injective}
use youtube_webhook_ingestio.YouTube.Channels.{ChannelDetails}
use youtube_webhook_ingestio.YouTube.Url.{resolve_channel_by_url}
use youtube_webhook_ingestio.Resolver.{
  ChannelResolverService, ResolveResponse, value_or_none, channel_of_details, put_channel_row,
  complete_channel, store_resolved, resolve_channel_from_url,
}
use youtube_webhook_ingestio.Resolver.ChannelRows.{SameChannels, complete_channel-SameChannels}

find-replace_channel :
    (f : Channel → Channel) (id : String) (rows : List Channel) (c : Channel)
    → ((d : Channel) → (f d).channel_id ≡ d.channel_id)
    → find by_channel_id id rows ≡ some c
    → find by_channel_id id (replace_channel f id rows) ≡ some (f c)
unfolding find replace_channel
find-replace_channel f id [] c keeps h = cc h
find-replace_channel f id (d ∷ rows) c keeps h = ground (
  arith,
  keeps d,
  eq_iff d.channel_id id,
  eq_iff (f d).channel_id id,
  find-replace_channel f id rows c keeps,
)

-- What the response says, and that nothing after the channel touches its table
record Completed (was_existing : Bool) (channel : Channel) (r : ResolveResponse) (w w' : World)
    : Type 0 where
  same : SameChannels w w'
  channel_of : r.channel ≡ channel
  existing_of : r.was_existing ≡ was_existing

complete_channel-Completed :
    (s : ChannelResolverService) (yt : ChannelDetails) (b : Bool) (channel : Channel) (w w' : World)
    (r : ResolveResponse)
    → complete_channel s yt b channel w ≡ (ok r, w')
    → Completed b channel r w w'
unfolding complete_channel pure attempt now ◌>>=◌
complete_channel-Completed s yt b channel w w' r h =
    let e = ok-injective _ _ (ap (λ x. x.0) h) in
    record {
      same = record {
        rows =
            sym (ap (λ x. x.1.db.channels) h)
            ∙ ((complete_channel-SameChannels s yt b channel).at w).rows;
      };
      channel_of = sym (ap (λ x. x.channel) e);
      existing_of = sym (ap (λ x. x.was_existing) e);
    }

none_of : (o : Option Channel) → is_some o ≡ false → o ≡ none
none_of none h = refl
none_of (some c) h = absurd (ground arith)

-- The channel that a step has stored: its row in the table, and how it came there.
record Put (found : Option Channel) (channel row : Channel) (w : World) : Type 0 where
  stored : find by_channel_id channel.channel_id w.db.channels ≡ some row
  id : row.channel_id ≡ channel.channel_id
  title : row.title ≡ channel.title
  fresh : found ≡ none → row ≡ channel

insert_channel-Put :
    (channel row : Channel) (w w' : World)
    → insert_channel channel w.clock w.db ≡ (ok row, w'.db)
    → Put none channel row w'
unfolding insert_channel
insert_channel-Put channel row w w' h =
    elim (Option-cases (find by_channel_id channel.channel_id w.db.channels)) [
      | inr (c, q) ↦ absurd (ground (arith, simp q at h))
      | inl q ↦
          let g : (ok channel, record w.db { channels = w.db.channels ++ channel ∷ [] })
              ≡ (ok row, w'.db) =
            simp q at h in
          let e = ok-injective _ _ (ap (λ x. x.0) g) in
          record {
            stored =
                ap (λ x. find by_channel_id channel.channel_id x.1.channels) (sym g)
                ∙ find-append by_channel_id channel.channel_id w.db.channels channel q refl
                ∙ ap some e;
            id = ap (λ x. x.channel_id) (sym e);
            title = ap (λ x. x.title) (sym e);
            fresh = λ n. sym e;
          }
    ]

changed_channel-Put :
    (time : Time) (existing channel row : Channel) (o : Option Channel) (w w' : World)
    → find by_channel_id channel.channel_id w.db.channels ≡ o
    → changed_channel time channel o w.db ≡ (ok row, w'.db)
    → Put (some existing) channel row w'
changed_channel-Put time existing channel row none w w' q h = absurd (ground arith)
changed_channel-Put time existing channel row (some c) w w' q h =
    let f : Channel → Channel = channel_as_updated time channel in
    let e = ok-injective _ _ (ap (λ x. x.0) h) in
    record {
      stored =
          ap (λ x. find by_channel_id channel.channel_id x.1.channels) (sym h)
          ∙ find-replace_channel f channel.channel_id w.db.channels c (λ d. refl) q
          ∙ ap some e;
      id =
          ap (λ x. x.channel_id) (sym e)
          ∙ find-key by_channel_id channel.channel_id w.db.channels {x = c} q;
      title = ap (λ x. x.title) (sym e);
      fresh = λ n. absurd (ground arith);
    }

put_channel_row-Put :
    (found : Option Channel) (channel row : Channel) (w w' : World)
    → put_channel_row found channel w ≡ (ok row, w')
    → Put found channel row w'
unfolding put_channel_row create_channel update_channel_row change_channel now
put_channel_row-Put none channel row w w' h =
    let ran =
      statement-eq-ok "create channel" (insert_channel channel) w
        (context-eq-ok "failed to create channel" (create_channel channel) w h) in
    insert_channel-Put channel row w w' ran.tables
put_channel_row-Put (some existing) channel row w w' h =
    let asked : Channel = record channel { created_at = existing.created_at } in
    let (time, v, e, k) =
      bind-eq-ok now (λ time. statement "update channel" (change_channel time asked)) w
        (context-eq-ok "failed to update channel" (update_channel_row asked) w h) in
    let ran = statement-eq-ok "update channel" (change_channel time asked) v k in
    let p = changed_channel-Put time existing asked row _ v w' refl ran.tables in
    record { stored = p.stored; id = p.id; title = p.title; fresh = λ n. absurd (ground arith) }

-- What the service leaves when it returns no error.
pub record Resolved (yt : ChannelDetails) (r : ResolveResponse) (w' : World) : Type 0 where
  pub channel_id : r.channel.channel_id ≡ yt.channel_id
  pub title : r.channel.title ≡ yt.title
  pub stored : find by_channel_id r.channel.channel_id w'.db.channels ≡ some r.channel
  pub undated : r.was_existing ≡ false → r.channel.created_at ≡ 0

store_resolved-Resolved :
    (s : ChannelResolverService) (yt : ChannelDetails) (w w' : World) (r : ResolveResponse)
    → store_resolved s yt w ≡ (ok r, w')
    → Resolved yt r w'
unfolding store_resolved
store_resolved-Resolved s yt w w' r h =
    let (found, v1, e1, k1) = bind-eq-ok (attempt (get_channel_by_id yt.channel_id)) _ w h in
    let (time, v2, e2, k2) = bind-eq-ok now _ v1 k1 in
    let o = value_or_none found in
    let (row, v3, e3, k3) =
      bind-eq-ok (put_channel_row o (channel_of_details time yt))
        (complete_channel s yt (is_some o)) v2 k2 in
    let p = put_channel_row-Put o (channel_of_details time yt) row v2 v3 e3 in
    let c = complete_channel-Completed s yt (is_some o) row v3 w' r k3 in
    let id = ap (λ x. x.channel_id) c.channel_of ∙ p.id in
    record {
      channel_id = id;
      title = ap (λ x. x.title) c.channel_of ∙ p.title;
      stored =
          ap (λ x. find by_channel_id x w'.db.channels) id
          ∙ ap (find by_channel_id yt.channel_id) c.same.rows
          ∙ p.stored
          ∙ ap some (sym c.channel_of);
      undated =
          λ n. ap (λ x. x.created_at) (c.channel_of ∙ p.fresh (none_of o (sym c.existing_of ∙ n)));
    }

-- When ResolveChannelFromURL returns no error, the YouTube client has resolved the URL to the channel that
-- the response names, whose row in the table is the one in the response, with the title that YouTube has,
-- whatever fails behind; and where it was no known channel, its row has the zero time as its creation.
pub resolve_channel_from_url-Resolved :
    (s : ChannelResolverService) (url : String) (w w' : World) (r : ResolveResponse)
    → resolve_channel_from_url s url w ≡ (ok r, w')
    → (yt : ChannelDetails) × (v : World) × (resolve_channel_by_url s.urls s.youtube_client url w
        ≡ (ok yt, v))
      × Resolved yt r w'
unfolding resolve_channel_from_url
resolve_channel_from_url-Resolved s url w w' r h =
    let (yt, v, e, k) =
      bind-eq-ok
        (context "failed to resolve channel from YouTube"
          (resolve_channel_by_url s.urls s.youtube_client url))
        (store_resolved s) w h in
    (
      yt,
      v,
      context-eq-ok "failed to resolve channel from YouTube"
          (resolve_channel_by_url s.urls s.youtube_client url) w e,
      store_resolved-Resolved s yt v w' r k,
    )
