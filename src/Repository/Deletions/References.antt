-- ===== src/Repository/Deletions/References.antt =====
-- The references between the tables after a deletion of a channel or of a video.
use youtube_webhook_ingestio.Base.{
  String, Bool, true, not, ◌≡◌, refl, sym, subst, ◌∙◌, ◌==◌, eq_iff, Bool-cases, inl, inr, List, [],
  ◌∷◌, keep, All, eqb, ℕ, arith,
}
use youtube_webhook_ingestio.Models.{Channel, Video}
use youtube_webhook_ingestio.Models.Sponsor.{VideoSponsor}
use youtube_webhook_ingestio.World.{World, Db}
use youtube_webhook_ingestio.World.Keeps.{
  IsSteady, Keeps, Keeps-bind, Keeps-if, Keeps-pure, Keeps-fail,
}
use youtube_webhook_ingestio.Queue.Client.Effects.{Keeps-statement}
use youtube_webhook_ingestio.Repository.Rows.Order.{All-keep, All-kept, All-map, All-both}
use youtube_webhook_ingestio.Repository.Detection.Results.{is_known_prompt}
use youtube_webhook_ingestio.Repository.Deletions.{
  any, has_video, has_channel, has_detection_job, without_links_of, without_videos, without_channel,
  delete_video_rows, delete_channel_rows, unless_missing, delete_video, delete_channel,
}

-- Every row that another one refers to is there.
pub record IsReferential (db : Db) : Type 0 where
  pub videos : All (λ v. has_channel db.channels v.channel_id ≡ true) db.videos
  pub updates :
      All
        (λ u.
          (has_video db.videos u.video_id ≡ true)
          × (has_channel db.channels u.channel_id ≡ true)
          × (any (λ e. eqb e.id u.webhook_event_id) db.webhook_events ≡ true))
        db.video_updates
  pub enrichments : All (λ e. has_video db.videos e.video_id ≡ true) db.video_api_enrichments
  pub jobs : All (λ j. has_video db.videos j.video_id ≡ true) db.enrichment_jobs
  pub channel_enrichments :
      All (λ e. has_channel db.channels e.channel_id ≡ true) db.channel_api_enrichments
  pub detections :
      All
        (λ j.
          (has_video db.videos j.video_id ≡ true)
          × (is_known_prompt j.prompt_id db.sponsor_detection_prompts ≡ true))
        db.sponsor_detection_jobs
  pub links :
      All
        (λ l.
          (has_video db.videos l.video_id ≡ true)
          × (has_detection_job db.sponsor_detection_jobs l.detection_job_id ≡ true)
          × (any (λ s. eqb s.id l.sponsor_id) db.sponsors ≡ true))
        db.video_sponsors

-- A row that is there and not among those deleted is among those kept.
any-keep :
    {A : Type 0} (t p : A → Bool) (rows : List A)
    → any t rows ≡ true
    → not (any t (keep p rows)) ≡ true
    → any t (keep (λ x. not (p x)) rows) ≡ true
unfolding any
any-keep t p [] h k = h
any-keep t p (x ∷ rows) h k = elim (Bool-cases (p x)) [
  | inl q ↦ elim (Bool-cases (t x)) [
    | inl r ↦ absurd (ground (arith, simp (q, r) at k))
    | inr r ↦ simp q (any-keep t p rows (simp r at h) (simp (q, r) at k))
  ]
  | inr q ↦ elim (Bool-cases (t x)) [
    | inl r ↦ simp (q, r) refl
    | inr r ↦ simp (q, r) (any-keep t p rows (simp r at h) (simp q at k))
  ]
]

-- A channel with another ID is not deleted.
has_channel-keep :
    (id k : String) (rows : List Channel)
    → not (k == id) ≡ true
    → has_channel rows k ≡ true
    → has_channel (keep (λ c. not (c.channel_id == id)) rows) k ≡ true
unfolding any
has_channel-keep id k [] d h = h
has_channel-keep id k (c ∷ rows) d h = elim (Bool-cases (c.channel_id == id)) [
  | inl q ↦ elim (Bool-cases (c.channel_id == k)) [
    | inl r ↦ absurd (
        ground (
          arith,
          d,
          (eq_iff k id).1 (sym ((eq_iff c.channel_id k).0 r) ∙ (eq_iff c.channel_id id).0 q),
        ))
    | inr r ↦ simp q (has_channel-keep id k rows d (simp r at h))
  ]
  | inr q ↦ elim (Bool-cases (c.channel_id == k)) [
    | inl r ↦ simp (q, r) refl
    | inr r ↦ simp (q, r) (has_channel-keep id k rows d (simp r at h))
  ]
]

-- What held of all rows, and a test that a row has passed, say what holds of the rows kept.
All-kept_if :
    {A : Type 0} (P Q : A → Type 0) (p : A → Bool) (rows : List A)
    → ((x : A) → P x → p x ≡ true → Q x)
    → All P rows
    → All Q (keep p rows)
All-kept_if P Q p rows f h = All-keep Q p rows (All-map P (λ x. p x ≡ true → Q x) rows f h)

module _ (p : Video → Bool) (db : Db) (h : IsReferential db) where
  left :
      (k : String)
      → has_video db.videos k ≡ true
      → not (has_video (keep p db.videos) k) ≡ true
      → has_video (keep (λ v. not (p v)) db.videos) k ≡ true
  left k = any-keep (λ v. v.video_id == k) p db.videos

  job_left :
      (id : ℕ)
      → has_detection_job db.sponsor_detection_jobs id ≡ true
      → not (
          has_detection_job
            (keep (λ j. has_video (keep p db.videos) j.video_id) db.sponsor_detection_jobs)
            id)
        ≡ true
      → has_detection_job (without_videos p db).sponsor_detection_jobs id ≡ true
  job_left id =
      any-keep (λ j. eqb j.id id) (λ j. has_video (keep p db.videos) j.video_id)
        db.sponsor_detection_jobs

  -- a link to a video that is left
  abbrev SeenLink : VideoSponsor → Type 0
  SeenLink l =
      (has_video (keep (λ v. not (p v)) db.videos) l.video_id ≡ true)
      × (has_detection_job db.sponsor_detection_jobs l.detection_job_id ≡ true)
      × (any (λ s. eqb s.id l.sponsor_id) db.sponsors ≡ true)

  seen : All SeenLink (without_links_of (has_video (keep p db.videos)) db).video_sponsors
  seen =
      All-kept_if _ SeenLink _ db.video_sponsors (λ l a q. (left l.video_id a.0 q, a.1, a.2))
        h.links

  pub without_videos-IsReferential : IsReferential (without_videos p db)
  without_videos-IsReferential = record {
    videos = All-kept_if _ _ _ db.videos (λ v a q. a) h.videos;
    updates =
        All-kept_if _ _ _ db.video_updates (λ u a q. (left u.video_id a.0 q, a.1, a.2)) h.updates;
    enrichments =
        All-kept_if _ _ _ db.video_api_enrichments (λ e a q. left e.video_id a q) h.enrichments;
    jobs = All-kept_if _ _ _ db.enrichment_jobs (λ j a q. left j.video_id a q) h.jobs;
    channel_enrichments = h.channel_enrichments;
    detections =
        All-kept_if _ _ _ db.sponsor_detection_jobs (λ j a q. (left j.video_id a.0 q, a.1))
          h.detections;
    links =
        All-kept_if SeenLink _ _ _ (λ l a q. (a.0, job_left l.detection_job_id a.1 q, a.2)) seen;
  }

without_channel-IsReferential :
    (id : String) (db : Db)
    → IsReferential db
    → All (λ v. not (v.channel_id == id) ≡ true) db.videos
    → IsReferential (without_channel id db)
without_channel-IsReferential id db h apart = record {
  videos =
      All-both _ _ _ db.videos (λ v a q. has_channel-keep id v.channel_id db.channels q a) h.videos
        apart;
  updates =
      All-kept_if _ _ _ db.video_updates
        (λ u a q. (a.0, has_channel-keep id u.channel_id db.channels q a.1, a.2)) h.updates;
  enrichments = h.enrichments;
  jobs = h.jobs;
  channel_enrichments =
      All-kept_if _ _ _ db.channel_api_enrichments
        (λ e a q. has_channel-keep id e.channel_id db.channels q a) h.channel_enrichments;
  detections = h.detections;
  links = h.links;
}

-- the relation between the worlds before and after
record StaysReferential (w w' : World) : Type 0 where
  stays : IsReferential w.db → IsReferential w'.db

Steady : IsSteady StaysReferential
Steady = record {
  refl_at = λ w. record { stays = λ h. h };
  trans_at = λ u v w p q. record { stays = λ h. q.stays (p.stays h) };
  environment = λ w v d b t. record { stays = subst IsReferential d };
}

unless_missing-StaysReferential :
    (operation : String) (deleted : Bool)
    → Keeps StaysReferential (unless_missing operation deleted)
unless_missing-StaysReferential operation deleted =
    Keeps-if Steady deleted _ _ (λ q. Keeps-pure Steady tt) (λ q. Keeps-fail Steady _)

-- When every row that another one refers to is there, then so it is after a Delete of a video, whatever
-- fails.
delete_video-IsReferential :
    (id : String) (w : World) → IsReferential w.db → IsReferential (delete_video id w).1.db
unfolding delete_video delete_video_rows
delete_video-IsReferential id w h =
    (Keeps.at
        (Keeps-bind Steady _ _
          (Keeps-statement "delete video" (delete_video_rows id) Steady (record {
            at = λ v. record { stays = without_videos-IsReferential (λ x. x.video_id == id) v.db };
          }))
          (unless_missing-StaysReferential "delete video"))
        w).stays
      h

-- When every row that another one refers to is there, then so it is after a Delete of a channel,
-- whatever fails.
pub delete_channel-IsReferential :
    (id : String) (w : World) → IsReferential w.db → IsReferential (delete_channel id w).1.db
unfolding delete_channel delete_channel_rows
delete_channel-IsReferential id w h =
    (Keeps.at
        (Keeps-bind Steady _ _
          (Keeps-statement "delete channel" (delete_channel_rows id) Steady (record {
            at = λ v. record {
              stays = λ g.
                  without_channel-IsReferential id _
                    (without_videos-IsReferential (λ x. x.channel_id == id) v.db g)
                    (All-kept (λ x. not (x.channel_id == id)) v.db.videos);
            };
          }))
          (unless_missing-StaysReferential "delete channel"))
        w).stays
      h
