-- ===== src/Repository/Detection/Sound.antt =====
-- The single statements of SaveDetectionResults keep the tables of the sponsors sound, the insertion of a
-- link but for the count of its sponsor, which the next statement sets right.
use youtube_webhook_ingestio.Base.{
  ℕ, suc, ◌<◌, String, Bool, true, false, none, ◌≡◌, refl, sym, ap, subst, ◌∙◌, Bool-cases, inl,
  inr, List, [], ◌∷◌, ◌++◌, map, All, All-append, is_some, eqb, eqb_iff, arith,
}
use youtube_webhook_ingestio.Models.{Time}
use youtube_webhook_ingestio.Models.Sponsor.{Sponsor, VideoSponsor, LlmSponsorResult}
use youtube_webhook_ingestio.Table.{find}
use youtube_webhook_ingestio.World.{Db}
use youtube_webhook_ingestio.Repository.Videos.{by_video_id}
use youtube_webhook_ingestio.Repository.Enrichments.{count_distinct}
use youtube_webhook_ingestio.Repository.Rows.Order.{All-map}
use youtube_webhook_ingestio.Repository.Detection.{
  by_normalized_name, by_name, find_link, links_between, find_detection_job, is_confidence,
  insert_named_sponsor, change_sponsor, as_seen, insert_link, link_row, linked_videos, recount,
  find_sponsor, insert_link_row,
}
use youtube_webhook_ingestio.Repository.Detection.Sponsors.{
  IsCounted, IsSoundBut, IsSound, All-update_sponsor, AreDistinct-update_sponsor,
  AreDistinct-append, keep-above, linked_videos-append_other,
}

pub change_sponsor-IsSound :
    (id : ℕ) (seen_at time : Time) (db : Db)
    → IsSound db
    → IsSound (change_sponsor id (as_seen seen_at) time db).1
change_sponsor-IsSound id seen_at time db h = record {
  distinct =
      AreDistinct-update_sponsor id (as_seen seen_at time) db.sponsors (λ s. refl) h.distinct;
  known =
      All-update_sponsor (λ s. s.id < db.next_sponsor_id) (λ s. s.id < db.next_sponsor_id) id
        (as_seen seen_at time) db.sponsors (λ s p e. p) (λ s p e. p) h.known;
  linked = h.linked;
  counted =
      All-update_sponsor (λ s. ¬ ⊥ → IsCounted db.video_sponsors s)
        (λ s. ¬ ⊥ → IsCounted db.video_sponsors s) id (as_seen seen_at time) db.sponsors
        (λ s p e. p) (λ s p e. p) h.counted;
}

linked_videos-above :
    (id : ℕ) (links : List VideoSponsor)
    → All (λ l. l.sponsor_id < id) links
    → linked_videos id links ≡ 0
unfolding linked_videos count_distinct
linked_videos-above id links h =
    ap (λ x. count_distinct (map (λ l. l.video_id) x)) (keep-above id links h)

-- The row that a result without a sponsor inserts
abbrev new_sponsor : String → String → Time → Time → ℕ → Sponsor
new_sponsor name normalized_name seen_at time id = record {
  id = id;
  name = name;
  normalized_name = normalized_name;
  category = none;
  website_url = none;
  description = none;
  first_seen_at = seen_at;
  last_seen_at = seen_at;
  video_count = 0;
  created_at = time;
  updated_at = time;
}

pub insert_named_sponsor-IsSound :
    (name normalized_name : String) (seen_at time : Time) (db : Db)
    → find by_normalized_name normalized_name db.sponsors ≡ none
    → IsSound db
    → IsSound (insert_named_sponsor name normalized_name seen_at time db).1
unfolding insert_named_sponsor
insert_named_sponsor-IsSound name normalized_name seen_at time db q h =
    let x = new_sponsor name normalized_name seen_at time db.next_sponsor_id in
    elim (Bool-cases (is_some (find by_name name db.sponsors))) [
      | inl p ↦ simp p h
      | inr p ↦
          let sound : IsSound (record db {
            sponsors = db.sponsors ++ x ∷ [];
            next_sponsor_id = suc db.next_sponsor_id;
          }) =
            record {
              distinct = AreDistinct-append db.sponsors x q h.distinct;
              known =
                  All-append (λ s. s.id < suc db.next_sponsor_id) db.sponsors (x ∷ [])
                    (All-map (λ s. s.id < db.next_sponsor_id) (λ s. s.id < suc db.next_sponsor_id)
                      db.sponsors (λ s p. omega arith) h.known)
                    (omega arith, tt);
              linked =
                  All-map (λ l. l.sponsor_id < db.next_sponsor_id)
                    (λ l. l.sponsor_id < suc db.next_sponsor_id) db.video_sponsors
                    (λ l p. omega arith) h.linked;
              counted =
                  All-append (λ s. ¬ ⊥ → IsCounted db.video_sponsors s) db.sponsors (x ∷ [])
                    h.counted
                    (
                      (λ n.
                          sym (linked_videos-above db.next_sponsor_id db.video_sponsors h.linked)),
                      tt,
                    );
            } in
          simp p sound
    ]

find_sponsor-below :
    (id n : ℕ) (rows : List Sponsor)
    → All (λ s. s.id < n) rows
    → is_some (find_sponsor id rows) ≡ true
    → id < n
unfolding find_sponsor
find_sponsor-below id n [] h q = absurd (ground arith)
find_sponsor-below id n (s ∷ rows) h q = elim (Bool-cases (eqb s.id id)) [
  | inl p ↦ subst (λ x. x < n) ((eqb_iff s.id id).0 p) h.0
  | inr p ↦ find_sponsor-below id n rows h.1 (simp p at q)
]

IsSound-but : (id : ℕ) (db : Db) → IsSound db → IsSoundBut (λ x. x ≡ id) db
IsSound-but id db h = record {
  distinct = h.distinct;
  known = h.known;
  linked = h.linked;
  counted =
      All-map (λ s. ¬ ⊥ → IsCounted db.video_sponsors s)
        (λ s. ¬ (s.id ≡ id) → IsCounted db.video_sponsors s) db.sponsors (λ s p n. p (λ x. x))
        h.counted;
}

appended-IsSoundBut :
    (l : VideoSponsor) (db : Db)
    → IsSound db
    → is_some (find_sponsor l.sponsor_id db.sponsors) ≡ true
    → IsSoundBut
        (λ x. x ≡ l.sponsor_id)
        (record db {
          video_sponsors = db.video_sponsors ++ l ∷ [];
          next_video_sponsor_id = suc db.next_video_sponsor_id;
        })
appended-IsSoundBut l db h q = record {
  distinct = h.distinct;
  known = h.known;
  linked =
      All-append (λ l. l.sponsor_id < db.next_sponsor_id) db.video_sponsors (l ∷ []) h.linked
        (find_sponsor-below l.sponsor_id db.next_sponsor_id db.sponsors h.known q, tt);
  counted =
      All-map (λ s. ¬ ⊥ → IsCounted db.video_sponsors s)
        (λ s. ¬ (s.id ≡ l.sponsor_id) → IsCounted (db.video_sponsors ++ l ∷ []) s) db.sponsors
        (λ s p n.
          p (λ x. x) ∙ sym (linked_videos-append_other s.id db.video_sponsors l λ e. n (sym e)))
        h.counted;
}

insert_link_row-IsSoundBut :
    (taken : Bool) (l : VideoSponsor) (time : Time) (db : Db)
    → IsSound db
    → IsSoundBut (λ x. x ≡ l.sponsor_id) (insert_link_row taken l time db).1
insert_link_row-IsSoundBut true l time db h = IsSound-but l.sponsor_id db h
insert_link_row-IsSoundBut false l time db h =
    let same = IsSound-but l.sponsor_id db h in
    elim (Bool-cases (is_some (find by_video_id l.video_id db.videos))) [
      | inr p ↦ simp p same
      | inl p ↦ elim (Bool-cases (is_some (find_sponsor l.sponsor_id db.sponsors))) [
        | inr q ↦ simp (p, q) same
        | inl q ↦
            elim (Bool-cases
              (is_some (find_detection_job l.detection_job_id db.sponsor_detection_jobs))) [
                | inr r ↦ simp (p, q, r) same
                | inl r ↦ let grown = appended-IsSoundBut l db h q in simp (p, q, r) grown
              ]
      ]
    ]

pub insert_link-IsSoundBut :
    (sponsor_id job_id : ℕ) (video_id : String) (result : LlmSponsorResult) (seen_at time : Time)
    (db : Db)
    → IsSound db
    → IsSoundBut
        (λ x. x ≡ sponsor_id)
        (insert_link sponsor_id job_id video_id result seen_at time db).1
unfolding insert_link
insert_link-IsSoundBut sponsor_id job_id video_id result seen_at time db h =
    elim (Bool-cases (is_confidence result.confidence)) [
      | inr p ↦ let same = IsSound-but sponsor_id db h in simp p same
      | inl p ↦
          let made =
            insert_link_row-IsSoundBut
              (is_some (find_link (links_between video_id sponsor_id job_id) db.video_sponsors))
              (link_row sponsor_id job_id video_id result seen_at time db.next_video_sponsor_id)
              time db h in
          simp p made
    ]

-- The count that was open is right again.
pub recount-IsSound :
    (sponsor_id : ℕ) (time : Time) (db : Db)
    → IsSoundBut (λ x. x ≡ sponsor_id) db
    → IsSound (recount sponsor_id time db).1
unfolding recount
recount-IsSound sponsor_id time db h =
    let f : Sponsor → Sponsor =
      λ s. record s { video_count = linked_videos sponsor_id db.video_sponsors } in
    record {
      distinct = AreDistinct-update_sponsor sponsor_id f db.sponsors (λ s. refl) h.distinct;
      known =
          All-update_sponsor (λ s. s.id < db.next_sponsor_id) (λ s. s.id < db.next_sponsor_id)
            sponsor_id f db.sponsors (λ s p e. p) (λ s p e. p) h.known;
      linked = h.linked;
      counted =
          All-update_sponsor (λ s. ¬ (s.id ≡ sponsor_id) → IsCounted db.video_sponsors s)
            (λ s. ¬ ⊥ → IsCounted db.video_sponsors s) sponsor_id f db.sponsors
            (λ s p e n. ap (λ id. linked_videos id db.video_sponsors) (sym e)) (λ s p e n. p e)
            h.counted;
    }
