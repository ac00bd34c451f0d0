-- ===== src/Repository/Detection/Sponsors.antt =====
-- The tables of the sponsors and of their links to videos, under the single statements of
-- SaveDetectionResults.
use youtube_webhook_ingestio.Base.{
  ℕ, ◌<◌, String, false, none, ◌≡◌, ◌≢◌, refl, ap, ◌∙◌, ◌==◌, eqb, eqb_iff, eq_iff, Bool-cases, inl,
  inr, List, [], ◌∷◌, ◌++◌, keep, map, All, arith,
}
use youtube_webhook_ingestio.Models.Sponsor.{Sponsor, VideoSponsor}
use youtube_webhook_ingestio.Table.{find}
use youtube_webhook_ingestio.World.{Db}
use youtube_webhook_ingestio.Repository.Enrichments.{count_distinct}
use youtube_webhook_ingestio.Repository.Detection.{
  by_normalized_name, update_sponsor, linked_videos,
}

-- No two sponsors have the same normalized name.
abbrev pub AreDistinct : List Sponsor → Type 0
AreDistinct [] = Unit
AreDistinct (s ∷ rows) = (find by_normalized_name s.normalized_name rows ≡ none) × AreDistinct rows

-- The number stored for a sponsor is the number of videos that it is linked to.
abbrev pub IsCounted : List VideoSponsor → Sponsor → Type 0
IsCounted links s = s.video_count ≡ linked_videos s.id links

-- The tables of the sponsors are sound, but that the count of the sponsors with an ID may be wrong.
pub record IsSoundBut (IsOpen : ℕ → Type 0) (db : Db) : Type 0 where
  pub distinct : AreDistinct db.sponsors
  pub known : All (λ s. s.id < db.next_sponsor_id) db.sponsors
  pub linked : All (λ l. l.sponsor_id < db.next_sponsor_id) db.video_sponsors
  pub counted : All (λ s. ¬ IsOpen s.id → IsCounted db.video_sponsors s) db.sponsors

-- Every count is right.
abbrev pub IsSound : Db → Type 0
IsSound = IsSoundBut (λ id. ⊥)

pub All-update_sponsor :
    (P Q : Sponsor → Type 0) (id : ℕ) (f : Sponsor → Sponsor) (rows : List Sponsor)
    → ((s : Sponsor) → P s → s.id ≡ id → Q (f s))
    → ((s : Sponsor) → P s → s.id ≢ id → Q s)
    → All P rows
    → All Q (update_sponsor id f rows)
unfolding update_sponsor
All-update_sponsor P Q id f [] hit other h = tt
All-update_sponsor P Q id f (s ∷ rows) hit other h =
    let rest = All-update_sponsor P Q id f rows hit other h.1 in
    elim (Bool-cases (eqb s.id id)) [
      | inl q ↦ simp q (hit s h.0 ((eqb_iff s.id id).0 q), rest)
      | inr q ↦ simp q (other s h.0 (λ e. absurd (ground (arith, (eqb_iff s.id id).1 e))), rest)
    ]

find-update_sponsor :
    (k : String) (id : ℕ) (f : Sponsor → Sponsor) (rows : List Sponsor)
    → ((s : Sponsor) → (f s).normalized_name ≡ s.normalized_name)
    → find by_normalized_name k rows ≡ none
    → find by_normalized_name k (update_sponsor id f rows) ≡ none
unfolding find update_sponsor
find-update_sponsor k id f [] keeps h = refl
find-update_sponsor k id f (s ∷ rows) keeps h =
    ground (arith, keeps s, find-update_sponsor k id f rows keeps)

pub AreDistinct-update_sponsor :
    (id : ℕ) (f : Sponsor → Sponsor) (rows : List Sponsor)
    → ((s : Sponsor) → (f s).normalized_name ≡ s.normalized_name)
    → AreDistinct rows
    → AreDistinct (update_sponsor id f rows)
unfolding update_sponsor
AreDistinct-update_sponsor id f [] keeps h = tt
AreDistinct-update_sponsor id f (s ∷ rows) keeps h =
    let rest = AreDistinct-update_sponsor id f rows keeps h.1 in
    let apart = find-update_sponsor s.normalized_name id f rows keeps h.0 in
    elim (Bool-cases (eqb s.id id)) [
      | inl q ↦
          simp q
            (ap (λ k. find by_normalized_name k (update_sponsor id f rows)) (keeps s) ∙ apart, rest)
      | inr q ↦ simp q (apart, rest)
    ]

find-append_other :
    (k : String) (rows : List Sponsor) (x : Sponsor)
    → find by_normalized_name k rows ≡ none
    → (x.normalized_name == k) ≡ false
    → find by_normalized_name k (rows ++ x ∷ []) ≡ none
unfolding find
find-append_other k [] x h q = ground arith
find-append_other k (s ∷ rows) x h q =
    ground (arith, λ (p : find by_normalized_name k rows ≡ none). find-append_other k rows x p q)

pub AreDistinct-append :
    (rows : List Sponsor) (x : Sponsor)
    → find by_normalized_name x.normalized_name rows ≡ none
    → AreDistinct rows
    → AreDistinct (rows ++ x ∷ [])
unfolding find
AreDistinct-append [] x h d = (refl, tt)
AreDistinct-append (s ∷ rows) x h d = elim (Bool-cases (s.normalized_name == x.normalized_name)) [
  | inl q ↦ absurd (ground (arith, simp q at h))
  | inr q ↦
      let r : (x.normalized_name == s.normalized_name) ≡ false = ground (
        arith,
        eq_iff s.normalized_name x.normalized_name,
        eq_iff x.normalized_name s.normalized_name,
      ) in
      (
        find-append_other s.normalized_name rows x d.0 r,
        AreDistinct-append rows x (simp q at h) d.1,
      )
]

keep-append_other :
    (id : ℕ) (links : List VideoSponsor) (l : VideoSponsor)
    → l.sponsor_id ≢ id
    → keep (λ x. eqb x.sponsor_id id) (links ++ l ∷ []) ≡ keep (λ x. eqb x.sponsor_id id) links
keep-append_other id [] l other = ground (arith, eqb_iff l.sponsor_id id)
keep-append_other id (x ∷ links) l other = ground (arith, keep-append_other id links l other)

pub keep-above :
    (id : ℕ) (links : List VideoSponsor)
    → All (λ l. l.sponsor_id < id) links
    → keep (λ x. eqb x.sponsor_id id) links ≡ []
keep-above id [] h = refl
keep-above id (l ∷ links) h = ground (arith, keep-above id links h.1, h.0)

-- Links to other sponsors do not count.
pub linked_videos-append_other :
    (id : ℕ) (links : List VideoSponsor) (l : VideoSponsor)
    → l.sponsor_id ≢ id
    → linked_videos id (links ++ l ∷ []) ≡ linked_videos id links
unfolding linked_videos
linked_videos-append_other id links l other =
    ap (λ x. count_distinct (map (λ l. l.video_id) x)) (keep-append_other id links l other)
