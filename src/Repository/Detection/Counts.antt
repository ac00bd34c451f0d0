-- ===== src/Repository/Detection/Counts.antt =====
-- SaveDetectionResults keeps the counts of the sponsors' videos right.
use youtube_webhook_ingestio.Base.{
  ℕ, String, Option, none, some, ◌≡◌, refl, sym, ap, subst, ◌∙◌, inl, inr, List, [], ◌∷◌, length,
  not, ◌&&◌, is_some, Bool-cases, arith,
}
use youtube_webhook_ingestio.Errors.{Error, no_rows}
use youtube_webhook_ingestio.Models.{Time}
use youtube_webhook_ingestio.Models.Sponsor.{Sponsor, SponsorDetectionJob, LlmSponsorResult}
use youtube_webhook_ingestio.Table.{find}
use youtube_webhook_ingestio.World.{World, Db, Fault, served, refused, lost}
use youtube_webhook_ingestio.World.Action.{
  Result, ok, err, pure, fail, attempt, remote, answer, next_fault, later_faults, now, bind-eq-ok,
}
use youtube_webhook_ingestio.Repository.Statement.{Statement, statement, on_tables}
use youtube_webhook_ingestio.Repository.Outcome.{statement-eq-ok}
use youtube_webhook_ingestio.Repository.Transaction.Atomic.{transaction-atomic}
use youtube_webhook_ingestio.Repository.Rows.{row_or_none}
use youtube_webhook_ingestio.Repository.Detection.{
  Normalizer, normalized, by_normalized_name, select_sponsor, insert_named_sponsor, change_sponsor,
  as_seen, insert_link, recount, find_detection_job,
}
use youtube_webhook_ingestio.Repository.Detection.Results.{
  sponsor_id_of, find_or_create_sponsor, link_sponsor, save_result, save_results,
  change_detection_job, as_completed_detection, update_detection_job, is_known_prompt, finish,
  rounds_and_finish, count_prompt_use, count_use_in_transaction, Detection, detection_statements,
  save_detection_results,
}
use youtube_webhook_ingestio.Repository.Detection.Sponsors.{IsSoundBut, IsSound}
use youtube_webhook_ingestio.Repository.Detection.Sound.{
  change_sponsor-IsSound, insert_named_sponsor-IsSound, insert_link-IsSoundBut, recount-IsSound,
}

-- The look-up leaves the tables, and finds no row only if there is none.
record LookedUp (name : String) (r : Result Sponsor) (w v : World) : Type 0 where
  same : v.db ≡ w.db
  absent : r ≡ err no_rows → find by_normalized_name name w.db.sponsors ≡ none

row-absent : (o : Option Sponsor) → row_or_none o ≡ err no_rows → o ≡ none
row-absent none h = refl
row-absent (some s) h = absurd (ground arith)

answer-LookedUp :
    (name : String) (f : Fault) (w : World)
    → LookedUp name
        (answer f (on_tables (select_sponsor name)) w).0
        w
        (answer f (on_tables (select_sponsor name)) w).1
unfolding answer select_sponsor
answer-LookedUp name served w = record {
  same = refl;
  absent = row-absent (find by_normalized_name name w.db.sponsors);
}
answer-LookedUp name (refused t) w = record { same = refl; absent = λ h. absurd (ground arith) }
answer-LookedUp name (lost t) w = record { same = refl; absent = λ h. absurd (ground arith) }

statement-IsSound :
    {A : Type 0} (operation : String) (s : Statement A) (P : Db → Type 0) (w w' : World) (a : A)
    → statement operation s w ≡ (ok a, w')
    → P (s w.clock w.db).1
    → P w'.db
statement-IsSound operation s P w w' a h p =
    subst P (ap (λ x. x.1) (statement-eq-ok operation s w {a = a} {w' = w'} h).tables) p

sponsor_id_of-IsSound :
    (time : Time) (result : LlmSponsorResult) (name : String) (r : Result Sponsor) (w v v' : World)
    (id : ℕ)
    → LookedUp name r w v
    → IsSound w.db
    → sponsor_id_of time result name r v ≡ (ok id, v')
    → IsSound v'.db
unfolding sponsor_id_of fail pure
sponsor_id_of-IsSound time result name (ok s) w v v' id k h q =
    let (a, u, e, p) =
      bind-eq-ok
        (statement "update sponsor last seen in transaction" (change_sponsor s.id (as_seen time)))
        (λ a. pure s.id) v q in
    let sound : IsSound u.db =
      statement-IsSound "update sponsor last seen in transaction"
        (change_sponsor s.id (as_seen time)) IsSound v u a e
        (change_sponsor-IsSound s.id time v.clock v.db (subst IsSound (sym k.same) h)) in
    subst IsSound (ap (λ x. x.1.db) p) sound
sponsor_id_of-IsSound time result name (err no_rows) w v v' id k h q =
    statement-IsSound "create sponsor in transaction" (insert_named_sponsor result.name name time)
      IsSound v v' id q
      (insert_named_sponsor-IsSound result.name name time v.clock v.db
        (ap (λ db. find by_normalized_name name db.sponsors) k.same ∙ k.absent refl)
        (subst IsSound (sym k.same) h))
sponsor_id_of-IsSound time result name (err (Error.sentinel s)) w v v' id k h q =
    absurd (ground arith)
sponsor_id_of-IsSound time result name (err (Error.pg e)) w v v' id k h q = absurd (ground arith)
sponsor_id_of-IsSound time result name (err (Error.plain t)) w v v' id k h q = absurd (ground arith)
sponsor_id_of-IsSound time result name (err (Error.wrapped b e a)) w v v' id k h q =
    absurd (ground arith)

abbrev unwrapped : {A : Type 0} → Result (Result A) → Result A
unwrapped (ok r) = r
unwrapped (err e) = err e

save_result-IsSound :
    (n : Normalizer) (job_id : ℕ) (video_id : String) (time : Time) (result : LlmSponsorResult)
    (w w' : World)
    → IsSound w.db
    → save_result n job_id video_id time result w ≡ (ok tt, w')
    → IsSound w'.db
unfolding save_result find_or_create_sponsor link_sponsor remote attempt
save_result-IsSound n job_id video_id time result w w' h q =
    let name = normalized n result.name in
    let (id, v, e, k) =
      bind-eq-ok (find_or_create_sponsor n time result) (link_sponsor job_id video_id time result) w
        q in
    let asked = attempt (remote (on_tables (select_sponsor name))) in
    let (r, u, e1, k1) = bind-eq-ok asked (sponsor_id_of time result name) w e in
    let start : World = record w { faults = later_faults w.faults } in
    let looked = answer-LookedUp name (next_fault w.faults) start in
    let found : LookedUp name r start u =
      subst (λ (x : Result (Result Sponsor) × World). LookedUp name (unwrapped x.0) start x.1) e1
        looked in
    let s1 = sponsor_id_of-IsSound time result name r start u v id found h k1 in
    let (a, x, e2, k2) =
      bind-eq-ok
        (statement "create video sponsor in transaction"
          (insert_link id job_id video_id result time))
        (λ a. statement "increment sponsor video count in transaction" (recount id)) v k in
    let s2 =
      statement-IsSound "create video sponsor in transaction"
        (insert_link id job_id video_id result time) (IsSoundBut (λ y. y ≡ id)) v x a e2
        (insert_link-IsSoundBut id job_id video_id result time v.clock v.db s1) in
    statement-IsSound "increment sponsor video count in transaction" (recount id) IsSound x w' tt k2
      (recount-IsSound id x.clock x.db s2)

save_results-IsSound :
    (n : Normalizer) (job_id : ℕ) (video_id : String) (time : Time)
    (results : List LlmSponsorResult) (w w' : World)
    → IsSound w.db
    → save_results n job_id video_id time results w ≡ (ok tt, w')
    → IsSound w'.db
unfolding save_results pure
save_results-IsSound n job_id video_id time [] w w' h q = subst IsSound (ap (λ x. x.1.db) q) h
save_results-IsSound n job_id video_id time (result ∷ results) w w' h q =
    let (a, v, e, k) =
      bind-eq-ok (save_result n job_id video_id time result)
        (λ a. save_results n job_id video_id time results) w q in
    save_results-IsSound n job_id video_id time results v w'
      (save_result-IsSound n job_id video_id time result w v h e) k

change_detection_job-IsSound :
    (id : ℕ) (prompt_id : Option ℕ) (f : Time → SponsorDetectionJob → SponsorDetectionJob)
    (time : Time) (db : Db)
    → IsSound db
    → IsSound (change_detection_job id prompt_id f time db).1
unfolding change_detection_job
change_detection_job-IsSound id prompt_id f time db h =
    let changed : IsSound (record db {
      sponsor_detection_jobs = update_detection_job id (f time) db.sponsor_detection_jobs;
    }) =
      record { distinct = h.distinct; known = h.known; linked = h.linked; counted = h.counted } in
    elim (Bool-cases (
      is_some (find_detection_job id db.sponsor_detection_jobs)
      && not (is_known_prompt prompt_id db.sponsor_detection_prompts))) [
        | inl p ↦ simp p h
        | inr p ↦ simp p changed
      ]

count_use-IsSound :
    (prompt_id : Option ℕ) (w w' : World)
    → IsSound w.db
    → count_use_in_transaction prompt_id w ≡ (ok tt, w')
    → IsSound w'.db
unfolding count_use_in_transaction pure count_prompt_use
count_use-IsSound none w w' h q = subst IsSound (ap (λ x. x.1.db) q) h
count_use-IsSound (some id) w w' h q =
    statement-IsSound "increment prompt usage in transaction" (count_prompt_use id) IsSound w w' tt
      q (record { distinct = h.distinct; known = h.known; linked = h.linked; counted = h.counted })

detection_statements-IsSound :
    (n : Normalizer) (d : Detection) (w w' : World)
    → IsSound w.db
    → detection_statements n d w ≡ (ok tt, w')
    → IsSound w'.db
unfolding detection_statements rounds_and_finish finish now
detection_statements-IsSound n d w w' h q =
    let (time, v, e, k) = bind-eq-ok now (rounds_and_finish n d) w q in
    let (a, x, e2, k2) =
      bind-eq-ok (save_results n d.job_id d.video_id time d.results) (λ a. finish d time) v k in
    let change = change_detection_job d.job_id d.prompt_id (
      as_completed_detection d.prompt_id d.raw_response d.processing_time_ms (length d.results)
        time) in
    let (b, y, e3, k3) =
      bind-eq-ok (statement "update detection job in transaction" change)
        (λ b. count_use_in_transaction d.prompt_id) x k2 in
    let s0 : IsSound v.db = subst IsSound (ap (λ x. x.1.db) e) h in
    let s1 = save_results-IsSound n d.job_id d.video_id time d.results v x s0 e2 in
    let s2 =
      statement-IsSound "update detection job in transaction" change IsSound x y b e3
        (change_detection_job-IsSound d.job_id d.prompt_id _ x.clock x.db s1) in
    count_use-IsSound d.prompt_id y w' s2 k3

-- Sound tables of sponsors stay sound under SaveDetectionResults, whatever fails. They are sound when no two
-- sponsors have the same normalized name, the IDs of the sponsors and those in the links are below the next
-- one to be given, and the count of each sponsor is the number of the distinct videos linked to it.
pub save_detection_results-IsSound :
    (n : Normalizer) (d : Detection) (w : World)
    → IsSound w.db
    → IsSound (save_detection_results n d w).1.db
unfolding save_detection_results
save_detection_results-IsSound n d w h = elim (transaction-atomic (detection_statements n d) w) [
  | inl q ↦ subst IsSound (sym q) h
  | inr c ↦
      subst IsSound (sym c.tables)
        (detection_statements-IsSound n d c.start c.end (subst IsSound (sym c.from) h) c.ran)
]
