-- ===== src/Repository/JobRows/Urgency.antt =====
-- Which jobs GetPendingJobs returns, and in which order.
use mathlib.Core.List.{Perm, append_assoc}
use mathlib.Core.List.Perm
use youtube_webhook_ingestio.Base.{
  ◌++◌, not, drop, subst, take-append-drop, ℤ, Bool, true, false, ◌≡◌, ap, sym, length-take, ◌≤◌,
  List, keep, take, map, length, All, arith,
}
use youtube_webhook_ingestio.Models.{EnrichmentJob, pending}
use youtube_webhook_ingestio.World.{World}
use youtube_webhook_ingestio.World.Action.{ok}
use youtube_webhook_ingestio.World.Yields.{ok-injective}
use youtube_webhook_ingestio.Repository.Enrichments.{limit_or}
use youtube_webhook_ingestio.Repository.JobRows.{
  same_status, more_urgent, pending_columns, get_pending_jobs,
}
use youtube_webhook_ingestio.Repository.Outcome.{statement-eq-ok}
use youtube_webhook_ingestio.Repository.Rows.{ordered, rows_where, first_rows}
use youtube_webhook_ingestio.Repository.Rows.Permuted.{ordered-perm, keep-perm}
use youtube_webhook_ingestio.Repository.Rows.Order.{
  All-take, All-ordered, All-kept, All-of_ordered, All-of_keep, IsOrdered, IsOrdered-take, IsPlaced,
  take-placed, IsOrdered-ordered,
}

more_urgent-total : (i j : EnrichmentJob) → more_urgent i j ≡ false → more_urgent j i ≡ true
more_urgent-total i j h = ground arith

more_urgent-transitive :
    (i j k : EnrichmentJob)
    → more_urgent i j ≡ true
    → more_urgent j k ≡ true
    → more_urgent i k ≡ true
more_urgent-transitive i j k p q = ground arith

-- What GetPendingJobs promises of the rows that it selects from a table.
pub record MostUrgent (limit : ℤ) (table jobs : List EnrichmentJob) : Type 0 where
  -- the rows of the table that are not selected
  pub others : List EnrichmentJob
  pub chosen : Perm (jobs ++ others) table
  pub in_order : IsOrdered more_urgent jobs
  pub only_pending : All (λ j. same_status pending j.status ≡ true) jobs
  pub bounded : length jobs ≤ limit_or 100 limit
  pub complete :
      All
        (λ j.
          same_status pending j.status ≡ true → IsPlaced more_urgent (limit_or 100 limit) jobs j)
        table

first_rows-MostUrgent :
    (limit : ℤ) (table : List EnrichmentJob)
    → MostUrgent limit table
        (first_rows (λ j. same_status pending j.status) more_urgent (limit_or 100 limit) table)
unfolding first_rows rows_where
first_rows-MostUrgent limit table =
    let is_pending : EnrichmentJob → Bool = λ j. same_status pending j.status in
    let n = limit_or 100 limit in
    let rows = ordered more_urgent (keep is_pending table) in
    let sorted =
      IsOrdered-ordered more_urgent more_urgent-total more_urgent-transitive
        (keep is_pending table) in
    let left = keep (λ j. not (is_pending j)) table in
    record {
      others = drop n rows ++ left;
      chosen =
          subst (λ l. Perm l table) (append_assoc (take n rows) (drop n rows) left)
            (subst (λ l. Perm (l ++ left) table) (sym (take-append-drop n rows))
              (Perm.trans
                (Perm.append (ordered-perm more_urgent (keep is_pending table)) (Perm.refl left))
                (keep-perm is_pending table)));
      in_order = IsOrdered-take more_urgent n rows sorted;
      only_pending =
          All-take (λ j. is_pending j ≡ true) n rows
            (All-ordered (λ j. is_pending j ≡ true) more_urgent (keep is_pending table)
              (All-kept is_pending table));
      bounded = omega (arith, length-take n rows);
      complete = All-of_keep (IsPlaced more_urgent n (take n rows)) is_pending table (
          All-of_ordered (IsPlaced more_urgent n (take n rows)) more_urgent (keep is_pending table)
            (take-placed more_urgent n rows sorted));
    }

-- When GetPendingJobs returns jobs, they are the columns that it reads of rows of the table, each selected
-- once: the rows selected and others that are not are together the rows of the table. Those selected are
-- pending, at most as many as the limit says (100 for a limit that is not positive), by falling priority
-- and, for the same priority, by rising schedule; and a pending row of the table that is not among them
-- comes after each of them in that order, and the limit is reached.
pub get_pending_jobs-MostUrgent :
    (limit : ℤ) (w w' : World) (jobs : List EnrichmentJob)
    → get_pending_jobs limit w ≡ (ok jobs, w')
    → (rows : List EnrichmentJob) × (jobs ≡ map pending_columns rows)
      × MostUrgent limit w.db.enrichment_jobs rows
unfolding get_pending_jobs
get_pending_jobs-MostUrgent limit w w' jobs h =
    let ran = statement-eq-ok "get pending jobs" _ w h in
    let e = ok-injective _ _ (ap (λ x. x.0) ran.tables) in
    (_, sym e, first_rows-MostUrgent limit w.db.enrichment_jobs)
