-- ===== src/Quota/Workers.antt =====
-- Several workers that share the quota of a day: cmd/enricher runs `concurrency` of them, and each checks
-- (ProcessTask) and records the cost later (FetchVideos), so that the calls of others come in between.
use youtube_webhook_ingestio.Base.{
  ℕ, zero, suc, String, ap, ◌+◌, ◌*◌, ◌≤◌, ◌<◌, ◌≡◌, refl, sym, ◌∙◌, arith, Bool, true,
}
use youtube_webhook_ingestio.Models.{QuotaInfo}
use youtube_webhook_ingestio.Errors.{Error}
use youtube_webhook_ingestio.World.{World}
use youtube_webhook_ingestio.World.Action.{Result, ok, err}
use youtube_webhook_ingestio.Quota.{
  Manager, threshold_quota, check_quota_available, record_quota_usage,
}
use youtube_webhook_ingestio.Quota.Threshold.{used_today, used_on, check_quota_available-ok}
use youtube_webhook_ingestio.Quota.Recording.{
  check_quota_available-keeps, record_quota_usage-bounded, record_quota_usage-grows,
}

-- The world, how many workers were allowed an operation that they have neither recorded nor given up, and
-- how often RecordQuotaUsage has returned no error.
pub record Shared : Type 0 where
  pub world : World
  pub granted : ℕ
  pub recorded : ℕ

-- One step of one of `workers` workers, each operation with the same cost, or of anything else.
pub data Step (m : Manager) (cost workers : ℕ) (operation_type : String)
    : Shared → Shared → Type 0 where
  -- CheckQuotaAvailable allows the operation of a worker that is free.
  grant :
      {s : Shared} {info : QuotaInfo} {w' : World}
      → s.granted < workers
      → check_quota_available m cost s.world ≡ (ok (true, info), w')
      → Step m cost workers operation_type s (record s { world = w'; granted = suc s.granted })
  -- CheckQuotaAvailable returns something, and the worker gives up.
  deny :
      {s : Shared} {w' : World} (r : Result (Bool × QuotaInfo))
      → check_quota_available m cost s.world ≡ (r, w')
      → Step m cost workers operation_type s (record s { world = w' })
  -- A worker that was allowed the operation gives it up, as when the API has failed.
  abandon :
      {s : Shared} {n : ℕ}
      → s.granted ≡ suc n
      → Step m cost workers operation_type s (record s { granted = n })
  -- A worker that was allowed the operation records its cost.
  spend :
      {s : Shared} {n : ℕ} {w' : World}
      → s.granted ≡ suc n
      → record_quota_usage m cost operation_type s.world ≡ (ok tt, w')
      → Step m cost workers operation_type s
          (record { world = w'; granted = n; recorded = suc s.recorded })
  -- RecordQuotaUsage fails, which the client only logs: the cost may be in the table or not.
  misspend :
      {s : Shared} {n : ℕ} {e : Error} {w' : World}
      → s.granted ≡ suc n
      → record_quota_usage m cost operation_type s.world ≡ (err e, w')
      → Step m cost workers operation_type s (record s { world = w'; granted = n })
  -- All else that happens on the same day leaves the table of the quota alone.
  other :
      {s : Shared} (w' : World)
      → w'.db.api_quota_usage ≡ s.world.db.api_quota_usage
      → m.day w'.clock ≡ m.day s.world.clock
      → Step m cost workers operation_type s (record s { world = w' })

pub data Steps (m : Manager) (cost workers : ℕ) (operation_type : String)
    : Shared → Shared → Type 0 where
  stop : {s : Shared} → Steps m cost workers operation_type s s
  next :
      {s t u : Shared}
      → Step m cost workers operation_type s t
      → Steps m cost workers operation_type t u
      → Steps m cost workers operation_type s u

-- The operations that were allowed still fit under the bound, and what was recorded is in the table, above
-- what was used at first.
record Fits (m : Manager) (cost workers first : ℕ) (s : Shared) : Type 0 where
  above : used_today m s.world + cost * s.granted + cost ≤ threshold_quota m + cost * workers
  below : first + cost * s.recorded ≤ used_today m s.world

mul_grows : (c a b : ℕ) → a ≤ b → c * a ≤ c * b
mul_grows zero a b h = omega arith
mul_grows (suc c) a b h = omega (arith, mul_grows c a b h)

module _ (m : Manager) (cost workers first : ℕ) (operation_type : String) where
  Step-Fits :
      {s t : Shared}
      → Step m cost workers operation_type s t
      → Fits m cost workers first s
      → Fits m cost workers first t
  Step-Fits (grant {s} {info} {w'} g a) f =
      let fits = ((check_quota_available-ok m cost true info s.world w' a).0.0 refl).1 in
      let same : used_today m w' ≡ used_today m s.world =
        ap (λ x. used_today m x.1) (sym a) ∙ check_quota_available-keeps m cost s.world in
      record {
        above = omega (arith, fits, same, mul_grows cost (suc s.granted) workers g);
        below = omega (arith, same, f.below);
      }
  Step-Fits (deny {s} {w'} r a) f =
      let same : used_today m w' ≡ used_today m s.world =
        ap (λ x. used_today m x.1) (sym a) ∙ check_quota_available-keeps m cost s.world in
      record { above = omega (arith, same, f.above); below = omega (arith, same, f.below) }
  Step-Fits (abandon {s} {n} e) f = record {
    above = omega (arith, ap (λ x. cost * x) e, f.above);
    below = f.below;
  }
  Step-Fits (spend {s} {n} {w'} e r) f =
      let grown = record_quota_usage-grows m cost operation_type s.world w' r in
      record {
        above = omega (arith, grown, ap (λ x. cost * x) e, f.above);
        below = omega (arith, grown, f.below);
      }
  Step-Fits (misspend {s} {n} {e} {w'} g r) f =
      let same : used_today m (record_quota_usage m cost operation_type s.world).1
          ≡ used_today m w' =
        ap (λ x. used_today m x.1) r in
      let bounds = record_quota_usage-bounded m cost operation_type s.world in
      record {
        above = omega (arith, same, bounds.1, ap (λ x. cost * x) g, f.above);
        below = omega (arith, same, bounds.0, f.below);
      }
  Step-Fits (other {s} w' q d) f =
      let same : used_today m w' ≡ used_today m s.world = λ i. used_on (d i) (q i) in
      record { above = omega (arith, same, f.above); below = omega (arith, same, f.below) }

  Steps-Fits :
      {s t : Shared}
      → Steps m cost workers operation_type s t
      → Fits m cost workers first s
      → Fits m cost workers first t
  Steps-Fits stop f = f
  Steps-Fits (next a b) f = Steps-Fits b (Step-Fits a f)

-- Workers, at least one, share the quota of a day from a usage that is at most the threshold, with no
-- operation allowed or recorded yet; each operation has the same cost, the workers are the only ones who
-- record, and the day does not change. Then, however their calls of CheckQuotaAvailable and
-- RecordQuotaUsage interleave, whichever of these calls fail and whichever operations are given up, the usage
-- exceeds the threshold by at most one operation for each worker but one, and every recording that has
-- returned no error is in the table.
pub steps-within_threshold :
    (m : Manager) (cost workers : ℕ) (operation_type : String) (s t : Shared)
    → 1 ≤ workers
    → s.granted ≡ 0
    → s.recorded ≡ 0
    → used_today m s.world ≤ threshold_quota m
    → Steps m cost workers operation_type s t
    → (used_today m t.world + cost ≤ threshold_quota m + cost * workers)
      × (used_today m s.world + cost * t.recorded ≤ used_today m t.world)
steps-within_threshold m cost workers operation_type s t n g z q r =
    let end = Steps-Fits m cost workers (used_today m s.world) operation_type r (record {
      above = omega (arith, q, ap (λ x. cost * x) g, mul_grows cost 1 workers n);
      below = omega (arith, ap (λ x. cost * x) z);
    }) in
    (omega (arith, end.above), end.below)
