-- ===== src/Quota/Recording.antt =====
-- What the calls of the quota manager leave in the table, whether they return an error or not.
use youtube_webhook_ingestio.Base.{
  ℕ, ◌+◌, ◌≤◌, String, ◌≡◌, refl, ap, ◌∙◌, inl, inr, eqb_iff, arith, ◌==◌, if◌then◌else◌,
}
use youtube_webhook_ingestio.Models.{QuotaInfo}
use youtube_webhook_ingestio.World.{World}
use youtube_webhook_ingestio.World.Action.{Result, ok, err, pure, attempt, context, continue, ◌>>=◌}
use youtube_webhook_ingestio.Repository.Statement.{statement}
use youtube_webhook_ingestio.Repository.Outcome.{statement-atomic}
use youtube_webhook_ingestio.Repository.Quota.{
  get_todays_quota, increment_quota, increment_todays_quota, add_usage,
}
use youtube_webhook_ingestio.Quota.{
  Manager, is_available, check_quota_available, record_quota_usage,
}
use youtube_webhook_ingestio.Quota.Threshold.{
  used_today, used_on, read-keeps, used_on-add_usage, record_quota_usage-ok,
  record_quota_usage-clock,
}

continue-pure :
    {A B : Type 0} (r : Result A) (f : A → B) (w : World) → (continue r (λ a. pure (f a)) w).1 ≡ w
unfolding pure
continue-pure (ok a) f w = refl
continue-pure (err e) f w = refl

used_today_same :
    (m : Manager) (w w' : World)
    → w'.db ≡ w.db
    → w'.clock ≡ w.clock
    → used_today m w' ≡ used_today m w
used_today_same m w w' d c i = used_on (m.day (c i)) (d i).api_quota_usage

-- A check does not change what was used today.
pub check_quota_available-keeps :
    (m : Manager) (required_quota : ℕ) (w : World)
    → used_today m (check_quota_available m required_quota w).1 ≡ used_today m w
unfolding check_quota_available context ◌>>=◌
check_quota_available-keeps m required_quota w =
    ap (used_today m) (
      continue-pure _ (λ (info : QuotaInfo). (is_available m required_quota info, info))
        (get_todays_quota m.day w).1)
    ∙ used_today_same m w (get_todays_quota m.day w).1 (read-keeps m w).0 (read-keeps m w).1

increment_quota-bounded :
    (m : Manager) (quota_cost : ℕ) (operation_type : String) (w : World)
    → (used_today m w ≤ used_today m (increment_quota m.day quota_cost operation_type w).1)
      × (used_today m (increment_quota m.day quota_cost operation_type w).1
          ≤ used_today m w + quota_cost)
unfolding increment_quota increment_todays_quota
increment_quota-bounded m quota_cost operation_type w =
    let t : String = if operation_type == "" then "other" else operation_type in
    let (tables, clock) =
      statement-atomic "increment quota" (increment_todays_quota m.day quota_cost t) w in
    let w' = (statement "increment quota" (increment_todays_quota m.day quota_cost t) w).1 in
    elim tables [
      | inl q ↦ let e = used_today_same m w w' q clock in (omega (arith, e), omega (arith, e))
      | inr q ↦
          let e : used_today m w'
              ≡ used_on (m.day w.clock)
                  (add_usage (m.day w.clock) quota_cost t w.db.api_quota_usage) =
            λ i. used_on (m.day (clock i)) (q i).api_quota_usage in
          let grown : used_today m w' ≡ used_today m w + quota_cost =
            e
            ∙ used_on-add_usage (m.day w.clock) (m.day w.clock) quota_cost t w.db.api_quota_usage
            ∙ ground (arith, eqb_iff (m.day w.clock) (m.day w.clock)) in
          (omega (arith, grown), omega (arith, grown))
    ]

-- The read behind the recording changes nothing.
after_increment-keeps :
    (m : Manager) (r : Result (Unit {0})) (w : World)
    → used_today m
        (continue {0, 0} r (λ a. attempt (get_todays_quota m.day) >>= λ info. pure tt) w).1
      ≡ used_today m w
unfolding attempt pure ◌>>=◌
after_increment-keeps m (ok a) w =
    used_today_same m w (get_todays_quota m.day w).1 (read-keeps m w).0 (read-keeps m w).1
after_increment-keeps m (err e) w = refl

-- Whatever RecordQuotaUsage returns, what was used today has not shrunk, and has grown by the cost at most.
pub record_quota_usage-bounded :
    (m : Manager) (quota_cost : ℕ) (operation_type : String) (w : World)
    → (used_today m w ≤ used_today m (record_quota_usage m quota_cost operation_type w).1)
      × (used_today m (record_quota_usage m quota_cost operation_type w).1
          ≤ used_today m w + quota_cost)
unfolding record_quota_usage context
record_quota_usage-bounded m quota_cost operation_type w =
    let read =
      after_increment-keeps m
        (context "failed to record quota usage" (increment_quota m.day quota_cost operation_type)
          w).0
        (increment_quota m.day quota_cost operation_type w).1 in
    let bounds = increment_quota-bounded m quota_cost operation_type w in
    (omega (arith, read, bounds.0), omega (arith, read, bounds.1))

-- When it returns no error, what was used today has grown by the cost.
pub record_quota_usage-grows :
    (m : Manager) (quota_cost : ℕ) (operation_type : String) (w w' : World)
    → record_quota_usage m quota_cost operation_type w ≡ (ok tt, w')
    → used_today m w' ≡ used_today m w + quota_cost
record_quota_usage-grows m quota_cost operation_type w w' h =
    ap (λ x. used_on (m.day x) w'.db.api_quota_usage)
      (record_quota_usage-clock m quota_cost operation_type w w' h)
    ∙ record_quota_usage-ok m quota_cost operation_type w w' h (m.day w.clock)
    ∙ ground (arith, eqb_iff (m.day w.clock) (m.day w.clock))
