-- ===== src/Quota/Threshold.antt =====
-- The quota of a day against the threshold.
use youtube_webhook_ingestio.Base.{
  ℕ, ◌+◌, ◌≤◌, ◌<◌, String, ◌≡◌, ◌↔◌, refl, sym, ap, subst, arith, ◌∙◌, Bool, true, List, [], ◌∷◌,
  eqb, eqb_iff, ◌==◌, if◌then◌else◌,
}
use youtube_webhook_ingestio.Models.{Time, ApiQuotaUsage, QuotaInfo}
use youtube_webhook_ingestio.World.{World, Db, Fault, served, refused, lost}
use youtube_webhook_ingestio.World.Action.{
  ok, pure, remote, answer, next_fault, later_faults, attempt, context, bind-eq-ok,
}
use youtube_webhook_ingestio.Repository.Statement.{statement, on_tables}
use youtube_webhook_ingestio.Repository.Outcome.{Ran, statement-eq-ok, context-eq-ok}
use youtube_webhook_ingestio.Repository.Quota.{
  find_day, todays_info, select_todays_quota, get_todays_quota, add_usage, increment_todays_quota,
  increment_quota,
}
use youtube_webhook_ingestio.Quota.{
  Manager, threshold_quota, is_available, check_quota_available, record_quota_usage,
}

abbrev pub used_on : ℕ → List ApiQuotaUsage → ℕ
used_on date qs = (todays_info (find_day date qs)).quota_used

-- What the table says was used on the day that the clock shows.
abbrev pub used_today : Manager → World → ℕ
used_today m w = used_on (m.day w.clock) w.db.api_quota_usage

-- A read of today's quota.
record Shown (m : Manager) (info : QuotaInfo) (w w' : World) : Type 0 where
  used : info.quota_used ≡ used_today m w
  db : w'.db ≡ w.db
  clock : w'.clock ≡ w.clock

select_todays_quota-ok :
    (day : Time → ℕ) (time : Time) (db db' : Db) {info : QuotaInfo}
    → select_todays_quota day time db ≡ (ok info, db')
    → (info.quota_used ≡ used_on (day time) db.api_quota_usage) × (db' ≡ db)
unfolding select_todays_quota
select_todays_quota-ok day time db db' h = (ground arith, ap (λ x. x.1) (sym h))

get_todays_quota-Shown :
    (m : Manager) (w : World) {info : QuotaInfo} {w' : World}
    → get_todays_quota m.day w ≡ (ok info, w')
    → Shown m info w w'
unfolding get_todays_quota
get_todays_quota-Shown m w {info} {w'} h =
    let r : Ran (select_todays_quota m.day) info w w' =
      statement-eq-ok "get todays quota" (select_todays_quota m.day) w h in
    let (u, d) = select_todays_quota-ok m.day w.clock w.db w'.db r.tables in
    record { used = u; db = d; clock = r.clock }

pub is_available_iff :
    (m : Manager) (required_quota : ℕ) (info : QuotaInfo)
    → (is_available m required_quota info ≡ true) ↔ (
        (info.quota_used < threshold_quota m)
        × (info.quota_used + required_quota ≤ threshold_quota m))
unfolding is_available
is_available_iff m required_quota info = ground arith

pub used_on-add_usage :
    (date other quota_cost : ℕ) (operation_type : String) (qs : List ApiQuotaUsage)
    → used_on other (add_usage date quota_cost operation_type qs)
      ≡ (if eqb date other then used_on other qs + quota_cost else used_on other qs)
unfolding find_day add_usage
used_on-add_usage date other quota_cost operation_type [] = ground arith
used_on-add_usage date other quota_cost operation_type (q ∷ qs) =
    ground (arith, used_on-add_usage date other quota_cost operation_type qs)

-- When CheckQuotaAvailable returns no error, it has changed no table and not seen the clock move, and it
-- allows the operation exactly when less than the threshold was used on the day of the clock and the
-- operation does not take the usage above the threshold.
pub check_quota_available-ok :
    (m : Manager) (required_quota : ℕ) (b : Bool) (info : QuotaInfo) (w w' : World)
    → check_quota_available m required_quota w ≡ (ok (b, info), w')
    → ((b ≡ true) ↔ (
        (used_today m w < threshold_quota m)
        × (used_today m w + required_quota ≤ threshold_quota m)))
      × (w'.db ≡ w.db)
      × (w'.clock ≡ w.clock)
unfolding check_quota_available pure
check_quota_available-ok m required_quota b info w w' h =
    let (i, v, a, k) =
      bind-eq-ok (context "failed to get quota info" (get_todays_quota m.day)) _ w h in
    let s : Shown m i w v = get_todays_quota-Shown m w (context-eq-ok _ _ w a) in
    let e : w' ≡ v = ap (λ x. x.1) (sym k) in
    let q : is_available m required_quota i ≡ b = ground (arith, k) in
    (
      subst (λ u. (b ≡ true) ↔ ((u < threshold_quota m) × (u + required_quota ≤ threshold_quota m)))
          s.used
          (subst
            (λ x. (x ≡ true) ↔ (
              (i.quota_used < threshold_quota m)
              × (i.quota_used + required_quota ≤ threshold_quota m)))
            q (is_available_iff m required_quota i)),
      ap (λ x. x.db) e ∙ s.db,
      ap (λ x. x.clock) e ∙ s.clock,
    )

increment_quota-ok :
    (m : Manager) (quota_cost : ℕ) (operation_type : String) (w : World) {w' : World}
    → increment_quota m.day quota_cost operation_type w ≡ (ok tt, w')
    → ((date : ℕ)
        → used_on date w'.db.api_quota_usage ≡ (
            if eqb (m.day w.clock) date
            then used_on date w.db.api_quota_usage + quota_cost
            else used_on date w.db.api_quota_usage))
      × (w'.clock ≡ w.clock)
unfolding increment_quota increment_todays_quota
increment_quota-ok m quota_cost operation_type w {w'} h =
    let t : String = if operation_type == "" then "other" else operation_type in
    let r : Ran (increment_todays_quota m.day quota_cost t) tt w w' =
      statement-eq-ok "increment quota" (increment_todays_quota m.day quota_cost t) w h in
    (
      λ date.
          ap (λ x. used_on date x.1.api_quota_usage) (sym r.tables)
          ∙ used_on-add_usage (m.day w.clock) date quota_cost t w.db.api_quota_usage,
      r.clock,
    )

-- A read of the quota, whether it succeeds or not, changes no table and does not move the clock.
pub read-keeps :
    (m : Manager) (w : World)
    → ((get_todays_quota m.day w).1.db ≡ w.db) × ((get_todays_quota m.day w).1.clock ≡ w.clock)
unfolding get_todays_quota statement remote answer select_todays_quota
read-keeps m w = answer-keeps (next_fault w.faults)
  where
    answer-keeps :
        (f : Fault)
        → ((answer f
              (on_tables (select_todays_quota m.day))
              (record w { faults = later_faults w.faults })).1.db
            ≡ w.db)
          × ((answer f
                (on_tables (select_todays_quota m.day))
                (record w { faults = later_faults w.faults })).1.clock
              ≡ w.clock)
    answer-keeps served = (refl, refl)
    answer-keeps (refused t) = (refl, refl)
    answer-keeps (lost t) = (refl, refl)

-- RecordQuotaUsage that succeeds is an increment that succeeds and a read.
record Incremented (m : Manager) (quota_cost : ℕ) (operation_type : String) (w w' : World)
    : Type 0 where
  between : World
  increment : increment_quota m.day quota_cost operation_type w ≡ (ok tt, between)
  db : w'.db ≡ between.db
  clock : w'.clock ≡ between.clock

record_quota_usage-Incremented :
    (m : Manager) (quota_cost : ℕ) (operation_type : String) (w w' : World)
    → record_quota_usage m quota_cost operation_type w ≡ (ok tt, w')
    → Incremented m quota_cost operation_type w w'
unfolding record_quota_usage pure attempt
record_quota_usage-Incremented m quota_cost operation_type w w' h =
    let (a, v, p, k) =
      bind-eq-ok
        (context "failed to record quota usage" (increment_quota m.day quota_cost operation_type)) _
        w h in
    let (b, u, q, l) = bind-eq-ok (attempt (get_todays_quota m.day)) (λ r. pure tt) v k in
    let e : w' ≡ (get_todays_quota m.day v).1 = ap (λ x. x.1) (sym l) ∙ ap (λ x. x.1) (sym q) in
    record {
      between = v;
      increment = context-eq-ok _ _ w p;
      db = ap (λ x. x.db) e ∙ (read-keeps m v).0;
      clock = ap (λ x. x.clock) e ∙ (read-keeps m v).1;
    }

-- When RecordQuotaUsage returns no error, the usage of the day of the clock has grown by the cost, and
-- the usage of every other day is as it was.
pub record_quota_usage-ok :
    (m : Manager) (quota_cost : ℕ) (operation_type : String) (w w' : World)
    → record_quota_usage m quota_cost operation_type w ≡ (ok tt, w')
    → (date : ℕ)
    → used_on date w'.db.api_quota_usage ≡ (
        if eqb (m.day w.clock) date
        then used_on date w.db.api_quota_usage + quota_cost
        else used_on date w.db.api_quota_usage)
record_quota_usage-ok m quota_cost operation_type w w' h date =
    let r = record_quota_usage-Incremented m quota_cost operation_type w w' h in
    ap (λ x. used_on date x.api_quota_usage) r.db
    ∙ (increment_quota-ok m quota_cost operation_type w r.increment).0 date

pub record_quota_usage-clock :
    (m : Manager) (quota_cost : ℕ) (operation_type : String) (w w' : World)
    → record_quota_usage m quota_cost operation_type w ≡ (ok tt, w')
    → w'.clock ≡ w.clock
record_quota_usage-clock m quota_cost operation_type w w' h =
    let r = record_quota_usage-Incremented m quota_cost operation_type w w' h in
    r.clock ∙ (increment_quota-ok m quota_cost operation_type w r.increment).1

-- If CheckQuotaAvailable allows an operation and RecordQuotaUsage then records its cost, with no other
-- process in between, the usage of the day is at most the threshold.
check-record-within_threshold :
    (m : Manager) (quota_cost : ℕ) (operation_type : String) (info : QuotaInfo) (u v w : World)
    → check_quota_available m quota_cost u ≡ (ok (true, info), v)
    → record_quota_usage m quota_cost operation_type v ≡ (ok tt, w)
    → used_today m w ≤ threshold_quota m
check-record-within_threshold m quota_cost operation_type info u v w c r =
    let (a, d, t) = check_quota_available-ok m quota_cost true info u v c in
    let (less, fits) = a.0 refl in
    let same : used_today m v ≡ used_today m u = λ i. used_on (m.day (t i)) (d i).api_quota_usage in
    let grown : used_today m w ≡ used_today m v + quota_cost =
      ap (λ x. used_on (m.day x) w.db.api_quota_usage)
        (record_quota_usage-clock m quota_cost operation_type v w r)
      ∙ record_quota_usage-ok m quota_cost operation_type v w r (m.day v.clock)
      ∙ ground (arith, eqb_iff (m.day v.clock) (m.day v.clock)) in
    omega (arith, same, grown, fits)
