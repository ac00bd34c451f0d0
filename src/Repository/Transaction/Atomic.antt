-- ===== src/Repository/Transaction/Atomic.antt =====
-- A transaction has all of its writes or none of them.
use youtube_webhook_ingestio.Base.{◌≡◌, ◌⊎◌, inl, inr, refl, sym, ap, ◌∙◌, arith}
use youtube_webhook_ingestio.World.{World, Db, Fault, served, refused, lost}
use youtube_webhook_ingestio.World.Action.{
  Result, ok, err, Action, remote, answer, next_fault, later_faults, continue, bind-eq-ok, ◌>>=◌,
}
use youtube_webhook_ingestio.Repository.Statement.{wrapping}
use youtube_webhook_ingestio.Repository.Outcome.{wrap_result-eq-ok}
use youtube_webhook_ingestio.Repository.Transaction.{
  nothing, publish, settle, run_statements, transaction,
}

-- The tables are those that the statements have left at their end, without an error.
pub record Committed (statements : Action (Unit {0})) (before : Db) (w' : World) : Type 0 where
  pub start : World
  pub end : World
  pub from : start.db ≡ before
  pub ran : statements start ≡ (ok tt, end)
  pub tables : w'.db ≡ end.db

publish-db :
    (f : Fault) (db : Db) (w : World)
    → ((answer f (publish db) w).1.db ≡ w.db) ⊎ ((answer f (publish db) w).1.db ≡ db)
unfolding answer
publish-db served db w = inr refl
publish-db (refused t) db w = inl refl
publish-db (lost t) db w = inr refl

publish-ok : (f : Fault) (db : Db) (w v : World) → answer f (publish db) w ≡ (ok tt, v) → v.db ≡ db
unfolding answer
publish-ok served db w v h = ap (λ x. x.1.db) (sym h)
publish-ok (refused t) db w v h = absurd (ground arith)
publish-ok (lost t) db w v h = absurd (ground arith)

nothing-db : (f : Fault) (w : World) → (answer f nothing w).1.db ≡ w.db
unfolding answer
nothing-db served w = refl
nothing-db (refused t) w = refl
nothing-db (lost t) w = refl

settle-cases :
    (before : Db) (r : Result (Unit {0})) (v : World)
    → ((settle before r v).1.db ≡ before) ⊎ ((r ≡ ok tt) × ((settle before r v).1.db ≡ v.db))
unfolding settle remote
settle-cases before (err e) v =
    inl
      (nothing-db (next_fault v.faults) (record v { db = before; faults = later_faults v.faults }))
settle-cases before (ok a) v =
    elim (publish-db (next_fault v.faults) v.db
      (record v { db = before; faults = later_faults v.faults })) [
        | inl q ↦ inl q
        | inr q ↦ inr (refl, q)
      ]

settle-ok :
    (before : Db) (r : Result (Unit {0})) (v w' : World)
    → settle before r v ≡ (ok tt, w')
    → (r ≡ ok tt) × (w'.db ≡ v.db)
unfolding settle remote
settle-ok before (err e) v w' h = absurd (ground arith)
settle-ok before (ok a) v w' h = (
  refl,
  publish-ok (next_fault v.faults) v.db (record v { db = before; faults = later_faults v.faults })
      w' (wrap_result-eq-ok "commit transaction" _ _ h),
)

begin-db : (w : World) → (wrapping "begin transaction" (remote nothing) w).1.db ≡ w.db
unfolding remote
begin-db w = nothing-db (next_fault w.faults) (record w { faults = later_faults w.faults })

module _ (statements : Action (Unit {0})) where
  run-cases :
      (v : World)
      → ((run_statements statements v).1.db ≡ v.db)
        ⊎ Committed statements v.db (run_statements statements v).1
  unfolding run_statements
  run-cases v = elim (settle-cases v.db (statements v).0 (statements v).1) [
    | inl q ↦ inl q
    | inr (p, q) ↦ inr (record {
      start = v;
      end = (statements v).1;
      from = refl;
      ran = λ i. (p i, (statements v).1);
      tables = q;
    })
  ]

  begun-cases :
      (r : Result (Unit {0})) (v : World)
      → ((continue r (λ a. run_statements statements) v).1.db ≡ v.db)
        ⊎ Committed statements v.db (continue r (λ a. run_statements statements) v).1
  begun-cases (err e) v = inl refl
  begun-cases (ok a) v = run-cases v

  Committed-from :
      (before after : Db) (w' : World)
      → before ≡ after
      → Committed statements before w'
      → Committed statements after w'
  Committed-from before after w' q c = record {
    start = c.start;
    end = c.end;
    from = c.from ∙ q;
    ran = c.ran;
    tables = c.tables;
  }

  -- Whatever calls fail, the tables are as before or as the statements have left them without an error.
  pub transaction-atomic :
      (w : World)
      → ((transaction statements w).1.db ≡ w.db)
        ⊎ Committed statements w.db (transaction statements w).1
  unfolding transaction ◌>>=◌
  transaction-atomic w =
      let (r, v) = wrapping "begin transaction" (remote nothing) w in
      elim (begun-cases r v) [
        | inl q ↦ inl (q ∙ begin-db w)
        | inr c ↦ inr (Committed-from v.db w.db _ (begin-db w) c)
      ]

  -- A transaction without an error is committed.
  pub transaction-ok :
      (w w' : World) → transaction statements w ≡ (ok tt, w') → Committed statements w.db w'
  unfolding transaction run_statements
  transaction-ok w w' h =
      let (a, v, e, k) =
        bind-eq-ok (wrapping "begin transaction" (remote nothing)) (λ a. run_statements statements)
          w h in
      let (p, q) = settle-ok v.db (statements v).0 (statements v).1 w' k in
      record {
        start = v;
        end = (statements v).1;
        from = ap (λ x. x.1.db) (sym e) ∙ begin-db w;
        ran = λ i. (p i, (statements v).1);
        tables = q;
      }
