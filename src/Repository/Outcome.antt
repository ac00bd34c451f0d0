-- ===== src/Repository/Outcome.antt =====
-- What a successful call says of the tables: it was served, and its statement did what the tables
-- then hold. What a failed call may have done: nothing, or its whole statement.
use youtube_webhook_ingestio.Base.{String, ◌≡◌, ◌⊎◌, inl, inr, refl, arith}
use youtube_webhook_ingestio.World.{World, Fault, served, refused, lost}
use youtube_webhook_ingestio.World.Action.{
  Result, ok, err, Action, attempt, context, remote, answer, next_fault, later_faults,
}
use youtube_webhook_ingestio.Repository.Statement.{Statement, statement, on_tables, or_wrap}

module _ {A : Type 0} where
  pub answer-eq-ok :
      (f : Fault) (call : Action A) (w : World) {a : A} {w' : World}
      → answer f call w ≡ (ok a, w')
      → call w ≡ (ok a, w')
  unfolding answer
  answer-eq-ok served call w h = h
  answer-eq-ok (refused t) call w h = cc
  answer-eq-ok (lost t) call w h = cc

  pub remote-eq-ok :
      (call : Action A) (w : World) {a : A} {w' : World}
      → remote call w ≡ (ok a, w')
      → call (record w { faults = later_faults w.faults }) ≡ (ok a, w')
  unfolding remote
  remote-eq-ok call w h = answer-eq-ok (next_fault w.faults) call _ h

  pub wrap_result-eq-ok :
      (operation : String) (r : Result A) (v : World) {a : A} {w' : World}
      → ◌≡◌ {A = Result A × World} (or_wrap operation r, v) (ok a, w')
      → ◌≡◌ {A = Result A × World} (r, v) (ok a, w')
  wrap_result-eq-ok operation (ok b) v h = h
  wrap_result-eq-ok operation (err e) v h = cc

  pub context-eq-ok :
      (before : String) (m : Action A) (w : World) {a : A} {w' : World}
      → context before m w ≡ (ok a, w')
      → m w ≡ (ok a, w')
  unfolding context
  context-eq-ok before m w h = ground arith

  pub attempt-eq-ok :
      (m : Action A) (w : World) {r : Result A} {w' : World}
      → attempt m w ≡ (ok r, w')
      → m w ≡ (r, w')
  unfolding attempt
  attempt-eq-ok m w h = ground arith

  -- The statement ran once, at the time of the clock, and nothing else changed.
  pub record Ran (s : Statement A) (a : A) (w w' : World) : Type 0 where
    pub tables : s w.clock w.db ≡ (ok a, w'.db)
    pub tasks : w'.tasks ≡ w.tasks
    pub blocked_set : w'.blocked_set ≡ w.blocked_set
    pub clock : w'.clock ≡ w.clock

  pub statement-eq-ok :
      (operation : String) (s : Statement A) (w : World) {a : A} {w' : World}
      → statement operation s w ≡ (ok a, w')
      → Ran s a w w'
  unfolding statement
  statement-eq-ok operation s w {a} {w'} h =
      let e : on_tables s (record w { faults = later_faults w.faults }) ≡ (ok a, w') =
        remote-eq-ok (on_tables s) w (wrap_result-eq-ok operation _ _ h) in
      record {
        tables = ground arith;
        tasks = ground arith;
        blocked_set = ground arith;
        clock = ground arith;
      }

-- A statement, whether its caller gets an error or not, has had its whole effect on the tables or none.
pub statement-atomic :
    {A : Type 0} (operation : String) (s : Statement A) (w : World)
    → (((statement operation s w).1.db ≡ w.db)
        ⊎ ((statement operation s w).1.db ≡ (s w.clock w.db).1))
      × ((statement operation s w).1.clock ≡ w.clock)
unfolding statement remote answer
statement-atomic operation s w = after (next_fault w.faults)
  where
    after :
        (f : Fault)
        → (((answer f (on_tables s) (record w { faults = later_faults w.faults })).1.db ≡ w.db)
            ⊎ ((answer f (on_tables s) (record w { faults = later_faults w.faults })).1.db
                ≡ (s w.clock w.db).1))
          × ((answer f (on_tables s) (record w { faults = later_faults w.faults })).1.clock
              ≡ w.clock)
    after served = (inr refl, refl)
    after (refused t) = (inl refl, refl)
    after (lost t) = (inr refl, refl)
