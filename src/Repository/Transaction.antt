-- ===== src/Repository/Transaction.antt =====
-- A transaction on the pool: `tx, err := r.pool.Begin(ctx)` with `defer tx.Rollback(ctx)`, statements on `tx`,
-- and `tx.Commit(ctx)`. A lost commit has taken effect.
pub mod Atomic
use youtube_webhook_ingestio.Base.{String}
use youtube_webhook_ingestio.World.{World, Db}
use youtube_webhook_ingestio.World.Action.{Result, ok, err, Action, remote, ◌>>=◌, ◌>>◌}
use youtube_webhook_ingestio.Repository.Statement.{wrapping}

abbrev pub nothing : World → Result (Unit {0}) × World
nothing w = (ok tt, w)

-- What the transaction has written is seen from now on.
abbrev pub publish : Db → World → Result (Unit {0}) × World
publish db w = (ok tt, record w { db = db })

-- After an error the tables are as they were when the transaction began, whether the call of Rollback
-- arrives or not.
unfoldable pub settle : Db → Result (Unit {0}) → Action (Unit {0})
settle before (err e) w = (err e, (remote nothing (record w { db = before })).1)
settle before (ok a) w =
    wrapping "commit transaction" (remote (publish w.db)) (record w { db = before })

unfoldable pub run_statements : Action (Unit {0}) → Action (Unit {0})
run_statements statements w = let (r, w') = statements w in settle w.db r w'

unfoldable pub transaction : Action (Unit {0}) → Action (Unit {0})
unfolding ◌>>=◌
transaction statements = wrapping "begin transaction" (remote nothing) >> run_statements statements
