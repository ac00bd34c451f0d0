-- ===== src/Repository/Statement.antt =====
-- One SQL statement: what it does to the tables at the time `NOW()`, and the errors that PostgreSQL
-- returns when a statement breaks a constraint.
use youtube_webhook_ingestio.Base.{String}
use youtube_webhook_ingestio.Errors.{Error, pg, wrap_failure}
use youtube_webhook_ingestio.Models.{Time}
use youtube_webhook_ingestio.World.{World, Db}
use youtube_webhook_ingestio.World.Action.{Result, ok, err, Action, remote}

abbrev pub Statement : Type 0 → Type 0
Statement A = Time → Db → Result A × Db

abbrev pub on_tables : {A : Type 0} → Statement A → World → Result A × World
on_tables s w = let (r, db) = s w.clock w.db in (r, record w { db = db })

-- `if err != nil { return db.WrapError(err, operation) }`
abbrev pub or_wrap : {A : Type 0} → String → Result A → Result A
or_wrap operation (ok a) = ok a
or_wrap operation (err e) = err (wrap_failure e operation)

abbrev pub wrapping : {A : Type 0} → String → Action A → Action A
wrapping operation m w = let (r, w') = m w in (or_wrap operation r, w')

-- r.pool.QueryRow(…).Scan(…) or r.pool.Exec(…), with its error wrapped
unfoldable pub statement : {A : Type 0} → String → Statement A → Action A
statement operation s = wrapping operation (remote (on_tables s))

abbrev pub unique_violation : String → Error
unique_violation constraint = pg (record {
  code = "23505";
  constraint_name = constraint;
  message = "duplicate key value violates unique constraint";
})

abbrev pub foreign_key_failure : String → Error
foreign_key_failure constraint = pg (record {
  code = "23503";
  constraint_name = constraint;
  message = "insert or update violates foreign key constraint";
})
