-- ===== src/Errors.antt =====
-- internal/db/errors.go: the error values of the program and `WrapError`.
-- An error is the chain that Go's `%w` builds: `errors.Is` and `errors.As` walk it, and `Error()`
-- prints it.
use Prim.Native.String.{◌++◌ as ◌<>◌}
use youtube_webhook_ingestio.Base.{
  String, Bool, true, false, Option, none, some, ◌==◌, if◌then◌else◌,
}

-- The values made by `errors.New` at the top of a file, which callers compare with `errors.Is`.
pub data Sentinel : Type 0 where
  not_found duplicate_key foreign_key_violation immutable_record : Sentinel
  subscription_failed invalid_hub_response : Sentinel

-- pgconn.PgError: the server's answer to a statement that it refuses.
pub record PgError : Type 0 where
  pub code : String
  pub constraint_name : String
  pub message : String

pub data Error : Type 0 where
  sentinel : Sentinel → Error
  no_rows : Error
  pg : PgError → Error
  plain : String → Error
  -- `wrapped before e after` is fmt.Errorf("<before>%w<after>", e)
  wrapped : String → Error → String → Error

sentinel_text : Sentinel → String
sentinel_text not_found = "record not found"
sentinel_text duplicate_key = "duplicate key violation"
sentinel_text foreign_key_violation = "foreign key violation"
sentinel_text immutable_record = "record is immutable and cannot be modified"
sentinel_text subscription_failed = "subscription request failed"
sentinel_text invalid_hub_response = "invalid hub response"

-- err.Error()
unfoldable pub error_text : Error → String
unfolding sentinel_text
error_text (sentinel s) = sentinel_text s
error_text no_rows = "no rows in result set"
error_text (pg e) = "ERROR: " <> e.message <> " (SQLSTATE " <> e.code <> ")"
error_text (plain t) = t
error_text (wrapped before e after) = before <> error_text e <> after

abbrev same_sentinel : Sentinel → Sentinel → Bool
same_sentinel not_found not_found = true
same_sentinel duplicate_key duplicate_key = true
same_sentinel foreign_key_violation foreign_key_violation = true
same_sentinel immutable_record immutable_record = true
same_sentinel subscription_failed subscription_failed = true
same_sentinel invalid_hub_response invalid_hub_response = true
same_sentinel _ _ = false

-- errors.Is(err, target) for a target made by errors.New
unfoldable pub is_error : Error → Sentinel → Bool
is_error (sentinel s) target = same_sentinel s target
is_error (wrapped before e after) target = is_error e target
is_error _ target = false

-- errors.Is(err, pgx.ErrNoRows)
unfoldable pub is_no_rows : Error → Bool
is_no_rows no_rows = true
is_no_rows (wrapped before e after) = is_no_rows e
is_no_rows _ = false

-- errors.As(err, &pgErr)
unfoldable pub as_pg_error : Error → Option PgError
as_pg_error (pg e) = some e
as_pg_error (wrapped before e after) = as_pg_error e
as_pg_error _ = none

-- The `switch pgErr.Code` of WrapError.
wrap_pg_error : Error → PgError → String → Error
wrap_pg_error err e operation =
    if e.code == "23505"
    then wrapped (operation <> ": ") (sentinel duplicate_key)
        (" (constraint: " <> e.constraint_name <> ")")
    else if e.code == "23503"
    then wrapped (operation <> ": ") (sentinel foreign_key_violation)
        (" (constraint: " <> e.constraint_name <> ")")
    else if e.code == "P0001"
    then wrapped (operation <> ": ") (sentinel immutable_record) (": " <> e.message)
    else wrapped (operation <> ": database error [" <> e.code <> "]: ") err ""

-- WrapError on an error that is not nil.
unfoldable pub wrap_failure : Error → String → Error
unfolding is_no_rows as_pg_error wrap_pg_error
wrap_failure err operation =
    if is_no_rows err
    then wrapped (operation <> ": ") (sentinel not_found) ""
    else elim (as_pg_error err) [
      | some e ↦ wrap_pg_error err e operation
      | none ↦ wrapped (operation <> ": ") err ""
    ]

-- WrapError; `none` is nil.
unfoldable pub wrap_error : Option Error → String → Option Error
unfolding wrap_failure
wrap_error none operation = none
wrap_error (some err) operation = some (wrap_failure err operation)

unfoldable pub is_not_found : Error → Bool
unfolding is_error
is_not_found err = is_error err not_found

unfoldable pub is_duplicate_key : Error → Bool
unfolding is_error
is_duplicate_key err = is_error err duplicate_key

unfoldable pub is_foreign_key_violation : Error → Bool
unfolding is_error
is_foreign_key_violation err = is_error err foreign_key_violation

unfoldable pub is_immutable_record : Error → Bool
unfolding is_error
is_immutable_record err = is_error err immutable_record
