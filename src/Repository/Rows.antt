-- ===== src/Repository/Rows.antt =====
-- What the listing statements share: WHERE, ORDER BY and LIMIT on lists of rows. Rows that an ORDER BY
-- does not tell apart come in insertion order.
pub mod Order
pub mod Permuted
use youtube_webhook_ingestio.Base.{
  ℕ, Bool, Option, none, some, List, [], ◌∷◌, keep, take, leb, if◌then◌else◌,
}
use youtube_webhook_ingestio.Errors.{no_rows}
use youtube_webhook_ingestio.Models.{Time}
use youtube_webhook_ingestio.World.Action.{Result, ok, err}

-- a row before the first one that it may stand in front of
unfoldable pub insert_ordered {ℓ} : {A : Type ℓ} → (A → A → Bool) → A → List A → List A
insert_ordered before s [] = s ∷ []
insert_ordered before s (t ∷ rows) =
    if before s t then s ∷ t ∷ rows else t ∷ insert_ordered before s rows

-- ORDER BY, where `before` is the order, equality included
unfoldable pub ordered {ℓ} : {A : Type ℓ} → (A → A → Bool) → List A → List A
unfolding insert_ordered
ordered before [] = []
ordered before (s ∷ rows) = insert_ordered before s (ordered before rows)

-- SELECT … WHERE … ORDER BY …
unfoldable pub rows_where {ℓ} : {A : Type ℓ} → (A → Bool) → (A → A → Bool) → List A → List A
unfolding ordered
rows_where p before rows = ordered before (keep p rows)

-- ORDER BY key DESC
abbrev pub descending {ℓ} : {A : Type ℓ} → (A → Time) → A → A → Bool
descending key s t = leb (key t) (key s)

-- ORDER BY key ASC
abbrev pub ascending {ℓ} : {A : Type ℓ} → (A → Time) → A → A → Bool
ascending key s t = leb (key s) (key t)

-- SELECT … WHERE … ORDER BY … LIMIT …
unfoldable pub first_rows {ℓ} : {A : Type ℓ} → (A → Bool) → (A → A → Bool) → ℕ → List A → List A
unfolding rows_where
first_rows p before limit rows = take limit (rows_where p before rows)

abbrev pub head_row {ℓ} : {A : Type ℓ} → List A → Option A
head_row [] = none
head_row (s ∷ rows) = some s

-- QueryRow(…).Scan(…), whose error for no row is pgx.ErrNoRows
abbrev pub row_or_none : {A : Type 0} → Option A → Result A
row_or_none none = err no_rows
row_or_none (some s) = ok s
