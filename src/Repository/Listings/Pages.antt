-- ===== src/Repository/Listings/Pages.antt =====
-- The page and the total of a listing, and what List of the videos returns.
use Prim.Native.String.{◌++◌ as ◌<>◌}
use Prim.Native.Nat.{min}
use mathlib.Core.List.{Perm}
use mathlib.Core.List.Perm
use youtube_webhook_ingestio.Base.{
  suc, ◌-◌, String, Bool, true, false, not, ◌≡◌, ◌↔◌, refl, sym, ap, subst, ◌∙◌, ℕ, some, List, [],
  ◌∷◌, ◌++◌, All, keep, take, drop, length, Bool-cases, inl, inr, length-take, length-drop,
  take-append-drop, arith,
}
use youtube_webhook_ingestio.World.{World, Db}
use youtube_webhook_ingestio.World.Action.{ok, pure, ◌>>=◌, bind-eq-ok}
use youtube_webhook_ingestio.World.Yields.{ok-injective}
use youtube_webhook_ingestio.Repository.Statement.{statement}
use youtube_webhook_ingestio.Repository.Outcome.{statement-eq-ok}
use youtube_webhook_ingestio.Repository.Rows.{rows_where, ordered, insert_ordered}
use youtube_webhook_ingestio.Repository.Rows.Order.{
  All-map, All-kept, All-ordered, IsOrdered, IsOrdered-ordered,
}
use youtube_webhook_ingestio.Repository.Rows.Permuted.{ordered-perm, keep-perm}
use youtube_webhook_ingestio.Repository.Listings.{select_listed, list_page}

length-insert_ordered :
    {A : Type 0} (before : A → A → Bool) (s : A) (rows : List A)
    → length (insert_ordered before s rows) ≡ suc (length rows)
unfolding insert_ordered
length-insert_ordered before s [] = refl
length-insert_ordered before s (t ∷ rows) = elim (Bool-cases (before s t)) [
  | inl q ↦ simp q refl
  | inr q ↦ simp q (ap suc (length-insert_ordered before s rows))
]

length-ordered :
    {A : Type 0} (before : A → A → Bool) (rows : List A)
    → length (ordered before rows) ≡ length rows
unfolding ordered
length-ordered before [] = refl
length-ordered before (s ∷ rows) =
    length-insert_ordered before s (ordered before rows) ∙ ap suc (length-ordered before rows)

-- What a listing returns of a table: the rows of the table, each once, are the wanted ones, in order, and
-- others that are not wanted. The page is what stands behind the offset, up to the limit, and the total is
-- the number of the wanted ones.
pub record Paged {A : Type 0} (IsWanted : A → Type 0) (before : A → A → Bool) (table : List A)
    (limit offset total : ℕ) (page : List A) : Type 0 where
  pub skipped : List A
  pub left : List A
  pub others : List A
  pub rows : Perm ((skipped ++ (page ++ left)) ++ others) table
  pub wanted : All IsWanted (skipped ++ (page ++ left))
  pub unwanted : All (λ s. ¬ IsWanted s) others
  pub in_order : IsOrdered before (skipped ++ (page ++ left))
  pub counted : total ≡ length (skipped ++ (page ++ left))
  pub skips : length skipped ≡ min offset total
  pub bounded : length page ≡ min limit (total - offset)

module _ {A : Type 0} (p : A → Bool) (IsWanted : A → Type 0)
    (means : (s : A) → (p s ≡ true) ↔ IsWanted s) (before : A → A → Bool)
    (total_order : (s t : A) → before s t ≡ false → before t s ≡ true)
    (transitive : (s t u : A) → before s t ≡ true → before t u ≡ true → before s u ≡ true)
    (limit offset : ℕ) where
  selected-Paged :
      (table : List A)
      → Paged IsWanted before table limit offset
          (length (keep p table))
          (take limit (drop offset (ordered before (keep p table))))
  selected-Paged table =
      let sorted = ordered before (keep p table) in
      let page = take limit (drop offset sorted) in
      let left = drop limit (drop offset sorted) in
      let whole : take offset sorted ++ (page ++ left) ≡ sorted =
        ap (λ l. take offset sorted ++ l) (take-append-drop limit (drop offset sorted))
        ∙ take-append-drop offset sorted in
      let count : length sorted ≡ length (keep p table) = length-ordered before (keep p table) in
      record {
        skipped = take offset sorted;
        left = left;
        others = keep (λ s. not (p s)) table;
        rows =
            subst (λ l. Perm (l ++ keep (λ s. not (p s)) table) table) (sym whole)
              (Perm.trans (Perm.append (ordered-perm before (keep p table)) (Perm.refl _))
                (keep-perm p table));
        wanted = subst (All IsWanted) (sym whole) (
            All-ordered IsWanted before (keep p table) (
              All-map (λ s. p s ≡ true) IsWanted (keep p table) (λ s. (means s).0)
                (All-kept p table)));
        unwanted =
            All-map (λ s. not (p s) ≡ true) _ _ (λ s q h. ground (arith, (means s).1 h, q))
              (All-kept (λ s. not (p s)) table);
        in_order =
            subst (IsOrdered before) (sym whole)
              (IsOrdered-ordered before total_order transitive (keep p table));
        counted = sym count ∙ ap length (sym whole);
        skips = omega (arith, length-take offset sorted, count);
        bounded =
            omega (arith, length-take limit (drop offset sorted), length-drop offset sorted, count);
      }

  pub list_page-Paged :
      (name : String) (table : Db → List A) (w w' : World) (page : List A) (total : ℕ)
      → list_page name table p (some before) limit offset w ≡ (ok (page, total), w')
      → Paged IsWanted before (table w.db) limit offset total page × (w'.db ≡ w.db)
  unfolding list_page select_listed rows_where pure
  list_page-Paged name table w w' page total h =
      let count = statement ("count " <> name) λ time db. (ok (length (keep p (table db))), db) in
      let select = statement ("list " <> name) (select_listed table p (some before) limit offset) in
      let (n, v, e, k) = bind-eq-ok count (λ n. select >>= λ r. pure (r, n)) w h in
      let (r, x, e2, k2) = bind-eq-ok select (λ r. pure (r, n)) v k in
      let counted = (statement-eq-ok ("count " <> name) _ w e).tables in
      let selected = (statement-eq-ok ("list " <> name) _ v e2).tables in
      let same : v.db ≡ w.db = ap (λ y. y.1) (sym counted) in
      let found : Paged IsWanted before (table w.db) limit offset (length (keep p (table w.db))) r =
        subst (λ d. Paged IsWanted before (table d) limit offset (length (keep p (table d))) r) same
          (subst (Paged IsWanted before (table v.db) limit offset (length (keep p (table v.db))))
            (ok-injective _ _ (ap (λ y. y.0) selected)) (selected-Paged (table v.db))) in
      let with_total =
        subst (λ m. Paged IsWanted before (table w.db) limit offset m r)
          (ok-injective _ _ (ap (λ y. y.0) counted)) found in
      (
        subst (λ (y : List A × ℕ). Paged IsWanted before (table w.db) limit offset y.1 y.0)
            (ok-injective _ _ (ap (λ y. y.0) k2)) with_total,
        ap (λ y. y.1.db) (sym k2) ∙ ap (λ y. y.1) (sym selected) ∙ same,
      )
