-- ===== src/Repository/Rows/Permuted.antt =====
-- WHERE and ORDER BY neither invent, lose nor repeat a row.
use mathlib.Core.List.{Perm, perm_middle}
use mathlib.Core.List.Perm
use youtube_webhook_ingestio.Base.{Bool, not, Bool-cases, inl, inr, List, [], ◌∷◌, ◌++◌, keep}
use youtube_webhook_ingestio.Repository.Rows.{insert_ordered, ordered}

module _ {A : Type 0} where
  insert_ordered-perm :
      (before : A → A → Bool) (s : A) (rows : List A)
      → Perm (insert_ordered before s rows) (s ∷ rows)
  unfolding insert_ordered
  insert_ordered-perm before s [] = Perm.refl (s ∷ [])
  insert_ordered-perm before s (t ∷ rows) = elim (Bool-cases (before s t)) [
    | inl q ↦ simp q (Perm.refl (s ∷ t ∷ rows))
    | inr q ↦
        simp q (Perm.trans (Perm.cons t (insert_ordered-perm before s rows)) (Perm.swap s t rows))
  ]

  pub ordered-perm : (before : A → A → Bool) (rows : List A) → Perm (ordered before rows) rows
  unfolding ordered
  ordered-perm before [] = Perm.refl []
  ordered-perm before (s ∷ rows) =
      Perm.trans (insert_ordered-perm before s (ordered before rows))
        (Perm.cons s (ordered-perm before rows))

  -- The rows that a test keeps, and those that it does not keep, are all the rows.
  pub keep-perm :
      (p : A → Bool) (rows : List A) → Perm (keep p rows ++ keep (λ s. not (p s)) rows) rows
  keep-perm p [] = Perm.refl []
  keep-perm p (s ∷ rows) = elim (Bool-cases (p s)) [
    | inl q ↦ simp q (Perm.cons s (keep-perm p rows))
    | inr q ↦ simp q (
        Perm.trans (perm_middle (keep p rows) (keep (λ t. not (p t)) rows))
          (Perm.cons s (keep-perm p rows)))
  ]
