-- ===== src/Repository/Rows/Order.antt =====
-- What WHERE, ORDER BY and LIMIT select, for any order that is total and transitive.
use youtube_webhook_ingestio.Base.{
  ℕ, zero, suc, Bool, true, false, ◌≡◌, refl, ap, ◌⊎◌, inl, inr, Bool-cases, List, [], ◌∷◌, keep,
  take, length, All, arith,
}
use mathlib.Core.List.{Mem, mem-cons_self, mem-cons_of_mem}
use youtube_webhook_ingestio.Repository.Rows.{insert_ordered, ordered}

module _ {A : Type 0} (P : A → Type 0) where
  pub All-map : (Q : A → Type 0) (rows : List A) → ((s : A) → P s → Q s) → All P rows → All Q rows
  All-map Q [] f h = tt
  All-map Q (s ∷ rows) f h = (f s h.0, All-map Q rows f h.1)

  pub All-take : (n : ℕ) (rows : List A) → All P rows → All P (take n rows)
  All-take zero rows h = tt
  All-take (suc n) [] h = tt
  All-take (suc n) (s ∷ rows) h = (h.0, All-take n rows h.1)

  pub All-insert_ordered :
      (before : A → A → Bool) (s : A) (rows : List A)
      → P s
      → All P rows
      → All P (insert_ordered before s rows)
  unfolding insert_ordered
  All-insert_ordered before s [] p h = (p, tt)
  All-insert_ordered before s (t ∷ rows) p h = elim (Bool-cases (before s t)) [
    | inl q ↦ simp q (p, (h.0, h.1))
    | inr q ↦ simp q (h.0, All-insert_ordered before s rows p h.1)
  ]

  pub All-ordered :
      (before : A → A → Bool) (rows : List A) → All P rows → All P (ordered before rows)
  unfolding ordered
  All-ordered before [] h = tt
  All-ordered before (s ∷ rows) h =
      All-insert_ordered before s (ordered before rows) h.0 (All-ordered before rows h.1)

  pub All-keep :
      (p : A → Bool) (rows : List A) → All (λ s. p s ≡ true → P s) rows → All P (keep p rows)
  All-keep p [] h = tt
  All-keep p (s ∷ rows) h = elim (Bool-cases (p s)) [
    | inl q ↦ simp q (h.0 q, All-keep p rows h.1)
    | inr q ↦ simp q (All-keep p rows h.1)
  ]

  -- What holds of all rows in order holds of all rows.
  All-inserted :
      (before : A → A → Bool) (s : A) (rows : List A)
      → All P (insert_ordered before s rows)
      → P s × All P rows
  unfolding insert_ordered
  All-inserted before s [] h = h
  All-inserted before s (t ∷ rows) h = elim (Bool-cases (before s t)) [
    | inl q ↦ simp q at h
    | inr q ↦
        let g : All P (t ∷ insert_ordered before s rows) = simp q at h in
        let rest = All-inserted before s rows g.1 in (rest.0, (g.0, rest.1))
  ]

  pub All-of_ordered :
      (before : A → A → Bool) (rows : List A) → All P (ordered before rows) → All P rows
  unfolding ordered
  All-of_ordered before [] h = tt
  All-of_ordered before (s ∷ rows) h =
      let g = All-inserted before s (ordered before rows) h in (g.0, All-of_ordered before rows g.1)

  pub All-of_keep :
      (p : A → Bool) (rows : List A) → All P (keep p rows) → All (λ s. p s ≡ true → P s) rows
  All-of_keep p [] h = tt
  All-of_keep p (s ∷ rows) h = elim (Bool-cases (p s)) [
    | inl q ↦ let g : All P (s ∷ keep p rows) = simp q at h in (λ kept. g.0, All-of_keep p rows g.1)
    | inr q ↦
        let g : All P (keep p rows) = simp q at h in
        (λ kept. absurd (ground arith), All-of_keep p rows g)
  ]

module _ {A : Type 0} where
  pub All-kept : (p : A → Bool) (rows : List A) → All (λ s. p s ≡ true) (keep p rows)
  All-kept p [] = tt
  All-kept p (s ∷ rows) = elim (Bool-cases (p s)) [
    | inl q ↦ simp q (refl, All-kept p rows)
    | inr q ↦ simp q (All-kept p rows)
  ]

  -- Each row comes before all that follow it.
  abbrev pub IsOrdered : (A → A → Bool) → List A → Type 0
  IsOrdered before [] = Unit
  IsOrdered before (s ∷ rows) = All (λ t. before s t ≡ true) rows × IsOrdered before rows

  pub IsOrdered-take :
      (before : A → A → Bool) (n : ℕ) (rows : List A)
      → IsOrdered before rows
      → IsOrdered before (take n rows)
  IsOrdered-take before zero rows h = tt
  IsOrdered-take before (suc n) [] h = tt
  IsOrdered-take before (suc n) (s ∷ rows) h =
      (All-take (λ t. before s t ≡ true) n rows h.0, IsOrdered-take before n rows h.1)

  -- A row of the table is among the rows selected, or comes after all of them and the limit is reached.
  abbrev pub IsPlaced : (A → A → Bool) → ℕ → List A → A → Type 0
  IsPlaced before n selected s =
      Mem s selected ⊎ (All (λ t. before t s ≡ true) selected × (length selected ≡ n))

  placed_next :
      (before : A → A → Bool) (n : ℕ) (t : A) (rows : List A) (s : A)
      → before t s ≡ true
      → IsPlaced before n rows s
      → IsPlaced before (suc n) (t ∷ rows) s
  placed_next before n t rows s q (inl member) = inl (mem-cons_of_mem t member)
  placed_next before n t rows s q (inr after) = inr ((q, after.0), ap suc after.1)

  pub All-both :
      (P Q R : A → Type 0) (rows : List A)
      → ((s : A) → P s → Q s → R s)
      → All P rows
      → All Q rows
      → All R rows
  All-both P Q R [] f p q = tt
  All-both P Q R (s ∷ rows) f p q = (f s p.0 q.0, All-both P Q R rows f p.1 q.1)

  pub take-placed :
      (before : A → A → Bool) (n : ℕ) (rows : List A)
      → IsOrdered before rows
      → All (IsPlaced before n (take n rows)) rows
  take-placed before zero [] h = tt
  take-placed before zero (s ∷ rows) h = (inr (tt, refl), take-placed before zero rows h.1)
  take-placed before (suc n) [] h = tt
  take-placed before (suc n) (s ∷ rows) h = (
    inl mem-cons_self,
    All-both (λ t. before s t ≡ true) (IsPlaced before n (take n rows))
        (IsPlaced before (suc n) (s ∷ take n rows)) rows (placed_next before n s (take n rows)) h.0
        (take-placed before n rows h.1),
  )

module _ {A : Type 0} (before : A → A → Bool)
    (total : (s t : A) → before s t ≡ false → before t s ≡ true)
    (transitive : (s t u : A) → before s t ≡ true → before t u ≡ true → before s u ≡ true) where
  IsOrdered-insert_ordered :
      (s : A) (rows : List A)
      → IsOrdered before rows
      → IsOrdered before (insert_ordered before s rows)
  unfolding insert_ordered
  IsOrdered-insert_ordered s [] h = (tt, tt)
  IsOrdered-insert_ordered s (t ∷ rows) h = elim (Bool-cases (before s t)) [
    | inl q ↦ simp q (
      (
        refl,
        All-map (λ u. before t u ≡ true) (λ u. before s u ≡ true) rows (λ u r. transitive s t u q r)
            h.0,
      ),
      h,
    )
    | inr q ↦ simp q (
      All-insert_ordered (λ u. before t u ≡ true) before s rows (total s t q) h.0,
      IsOrdered-insert_ordered s rows h.1,
    )
  ]

  pub IsOrdered-ordered : (rows : List A) → IsOrdered before (ordered before rows)
  unfolding ordered
  IsOrdered-ordered [] = tt
  IsOrdered-ordered (s ∷ rows) =
      IsOrdered-insert_ordered s (ordered before rows) (IsOrdered-ordered rows)
