-- ===== src/Table.antt =====
-- Rows of a table as a list in insertion order, with a unique text key: what the program's
-- SELECT, INSERT … ON CONFLICT, UPDATE and DELETE statements do to it.
use youtube_webhook_ingestio.Base.{
  String, ◌≡◌, Option, none, some, List, [], ◌∷◌, ◌++◌, arith, ◌==◌, eq_iff, if◌then◌else◌,
}

module _ {A : Type 0} (key : A → String) where
  unfoldable pub find : String → List A → Option A
  find k [] = none
  find k (x ∷ xs) = if key x == k then some x else find k xs

  unfoldable pub upsert : String → A → (A → A) → List A → List A
  upsert k fresh merge [] = fresh ∷ []
  upsert k fresh merge (x ∷ xs) = if key x == k then merge x ∷ xs else x ∷ upsert k fresh merge xs

  -- The row that an upsert leaves under its key.
  abbrev pub merged : A → (A → A) → Option A → A
  merged fresh merge none = fresh
  merged fresh merge (some x) = merge x

  pub find-upsert :
      (k j : String) (fresh : A) (merge : A → A) (xs : List A)
      → key fresh ≡ k
      → ((x : A) → key (merge x) ≡ key x)
      → find j (upsert k fresh merge xs)
        ≡ (if k == j then some (merged fresh merge (find k xs)) else find j xs)
  unfolding find upsert
  find-upsert k j fresh merge [] hk hm = ground (arith, eq_iff k j, eq_iff (key fresh) j)
  find-upsert k j fresh merge (x ∷ xs) hk hm = ground (
    arith,
    hm x,
    eq_iff k j,
    eq_iff (key x) k,
    eq_iff (key x) j,
    eq_iff (key (merge x)) j,
    find-upsert k j fresh merge xs hk hm,
  )

  pub find-key : (k : String) (xs : List A) {x : A} → find k xs ≡ some x → key x ≡ k
  unfolding find
  find-key k [] h = cc h
  find-key k (y ∷ xs) {x} h = ground (arith, eq_iff (key y) k, find-key k xs {x = x})

  pub find-append :
      (k : String) (xs : List A) (x : A)
      → find k xs ≡ none
      → key x ≡ k
      → find k (xs ++ x ∷ []) ≡ some x
  unfolding find
  find-append k [] x h q = ground (arith, eq_iff (key x) k)
  find-append k (y ∷ xs) x h q =
      ground (arith, eq_iff (key y) k, λ (p : find k xs ≡ none). find-append k xs x p q)
