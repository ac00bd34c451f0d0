-- ===== src/YouTube/Batches.antt =====
-- internal/service/youtube/client.go: BatchVideoIDs.
use Prim.Native.Nat.{min}
use native.Mathlib.Numerals.{unary_clauses}
use youtube_webhook_ingestio.Base.{
  ap, ℕ, zero, suc, ◌+◌, ◌-◌, ◌≤◌, ℤ, pos, negsuc, String, List, [], ◌∷◌, ◌++◌, ◌≡◌, refl, arith,
  sym, ◌∙◌, ltb, Bool-cases, inl, inr, if◌then◌else◌, length, take, drop, take-append-drop,
  length-take, length-drop, All,
}

-- `if batchSize <= 0 || batchSize > 50 { batchSize = 50 }`
unfoldable pub batch_limit : ℤ → ℕ
batch_limit (negsuc n) = 50
batch_limit (pos zero) = 50
batch_limit (pos (suc n)) = if ltb 50 (suc n) then 50 else suc n

-- The loop from the index i on. `fuel` bounds its rounds; `end` is the lesser of i + size and the length.
pub batches_from : ℕ → List String → ℕ → ℕ → List (List String)
batches_from zero ids size i = []
batches_from (suc fuel) ids size i =
    let rest = batches_from fuel ids size (i + size) in
    let last = min (i + size) (length ids) in
    if ltb i (length ids) then take (last - i) (drop i ids) ∷ rest else []

-- BatchVideoIDs; each round moves on by at least one, so as many rounds as there are IDs are enough.
unfoldable pub batch_video_ids : List String → ℤ → List (List String)
unfolding batches_from batch_limit
batch_video_ids ids size = batches_from (length ids) ids (batch_limit size) 0

-- the IDs of the batches, in order
abbrev pub flattened : List (List String) → List String
flattened [] = []
flattened (batch ∷ batches) = batch ++ flattened batches

batch_limit-bounds : (size : ℤ) → (1 ≤ batch_limit size) × (batch_limit size ≤ 50)
unfolding batch_limit
batch_limit-bounds (negsuc n) = (omega arith, omega arith)
batch_limit-bounds (pos zero) = (omega arith, omega arith)
batch_limit-bounds (pos (suc n)) = ground arith

drop-nil : (n : ℕ) → ◌≡◌ {A = List String} (drop n []) []
drop-nil zero = refl
drop-nil (suc n) = refl

drop-all : (n : ℕ) (ids : List String) → length ids ≤ n → drop n ids ≡ []
drop-all zero [] h = refl
drop-all zero (x ∷ ids) h = absurd (omega arith)
drop-all (suc n) [] h = refl
drop-all (suc n) (x ∷ ids) h = drop-all n ids (omega arith)

drop_add : (m n : ℕ) (ids : List String) → drop (m + n) ids ≡ drop n (drop m ids)
drop_add zero n ids = ap (λ k. drop k ids) (omega arith)
drop_add (suc m) n (x ∷ ids) =
    let moved : suc m + n ≡ suc (m + n) = omega arith in
    ap (λ k. drop k (x ∷ ids)) moved ∙ drop_add m n ids
drop_add (suc m) n [] = drop-nil (suc m + n) ∙ sym (drop-nil n)

take-min : (n : ℕ) (ids : List String) → take (min n (length ids)) ids ≡ take n ids
take-min zero ids = simp unary_clauses refl
take-min (suc n) [] = simp unary_clauses refl
take-min (suc n) (x ∷ ids) = simp (unary_clauses, take-min n ids) refl

-- What a round puts into its batch: as many of the remaining IDs as there are, at most `size`.
window :
    (i size : ℕ) (ids : List String)
    → take (min (i + size) (length ids) - i) (drop i ids) ≡ take size (drop i ids)
window i size ids =
    ap (λ k. take k (drop i ids)) (omega (arith, length-drop i ids)) ∙ take-min size (drop i ids)

flattened-batches_from :
    (fuel : ℕ) (ids : List String) (size i : ℕ)
    → 1 ≤ size
    → length ids ≤ i + fuel
    → flattened (batches_from fuel ids size i) ≡ drop i ids
unfolding batches_from
flattened-batches_from zero ids size i h enough = sym (drop-all i ids (omega arith))
flattened-batches_from (suc fuel) ids size i h enough = elim (Bool-cases (ltb i (length ids))) [
  | inl q ↦
      simp
        (
          q,
          window i size ids,
          flattened-batches_from fuel ids size (i + size) h (omega arith),
          drop_add i size ids,
        )
        (take-append-drop size (drop i ids))
  | inr q ↦ simp q (sym (drop-all i ids (ground arith)))
]

-- An ID list that FetchVideos accepts.
abbrev pub IsFetchable : List String → Type 0
IsFetchable ids = (1 ≤ length ids) × (length ids ≤ 50)

batches_from-IsFetchable :
    (fuel : ℕ) (ids : List String) (size i : ℕ)
    → (1 ≤ size) × (size ≤ 50)
    → All IsFetchable (batches_from fuel ids size i)
unfolding batches_from
batches_from-IsFetchable zero ids size i h = tt
batches_from-IsFetchable (suc fuel) ids size i h =
    let m = min (i + size) (length ids) - i in
    ground (
      arith,
      length-take m (drop i ids),
      length-drop i ids,
      batches_from-IsFetchable fuel ids size (i + size) h,
    )

-- The batches hold the IDs given, all of them, in order and each as often as it was given, for every
-- batch size that is asked for, negative ones included.
pub flattened-batch_video_ids :
    (ids : List String) (size : ℤ) → flattened (batch_video_ids ids size) ≡ ids
unfolding batch_video_ids
flattened-batch_video_ids ids size =
    flattened-batches_from (length ids) ids (batch_limit size) 0 (batch_limit-bounds size).0
      (omega arith)

-- Each batch has one ID at least and 50 at most, so FetchVideos refuses none of them for its length.
pub batch_video_ids-IsFetchable :
    (ids : List String) (size : ℤ) → All IsFetchable (batch_video_ids ids size)
unfolding batch_video_ids
batch_video_ids-IsFetchable ids size =
    batches_from-IsFetchable (length ids) ids (batch_limit size) 0 (batch_limit-bounds size)
