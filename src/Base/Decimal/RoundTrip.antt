-- ===== src/Base/Decimal/RoundTrip.antt =====
-- What Itoa prints, Atoi reads.
use Prim.Native.Char.{Char, code}
use Prim.Native.String.{String, ◌++◌}
use Prim.Native.String.append
use Prim.Native.Nat.{ℕ, zero, suc, ◌+◌, ◌/◌, ◌%◌, ◌^◌, ◌<◌, ◌≤◌}
use mathlib.Core.Logic.{◌≢◌, inl, inr}
use mathlib.Core.Option.{none, some}
use mathlib.Core.Path.{◌≡◌, refl, sym, ap, subst, ◌∙◌}
use native.Mathlib.Omega.{arith}
use youtube_webhook_ingestio.Base.Tests.{pos, eqb, Bool-cases}
use youtube_webhook_ingestio.Base.Decimal.{
  is_digit, scan_digits, unsigned, atoi, digit_char, digits, itoa, prepend, cut,
}

code-digit_char : (n : ℕ) → n < 10 → code (digit_char n) ≡ 48 + n
unfolding digit_char
code-digit_char zero h = refl
code-digit_char (suc zero) h = refl
code-digit_char (suc (suc zero)) h = refl
code-digit_char (suc (suc (suc zero))) h = refl
code-digit_char (suc (suc (suc (suc zero)))) h = refl
code-digit_char (suc (suc (suc (suc (suc zero))))) h = refl
code-digit_char (suc (suc (suc (suc (suc (suc zero)))))) h = refl
code-digit_char (suc (suc (suc (suc (suc (suc (suc zero))))))) h = refl
code-digit_char (suc (suc (suc (suc (suc (suc (suc (suc zero)))))))) h = refl
code-digit_char (suc (suc (suc (suc (suc (suc (suc (suc (suc zero))))))))) h = refl
code-digit_char (suc (suc (suc (suc (suc (suc (suc (suc (suc (suc n)))))))))) h =
    absurd (omega arith)

read_last :
    (n : ℕ) (out : String)
    → scan_digits (n / 10) (String.◌∷◌ (digit_char (n % 10)) out) ≡ scan_digits n out
unfolding scan_digits is_digit
read_last n out = ground (arith, code-digit_char (n % 10))

scan_digits-digits :
    (fuel n : ℕ) (out : String) → n ≤ fuel → scan_digits 0 (digits fuel n out) ≡ scan_digits n out
unfolding digits
scan_digits-digits zero n out h = ap (λ k. scan_digits k out) (omega arith)
scan_digits-digits (suc fuel) n out h =
    let longer = String.◌∷◌ (digit_char (n % 10)) out in
    elim (Bool-cases (eqb n 0)) [
      | inl q ↦ simp q (ap (λ k. scan_digits k out) (ground arith))
      | inr q ↦ simp q (scan_digits-digits fuel (n / 10) longer (ground arith) ∙ read_last n out)
    ]

abbrev pub AllDigits : String → Type 0
AllDigits String.[] = Unit
AllDigits (String.◌∷◌ c s) = (b'0' ≤ code c) × (code c ≤ b'9') × AllDigits s

digits-AllDigits : (fuel n : ℕ) (out : String) → AllDigits out → AllDigits (digits fuel n out)
unfolding digits
digits-AllDigits zero n out h = h
digits-AllDigits (suc fuel) n out h =
    let c = digit_char (n % 10) in
    let value = code-digit_char (n % 10) (omega arith) in
    elim (Bool-cases (eqb n 0)) [
      | inl q ↦ simp q h
      | inr q ↦ simp q (
          digits-AllDigits fuel (n / 10) (String.◌∷◌ c out)
            (omega (arith, value), omega (arith, value), h))
    ]

itoa-suc : (n : ℕ) → itoa (suc n) ≡ digits (suc n) (suc n) ""
unfolding itoa
itoa-suc n = ground arith

pub itoa-AllDigits : (n : ℕ) → AllDigits (itoa n)
unfolding itoa
itoa-AllDigits zero = (omega arith, omega arith, tt)
itoa-AllDigits (suc n) = subst AllDigits (sym (itoa-suc n)) (digits-AllDigits (suc n) (suc n) "" tt)

atoi_of_scan :
    (s : String) (n : ℕ)
    → AllDigits s
    → scan_digits 0 s ≡ some n
    → 0 < n
    → n < 2 ^ 63
    → atoi s ≡ some (pos n)
unfolding atoi unsigned scan_digits
atoi_of_scan String.[] n h q p r = absurd (ground arith)
atoi_of_scan (String.◌∷◌ c s) n h q p r = ground arith

pub atoi-itoa : (n : ℕ) → n < 2 ^ 63 → atoi (itoa n) ≡ some (pos n)
unfolding itoa atoi scan_digits
atoi-itoa zero h = refl
atoi-itoa (suc n) h = simp (itoa-suc n) (
    atoi_of_scan (digits (suc n) (suc n) "") (suc n) (digits-AllDigits (suc n) (suc n) "" tt)
      (scan_digits-digits (suc n) (suc n) "" (omega arith)) (omega arith) h)

-- The first letter of a text is where digits end.
pub cut-append :
    (a : String) (c : Char) (b : String)
    → AllDigits a
    → b'9' < code c
    → cut (code c) (a ++ String.◌∷◌ c b) ≡ some (a, b)
unfolding cut prepend
cut-append String.[] c b h q = rw append.nil (ground arith)
cut-append (String.◌∷◌ d a) c b h q = rw append.cons (ground (arith, cut-append a c b h.2 q))

-- Digits and another letter add no place to cut at.
pub cut-append_none :
    (letter : ℕ) (a : String) (c : Char) (b : String)
    → AllDigits a
    → b'9' < letter
    → code c ≢ letter
    → cut letter b ≡ none
    → cut letter (a ++ String.◌∷◌ c b) ≡ none
unfolding cut prepend
cut-append_none letter String.[] c b h q other k = rw append.nil (ground arith)
cut-append_none letter (String.◌∷◌ d a) c b h q other k =
    rw append.cons (ground (arith, cut-append_none letter a c b h.2 q other k))
