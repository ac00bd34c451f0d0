-- ===== src/Base/Decimal.antt =====
-- Go's strconv.Atoi and strconv.Itoa on the native texts, and strings.Index with a one-letter text.
pub mod RoundTrip
use Prim.Native.Char.{Char, code}
use Prim.Native.String.{String, char_at}
use Prim.Native.Nat.{ℕ, zero, suc, ◌+◌, ◌-◌, ◌*◌, ◌/◌, ◌%◌, ◌^◌, ◌<◌}
use mathlib.Core.Bool.{Bool, true, false, ◌&&◌}
use mathlib.Core.Logic.{dite}
use mathlib.Core.Option.{Option, none, some}
use mathlib.Core.Path.{◌≡◌, refl}
use mathlib.Core.WellFounded.{Acc, WellFounded}
use native.Mathlib.Decide.{dec_lt}
use native.Mathlib.Omega.{arith}
use youtube_webhook_ingestio.Base.Tests.{ltb, leb, eqb, if◌then◌else◌, ℤ, pos, negsuc}

unfoldable pub is_digit : Char → Bool
is_digit c = leb b'0' (code c) && leb (code c) b'9'

-- the number that digits spell behind `n`
unfoldable pub scan_digits : ℕ → String → Option ℕ
unfolding is_digit
scan_digits n String.[] = some n
scan_digits n (String.◌∷◌ c s) =
    if is_digit c then scan_digits (n * 10 + (code c - b'0')) s else none

-- the number that one digit or more spell
unfoldable pub unsigned : String → Option ℕ
unfolding scan_digits
unsigned String.[] = none
unsigned (String.◌∷◌ c s) = scan_digits 0 (String.◌∷◌ c s)

-- the bounds of an int, which has 64 bits
abbrev pub signed_positive : Option ℕ → Option ℤ
signed_positive none = none
signed_positive (some n) = if ltb n (2 ^ 63) then some (pos n) else none

abbrev pub signed_negative : Option ℕ → Option ℤ
signed_negative none = none
signed_negative (some n) =
    if eqb n 0 then some (pos 0) else if leb n (2 ^ 63) then some (negsuc (n - 1)) else none

-- strconv.Atoi; `none` is its error.
unfoldable pub atoi : String → Option ℤ
unfolding unsigned
atoi String.[] = none
atoi (String.◌∷◌ c s) =
    if eqb (code c) b'-'
    then signed_negative (unsigned s)
    else if eqb (code c) b'+'
    then signed_positive (unsigned s)
    else signed_positive (unsigned (String.◌∷◌ c s))

unfoldable pub digit_char : ℕ → Char
digit_char n = char_at "0123456789" n

-- The digits of a number before a text. Each round divides the number by ten, so as many rounds as the
-- number says are enough.
unfoldable pub digits : ℕ → ℕ → String → String
unfolding digit_char
digits zero n out = out
digits (suc fuel) n out =
    let more = digits fuel (n / 10) (String.◌∷◌ (digit_char (n % 10)) out) in
    if eqb n 0 then out else more

-- strconv.Itoa of a number that is not negative
unfoldable pub itoa : ℕ → String
unfolding digits
itoa n = if eqb n 0 then "0" else digits n n ""

unfoldable pub prepend : Char → Option (String × String) → Option (String × String)
prepend c none = none
prepend c (some (a, b)) = some (String.◌∷◌ c a, b)

-- text[:i] and text[i+1:] for i = strings.Index(text, letter), the letter by its code; `none` where the
-- index is -1.
unfoldable pub cut : ℕ → String → Option (String × String)
unfolding prepend
cut letter String.[] = none
cut letter (String.◌∷◌ c s) = if eqb (code c) letter then some ("", s) else prepend c (cut letter s)
