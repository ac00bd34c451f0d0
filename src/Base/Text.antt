-- ===== src/Base/Text.antt =====
-- The functions of Go's package strings that the program calls, on the native texts.
use Prim.Native.Char.{code}
use Prim.Native.String.{String, ◌++◌}
use Prim.Native.String.append
use mathlib.Core.Path.{◌≡◌, refl, sym, ap, ◌∙◌}
use mathlib.Core.Bool.{Bool, true}
use mathlib.Core.Option.{Option, none, some}
use native.Mathlib.Omega.{arith}
use text.Mathlib.TextEquality.{Char-path}
use youtube_webhook_ingestio.Base.Tests.{eqb, if◌then◌else◌, is_some}

-- The text behind a prefix, if the text has that prefix.
unfoldable pub cut_prefix : String → String → Option String
cut_prefix s String.[] = some s
cut_prefix String.[] (String.◌∷◌ d p) = none
cut_prefix (String.◌∷◌ c s) (String.◌∷◌ d p) =
    if eqb (code c) (code d) then cut_prefix s p else none

-- strings.HasPrefix
unfoldable pub has_prefix : String → String → Bool
unfolding cut_prefix
has_prefix s p = is_some (cut_prefix s p)

-- strings.TrimPrefix
unfoldable pub trim_prefix : String → String → String
unfolding cut_prefix
trim_prefix s p = elim (cut_prefix s p) [ none ↦ s | some rest ↦ rest ]

pub cut_prefix-append : (p s : String) → cut_prefix (p ++ s) p ≡ some s
unfolding cut_prefix
cut_prefix-append String.[] s = rw append.nil
cut_prefix-append (String.◌∷◌ c p) s = rw append.cons (ground (arith, cut_prefix-append p s))

-- A text with the prefix is the prefix and what `cut_prefix` returns.
pub eq-append_of_cut_prefix : (s p : String) {r : String} → cut_prefix s p ≡ some r → s ≡ p ++ r
unfolding cut_prefix
eq-append_of_cut_prefix s String.[] h = rw append.nil (cc h)
eq-append_of_cut_prefix String.[] (String.◌∷◌ d p) h = cc
eq-append_of_cut_prefix (String.◌∷◌ c s) (String.◌∷◌ d p) {r} h =
    rw append.cons
      (cc (Char-path c d (ground arith), eq-append_of_cut_prefix s p {r = r} (ground arith)))

pub trim_prefix-append : (p s : String) → trim_prefix (p ++ s) p ≡ s
unfolding trim_prefix
trim_prefix-append p s = ground (arith, cut_prefix-append p s)

pub has_prefix-append : (p s : String) → has_prefix (p ++ s) p ≡ true
unfolding has_prefix
has_prefix-append p s = simp (cut_prefix-append p s) refl

cut-trim_prefix :
    (s p : String) (o : Option String)
    → cut_prefix s p ≡ o
    → has_prefix s p ≡ true
    → s ≡ p ++ trim_prefix s p
unfolding has_prefix trim_prefix
cut-trim_prefix s p none q h = absurd (ground arith)
cut-trim_prefix s p (some r) q h =
    eq-append_of_cut_prefix s p {r = r} q ∙ ap (λ x. p ++ x) (sym (ground (arith, q)))

-- A text that has the prefix is the prefix and the text without it.
pub append-trim_prefix : (s p : String) → has_prefix s p ≡ true → s ≡ p ++ trim_prefix s p
append-trim_prefix s p h = cut-trim_prefix s p (cut_prefix s p) refl h
