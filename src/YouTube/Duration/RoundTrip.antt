-- ===== src/YouTube/Duration/RoundTrip.antt =====
-- The durations of ISO 8601 that YouTube sends, hours, minutes and seconds of which any may be missing.
use Prim.Native.Char.{Char, code}
use Prim.Native.String.{◌++◌ as ◌<>◌}
use youtube_webhook_ingestio.Base.{
  ℕ, ◌+◌, ◌*◌, ◌^◌, ◌<◌, pos, String, Option, none, some, ◌≡◌, ◌≢◌, refl, arith,
}
use youtube_webhook_ingestio.Base.Text.{trim_prefix-append, has_prefix-append}
use youtube_webhook_ingestio.Base.Decimal.{atoi, cut, itoa}
use youtube_webhook_ingestio.Base.Decimal.RoundTrip.{
  itoa-AllDigits, atoi-itoa, cut-append, cut-append_none,
}
use youtube_webhook_ingestio.YouTube.Duration.{
  parse_unit, parse_seconds, parse_minutes, parse_hours, parse_video_duration,
}

-- a part of a duration and its letter, before the parts behind it
abbrev pub component : Option ℕ → Char → String → String
component none letter tail = tail
component (some n) letter tail = itoa n <> String.◌∷◌ letter tail

abbrev pub amount : Option ℕ → ℕ
amount none = 0
amount (some n) = n

abbrev pub duration_text : Option ℕ → Option ℕ → Option ℕ → String
duration_text hours minutes seconds =
    "PT" <> component hours "H" (component minutes "M" (component seconds "S" ""))

parse_unit_absent :
    (letter : ℕ) (text : String)
    → cut letter text ≡ none
    → parse_unit letter text ≡ some (pos 0, text)
unfolding parse_unit
parse_unit_absent letter text q = ground (arith, q)

parse_unit_present :
    (letter : ℕ) (text before rest : String) (n : ℕ)
    → cut letter text ≡ some (before, rest)
    → atoi before ≡ some (pos n)
    → parse_unit letter text ≡ some (pos n, rest)
unfolding parse_unit
parse_unit_present letter text before rest n q a = ground (arith, q, a)

parse_unit-component :
    (part : Option ℕ) (letter : Char) (tail : String)
    → b'9' < code letter
    → cut (code letter) tail ≡ none
    → amount part < 2 ^ 63
    → parse_unit (code letter) (component part letter tail) ≡ some (pos (amount part), tail)
parse_unit-component none letter tail h q bound = parse_unit_absent (code letter) tail q
parse_unit-component (some n) letter tail h q bound =
    parse_unit_present (code letter) (component (some n) letter tail) (itoa n) tail n
      (cut-append (itoa n) letter tail (itoa-AllDigits n) h) (atoi-itoa n bound)

cut-component-none :
    (letter : ℕ) (part : Option ℕ) (c : Char) (tail : String)
    → b'9' < letter
    → code c ≢ letter
    → cut letter tail ≡ none
    → cut letter (component part c tail) ≡ none
cut-component-none letter none c tail h other q = q
cut-component-none letter (some n) c tail h other q =
    cut-append_none letter (itoa n) c tail (itoa-AllDigits n) h other q

-- Every duration that hours, minutes and seconds of ISO 8601 spell is parsed to its number of seconds,
-- whichever parts are missing, as long as that number is an int.
pub parse_video_duration-duration_text :
    (hours minutes seconds : Option ℕ)
    → amount hours * 3600 + amount minutes * 60 + amount seconds < 2 ^ 63
    → parse_video_duration (duration_text hours minutes seconds)
      ≡ some (pos (amount hours * 3600 + amount minutes * 60 + amount seconds))
unfolding parse_video_duration parse_hours parse_minutes parse_seconds cut
parse_video_duration-duration_text hours minutes seconds bound =
    let last = component seconds "S" "" in
    let middle = component minutes "M" last in
    let no_m : cut b'M' last ≡ none =
      cut-component-none b'M' seconds "S" "" (omega arith) (ground arith) refl in
    let no_h : cut b'H' middle ≡ none =
      cut-component-none b'H' minutes "M" last (omega arith) (ground arith)
        (cut-component-none b'H' seconds "S" "" (omega arith) (ground arith) refl) in
    simp
      (
        has_prefix-append "PT" (component hours "H" middle),
        trim_prefix-append "PT" (component hours "H" middle),
        parse_unit-component hours "H" middle (omega arith) no_h (omega arith),
        parse_unit-component minutes "M" last (omega arith) no_m (omega arith),
        parse_unit-component seconds "S" "" (omega arith) refl (omega arith),
      )
      (ground arith)
