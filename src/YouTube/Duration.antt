-- ===== src/YouTube/Duration.antt =====
-- internal/service/youtube/client.go: ParseVideoDuration. An int has 64 bits: a sum or a product is its
-- remainder modulo 2 ^ 64 in two's complement.
pub mod RoundTrip
use youtube_webhook_ingestio.Base.{
  ℕ, ◌+◌, ◌*◌, ◌%◌, ◌^◌, ℤ, pos, String, Option, none, some, if◌then◌else◌, not,
}
use youtube_webhook_ingestio.Base.Int64.{bits, from_bits}
use youtube_webhook_ingestio.Base.Text.{has_prefix, trim_prefix}
use youtube_webhook_ingestio.Base.Decimal.{atoi, cut}

abbrev with_rest : String → Option ℤ → Option (ℤ × String)
with_rest rest none = none
with_rest rest (some n) = some (n, rest)

-- `if idx := strings.Index(duration, letter); idx != -1 { … }`: the number before the letter, or the 0
-- that the variable was declared with, and the text that is left; `none` is an error of Atoi.
unfoldable pub parse_unit : ℕ → String → Option (ℤ × String)
parse_unit letter text = elim (cut letter text) [
  | none ↦ some (pos 0, text)
  | some (before, rest) ↦ with_rest rest (atoi before)
]

unfoldable pub parse_seconds : ℤ → ℤ → Option (ℤ × String) → Option ℤ
parse_seconds hours minutes none = none
parse_seconds hours minutes (some (seconds, rest)) =
    some (from_bits ((bits hours * 3600 + bits minutes * 60 + bits seconds) % 2 ^ 64))

unfoldable pub parse_minutes : ℤ → Option (ℤ × String) → Option ℤ
parse_minutes hours none = none
parse_minutes hours (some (minutes, rest)) = parse_seconds hours minutes (parse_unit b'S' rest)

unfoldable pub parse_hours : Option (ℤ × String) → Option ℤ
parse_hours none = none
parse_hours (some (hours, rest)) = parse_minutes hours (parse_unit b'M' rest)

-- ParseVideoDuration; `none` is an error.
unfoldable pub parse_video_duration : String → Option ℤ
parse_video_duration duration =
    if not (has_prefix duration "PT")
    then none
    else parse_hours (parse_unit b'H' (trim_prefix duration "PT"))
