-- ===== src/Tests/YouTube.antt =====
-- Runs of the functions of the YouTube client.
use youtube_webhook_ingestio.Base.{
  ◌+◌, ◌*◌, pos, negsuc, String, none, some, List, [], ◌∷◌, ◌≡◌, refl, arith, All,
}
use youtube_webhook_ingestio.Base.Decimal.{itoa, digits}
use youtube_webhook_ingestio.YouTube.Batches.{
  batch_video_ids, flattened, IsFetchable, flattened-batch_video_ids, batch_video_ids-IsFetchable,
}
use youtube_webhook_ingestio.YouTube.Duration.{parse_video_duration}
use youtube_webhook_ingestio.YouTube.Duration.RoundTrip.{
  duration_text, parse_video_duration-duration_text,
}
use youtube_webhook_ingestio.Base.Text.{has_prefix, trim_prefix}
use youtube_webhook_ingestio.YouTube.Duration.{
  parse_hours, parse_minutes, parse_seconds, parse_unit,
}
use youtube_webhook_ingestio.Base.Decimal.{atoi, cut}
use youtube_webhook_ingestio.Base.{◌==◌, if◌then◌else◌}
use youtube_webhook_ingestio.World.Action.{ok}
use youtube_webhook_ingestio.Http.{Request}

abbrev ids : List String
ids = "dQw4w9WgXcQ" ∷ "9bZkp7q19f0" ∷ "kJQP7kiw5Fk" ∷ []

in_twos :
    batch_video_ids ids (pos 2) ≡ ("dQw4w9WgXcQ" ∷ "9bZkp7q19f0" ∷ []) ∷ ("kJQP7kiw5Fk" ∷ []) ∷ []
unfolding batch_video_ids
in_twos = refl

flattened-batch_video_ids_example : flattened (batch_video_ids ids (negsuc 0)) ≡ ids
flattened-batch_video_ids_example = flattened-batch_video_ids ids (negsuc 0)

batch_video_ids-IsFetchable_example : All IsFetchable (batch_video_ids ids (pos 2))
batch_video_ids-IsFetchable_example = batch_video_ids-IsFetchable ids (pos 2)

-- "PT4M13S" of the source's comment
four_minutes : duration_text none (some 4) (some 13) ≡ "PT4M13S"
unfolding itoa digits native.Mathlib.Decide.dec_lt
four_minutes = refl

-- A number of hours whose seconds are no int comes back as another number, without an error.
overflow : parse_video_duration "PT9223372036854775807H" ≡ some (negsuc 3599)
unfolding parse_video_duration has_prefix parse_hours parse_unit cut trim_prefix atoi parse_minutes
    parse_seconds
overflow = refl

-- What stands behind the seconds is not read, and a sign is.
lenient : parse_video_duration "PT-5Sx" ≡ some (negsuc 4)
unfolding parse_video_duration has_prefix parse_hours parse_unit cut trim_prefix parse_minutes
    parse_seconds atoi
lenient = refl

parse_video_duration-duration_text_example :
    parse_video_duration (duration_text (some 1) none (some 30))
    ≡ some (pos (1 * 3600 + 0 * 60 + 30))
parse_video_duration-duration_text_example =
    parse_video_duration-duration_text (some 1) none (some 30) (omega arith)

abbrev listing : Request
listing = record {
  method = "GET";
  path = "/videos";
  query = λ key. if key == "limit" then "5000" else "";
  header = λ key. "";
  body = ok "";
}
