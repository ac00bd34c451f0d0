-- ===== src/Crud.antt =====
-- internal/handler/crud.go: what the listing handlers read from a request's query. time.Parse and
-- strings.ToUpper are parameters.
use Prim.Native.String.{◌++◌ as ◌<>◌}
use youtube_webhook_ingestio.Base.{
  ℕ, zero, suc, ◌≤◌, ℤ, pos, negsuc, String, Bool, true, false, not, ◌&&◌, Option, none, some,
  arith, ◌==◌, ltb, if◌then◌else◌, is_member, [], ◌∷◌,
}
use youtube_webhook_ingestio.Base.Decimal.{atoi}
use youtube_webhook_ingestio.Errors.{plain}
use youtube_webhook_ingestio.Models.{Time}
use youtube_webhook_ingestio.World.Action.{Result, ok, err}
use youtube_webhook_ingestio.Http.{Request}

abbrev pub default_limit : ℕ
default_limit = 50

abbrev pub max_limit : ℕ
max_limit = 1000

-- `if err != nil || limit <= 0 { … }` and the cap
abbrev pub capped : Option ℤ → ℕ
capped none = default_limit
capped (some (negsuc n)) = default_limit
capped (some (pos zero)) = default_limit
capped (some (pos (suc n))) = if ltb max_limit (suc n) then max_limit else suc n

-- parseLimit
unfoldable pub parse_limit : Request → ℕ
parse_limit r = if r.query "limit" == "" then default_limit else capped (atoi (r.query "limit"))

abbrev pub not_negative : Option ℤ → ℕ
not_negative none = 0
not_negative (some (negsuc n)) = 0
not_negative (some (pos n)) = n

-- parseOffset
unfoldable pub parse_offset : Request → ℕ
parse_offset r = if r.query "offset" == "" then 0 else not_negative (atoi (r.query "offset"))

-- strconv.ParseBool; `none` is its error.
unfoldable pub to_bool : String → Option Bool
to_bool s =
    if is_member s ("1" ∷ "t" ∷ "T" ∷ "TRUE" ∷ "true" ∷ "True" ∷ [])
    then some true
    else if is_member s ("0" ∷ "f" ∷ "F" ∷ "FALSE" ∷ "false" ∷ "False" ∷ [])
    then some false
    else none

abbrev bool_or_error : String → Option Bool → Result (Option Bool)
bool_or_error key none = err (plain ("invalid boolean value for " <> key))
bool_or_error key (some b) = ok (some b)

-- parseBool
unfoldable pub parse_bool : Request → String → Result (Option Bool)
parse_bool r key = if r.query key == "" then ok none else bool_or_error key (to_bool (r.query key))

abbrev time_or_error : String → Option Time → Result (Option Time)
time_or_error key none =
    err (plain ("invalid timestamp format for " <> key <> " (expected RFC3339)"))
time_or_error key (some t) = ok (some t)

-- parseTimestamp
unfoldable pub parse_timestamp : (String → Option Time) → Request → String → Result (Option Time)
parse_timestamp parse_time r key =
    if r.query key == "" then ok none else time_or_error key (parse_time (r.query key))

-- getOrderDir
unfoldable pub get_order_dir : (String → String) → Request → String
get_order_dir to_upper r =
    let order_dir = to_upper (r.query "order") in
    if not (order_dir == "ASC") && not (order_dir == "DESC") then "DESC" else order_dir

capped-bounds : (n : Option ℤ) → (1 ≤ capped n) × (capped n ≤ 1000)
capped-bounds none = (omega arith, omega arith)
capped-bounds (some (negsuc n)) = (omega arith, omega arith)
capped-bounds (some (pos zero)) = (omega arith, omega arith)
capped-bounds (some (pos (suc n))) = ground arith

-- The limit of a listing is between 1 and 1000 for every query, a text that is no number or is out of
-- range included.
parse_limit-bounds : (r : Request) → (1 ≤ parse_limit r) × (parse_limit r ≤ 1000)
unfolding parse_limit
parse_limit-bounds r = ground (arith, capped-bounds (atoi (r.query "limit")))
