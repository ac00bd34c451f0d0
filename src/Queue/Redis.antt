-- ===== src/Queue/Redis.antt =====
-- internal/queue/redis.go: ParseRedisURL. url.Parse is a parameter.
use Prim.Native.String.{◌++◌ as ◌<>◌}
use youtube_webhook_ingestio.Base.{
  ℤ, pos, String, Bool, true, false, not, ◌||◌, Option, none, some, ◌==◌, if◌then◌else◌,
}
use youtube_webhook_ingestio.Base.Decimal.{atoi}
use youtube_webhook_ingestio.Base.Text.{trim_prefix}
use youtube_webhook_ingestio.Errors.{plain, wrapped}
use youtube_webhook_ingestio.World.Action.{Result, ok, err}
use youtube_webhook_ingestio.YouTube.Url.{contains}

-- url.URL; `password` is that of its user, if there is one.
pub record Url : Type 0 where
  pub scheme : String
  pub host : String
  pub password : Option String
  pub path : String

-- asynq.RedisClientOpt, with TLSConfig as whether it is there
pub record RedisClientOpt : Type 0 where
  pub addr : String
  pub password : String
  pub db : ℤ
  pub tls : Bool

abbrev text_or_empty : Option String → String
text_or_empty none = ""
text_or_empty (some t) = t

abbrev with_db : RedisClientOpt → String → Option ℤ → Result RedisClientOpt
with_db opt text none = err (plain ("invalid database number in redis URL: " <> text))
with_db opt text (some db) = ok (record opt { db = db })

-- What follows the check of the scheme
unfoldable pub redis_options : Url → Bool → Result RedisClientOpt
redis_options u tls =
    let opt : RedisClientOpt = record {
      addr = u.host;
      password = text_or_empty u.password;
      db = pos 0;
      tls = tls;
    } in
    let text = trim_prefix u.path "/" in
    if u.host == ""
    then err (plain "redis URL missing host")
    else if u.path == "" || u.path == "/"
    then ok opt
    else with_db opt text (atoi text)

abbrev on_url : Result Url → Result RedisClientOpt
on_url (err e) = err (wrapped "invalid redis URL: " e "")
on_url (ok u) =
    if u.scheme == "redis"
    then redis_options u false
    else if u.scheme == "rediss"
    then redis_options u true
    else err
        (plain ("unsupported redis URL scheme: " <> u.scheme <> " (expected 'redis' or 'rediss')"))

-- ParseRedisURL
unfoldable pub parse_redis_url : (String → Result Url) → String → Result RedisClientOpt
parse_redis_url parse url =
    if not (contains url "://")
    then ok (record { addr = url; password = ""; db = pos 0; tls = false })
    else on_url (parse url)
