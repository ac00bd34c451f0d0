-- ===== src/YouTube/Url.antt =====
-- internal/service/youtube/client.go: parseYouTubeURL and ResolveChannelByURL. url.Parse, strings.TrimSpace and
-- strings.ToLower are parameters; the pattern of channel IDs is that of the subscription handler, with
-- more text allowed behind it.
use Prim.Native.Char.{code}
use Prim.Native.String.{◌++◌ as ◌<>◌}
use youtube_webhook_ingestio.Base.{
  ℕ, zero, suc, String, Bool, not, ◌&&◌, ◌||◌, Option, none, some, ◌==◌, if◌then◌else◌,
}
use youtube_webhook_ingestio.Base.Decimal.{cut}
use youtube_webhook_ingestio.Base.Text.{has_prefix, trim_prefix, cut_prefix}
use youtube_webhook_ingestio.Errors.{plain}
use youtube_webhook_ingestio.World.Action.{Result, ok, err, Action, fail, lift, context, ◌>>=◌}
use youtube_webhook_ingestio.Subscriptions.Handler.{is_id_letter}
use youtube_webhook_ingestio.YouTube.Client.{Client}
use youtube_webhook_ingestio.YouTube.Channels.{
  ChannelDetails, get_channel_details, resolve_channel_by_handle, resolve_channel_by_username,
  resolve_channel_by_custom_url,
}

-- url.URL
pub record Url : Type 0 where
  pub host : String
  pub path : String

pub record Urls : Type 0 where
  pub trim_space : String → String
  pub to_lower : String → String
  pub parse : String → Result Url

-- strings.Contains
unfoldable pub contains : String → String → Bool
contains String.[] part = has_prefix String.[] part
contains (String.◌∷◌ c s) part = has_prefix (String.◌∷◌ c s) part || contains s part

-- The four texts that parseYouTubeURL returns, of which one is set.
pub record Identifier : Type 0 where
  pub channel_id : String
  pub handle : String
  pub username : String
  pub custom_url : String

abbrev pub nothing_found : Identifier
nothing_found = record { channel_id = ""; handle = ""; username = ""; custom_url = "" }

abbrev before_cut : String → Option (String × String) → String
before_cut s none = s
before_cut s (some (before, rest)) = before

-- the text before the first slash
unfoldable pub first_segment : String → String
first_segment s = before_cut s (cut b'/' s)

-- the first n letters, if there are that many letters of an ID
unfoldable pub id_letters : ℕ → String → Option String
id_letters zero s = some ""
id_letters (suc n) String.[] = none
id_letters (suc n) (String.◌∷◌ c s) =
    let rest = id_letters n s in if is_id_letter (code c) then letter_and c rest else none
  where
    letter_and : Prim.Native.Char.Char → Option String → Option String
    letter_and c none = none
    letter_and c (some t) = some (String.◌∷◌ c t)

abbrev with_uc : Option String → Option String
with_uc none = none
with_uc (some letters) = some ("UC" <> letters)

abbrev id_behind : Option String → Option String
id_behind none = none
id_behind (some rest) = with_uc (id_letters 22 rest)

-- ^/channel/(UC[a-zA-Z0-9_-]{22}), its group
unfoldable pub channel_of_path : String → Option String
channel_of_path path = id_behind (cut_prefix path "/channel/UC")

unfoldable pub identify_custom : String → String → Result Identifier
identify_custom url path =
    if has_prefix path "/c/"
    then ok (record nothing_found { custom_url = first_segment (trim_prefix path "/c/") })
    else if has_prefix path "/user/"
    then ok (record nothing_found { username = first_segment (trim_prefix path "/user/") })
    else err (plain ("unsupported YouTube URL format: " <> url))

abbrev channel_or : Option String → Result Identifier → Result Identifier
channel_or none other = other
channel_or (some id) other = ok (record nothing_found { channel_id = id })

-- The four patterns, in their order.
unfoldable pub identify : String → String → Result Identifier
identify url path =
    if has_prefix path "/@"
    then ok
        (record nothing_found { handle = first_segment (trim_prefix (trim_prefix path "/") "@") })
    else channel_or (channel_of_path path) (identify_custom url path)

abbrev pub is_youtube_host : String → Bool
is_youtube_host host = contains host "youtube.com" || contains host "youtu.be"

unfoldable pub identify_url : Urls → String → Url → Result Identifier
identify_url u url parsed =
    let host = u.to_lower parsed.host in
    if not (is_youtube_host host)
    then err (plain ("not a YouTube URL: " <> host))
    else identify url parsed.path

-- the text with https:// before it, unless it has a scheme
abbrev pub with_scheme : String → String
with_scheme s =
    if not (has_prefix s "http://") && not (has_prefix s "https://") then "https://" <> s else s

-- parseYouTubeURL
unfoldable pub parse_youtube_url : Urls → String → Action Identifier
unfolding ◌>>=◌ lift
parse_youtube_url u text =
    let url = with_scheme (u.trim_space text) in
    (do parsed ← context "invalid URL" (lift (u.parse url)); lift (identify_url u url parsed))

unfoldable pub resolve_identifier : Client → Identifier → Action ChannelDetails
unfolding fail
resolve_identifier c i =
    if not (i.channel_id == "")
    then get_channel_details c i.channel_id
    else if not (i.handle == "")
    then resolve_channel_by_handle c i.handle
    else if not (i.username == "")
    then resolve_channel_by_username c i.username
    else if not (i.custom_url == "")
    then resolve_channel_by_custom_url c i.custom_url
    else fail (plain "unable to extract channel identifier from URL")

-- ResolveChannelByURL
unfoldable pub resolve_channel_by_url : Urls → Client → String → Action ChannelDetails
unfolding ◌>>=◌
resolve_channel_by_url u c text =
    context "failed to parse YouTube URL" (parse_youtube_url u text) >>= resolve_identifier c
