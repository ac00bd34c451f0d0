-- ===== src/Http.antt =====
-- net/http as the handlers use it: a request, what they read of it, and the response. A handler
-- always responds, so it returns a response and not an error.
use Prim.Native.String.{◌++◌ as ◌<>◌}
use youtube_webhook_ingestio.Base.{ℕ, String}
use youtube_webhook_ingestio.World.{World}
use youtube_webhook_ingestio.World.Action.{Result, Action}

-- `query` and `header` are r.URL.Query().Get and r.Header.Get, which return "" for a missing key;
-- `body` is what io.ReadAll(r.Body) returns.
pub record Request : Type 0 where
  pub method : String
  pub path : String
  pub query : String → String
  pub header : String → String
  pub body : Result String

pub record Response : Type 0 where
  pub status : ℕ
  pub body : String

abbrev pub Handler : Type 0
Handler = World → Response × World

unfoldable pub respond : Response → Handler
respond r w = (r, w)

-- http.Error
abbrev pub http_error : String → ℕ → Response
http_error text status = record { status = status; body = text <> "\n" }

-- A call in a handler, and what the handler does with its result.
unfoldable pub on_result : {A : Type 0} → Action A → (Result A → Handler) → Handler
on_result m f w = let (r, w') = m w in f r w'
