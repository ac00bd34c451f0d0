-- ===== src/Externals.antt =====
-- What the program takes from libraries, as functions that its operations are given. The theorems
-- hold for every choice of them.
use youtube_webhook_ingestio.Base.{ℕ, String}
use youtube_webhook_ingestio.Models.{Time}
use youtube_webhook_ingestio.Parser.{AtomFeed}
use youtube_webhook_ingestio.World.Action.{Result}

pub record Externals : Type 0 where
  -- encoding/xml: xml.Unmarshal into parser.AtomFeed
  pub unmarshal : String → Result AtomFeed
  -- crypto/sha256 and encoding/hex: db.GenerateContentHash
  pub content_hash : String → String
  -- crypto/hmac, crypto/sha1 and encoding/hex: the digest of a body (second) under a key (first)
  pub hmac_sha1_hex : String → String → String
  -- asynq: the ID of the n-th task of the queue
  pub task_id : ℕ → String
  -- time.Time.Format(time.RFC3339)
  pub rfc3339 : Time → String
