-- ===== src/YouTube.antt =====
-- internal/service/youtube/client.go: the parts of the YouTube client that do not depend on the API's
-- types. The HTTP client of Google's library is a parameter.
pub mod Api
pub mod Mapping
pub mod Client
pub mod Channels
pub mod Url
pub mod Panic
pub mod Accounting
pub mod Batches
pub mod Duration
