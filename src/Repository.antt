-- ===== src/Repository.antt =====
-- internal/db/repository: most methods are one SQL statement, run by `statement` on the tables. The
-- constraints that the statements can meet are those of migrations/: the unique keys and the foreign
-- keys. Limits on the length of a column are not modelled: such a refusal is one more fault.
pub mod WebhookEvents
pub mod Videos
pub mod VideoUpdates
pub mod Jobs
pub mod Blocked
pub mod Quota
pub mod Subscriptions
pub mod Enrichments
pub mod ChannelEnrichments
pub mod Channels
pub mod VideoRows
pub mod JobRows
pub mod Transaction
pub mod Detection
pub mod Prompts
pub mod SponsorLinks
pub mod Deletions
pub mod Listings
pub mod Rows
pub mod Statement
pub mod Outcome
