-- ===== src/Lib.antt =====
-- The YouTube webhook ingestion service, from a notification of the PubSubHubbub hub to the tables and
-- the queue, the worker that enriches videos, and the subscriptions with their renewal, as a model in
-- which the environment may refuse any call or lose its answer.
--
-- The parts of the program and the files that model them, with paths from the repository's root:
--   Base        lists, texts, decimal numbers (strconv.Atoi and Itoa) and int64 words.
--   Errors      internal/db/errors.go: error chains, WrapError, IsNotFound, IsDuplicateKey.
--   Models      internal/db/models, internal/model: the rows. Models/New: the New… functions.
--               Models/Enrichment: the enrichments. Models/Sponsor: the sponsors.
--   Table       the SQL statements' SELECT and upsert by a unique text key, on lists of rows.
--   World       what the processes share: the PostgreSQL tables, the Redis set of blocked videos, the
--               asynq queue, with the faults of the coming calls and the clock. World/Action: Go code
--               on that world, which keeps its writes beside an error. World/Keeps: relations that
--               hold between the worlds before and after an action. World/Yields and World/Fails: what
--               holds of the values and of the errors that an action returns.
--   Repository  internal/db/repository: WebhookEvents, Videos (the upserts, with the channels),
--               Channels and VideoRows (of the API), VideoUpdates, Jobs and JobRows, Blocked, Quota,
--               Subscriptions, Enrichments and ChannelEnrichments, most methods one statement
--               (Repository/Statement) with its error wrapped; sponsor_detection.go is Detection
--               (SaveDetectionResults, in a Transaction), Prompts (with the sponsors) and SponsorLinks
--               (with the jobs). Deletions has the deletions that cascade, with References, and
--               Listings the List methods, with Pages and Videos. Repository/Rows: WHERE, ORDER BY and
--               LIMIT, with proofs in Rows/Order, Rows/Permuted and JobRows/Urgency.
--               Repository/Outcome: what a call that succeeds has done.
--   Parser      internal/parser/atom.go: ParseAtomFeed.
--   Queue       internal/queue: tasks.go and client.go (Client and Others), redis.go (Redis), the video
--               task of handler.go with hooks.go (Worker), its channel task (ChannelWorker), and its
--               sponsor task with the callback of cmd/enricher/main.go (SponsorWorker).
--   Processor   internal/service/processor.go: ProcessEvent and processProjections.
--   Blocked     internal/service/blocked_video_cache.go and internal/handler/blocked_video.go.
--   Quota       internal/service/quota/manager.go. Workers: how the workers of cmd/enricher share a day's quota.
--   PubSubHub   internal/service/pubsubhub.go: Subscribe and Unsubscribe of the hub's client.
--   Subscriptions
--               internal/db/models/subscription.go, with cmd/renewer/main.go (Renewer) and
--               internal/handler/subscription.go (Handler). Untouched, Renewals and Creation prove.
--   YouTube     internal/service/youtube/client.go: Batches, Duration, Mapping (of a video), Client
--               (FetchVideos), Channels and Url (ResolveChannelByURL), on the types of Api.
--   Resolver    internal/service/channel_resolver.go and internal/handler/channel_from_url.go (Handler).
--               Statuses, ChannelRows and Stored prove.
--   Ollama      internal/service/ollama/client.go: AnalyzeVideoForSponsors. Confidence proves.
--   Crud        internal/handler/crud.go: what is read from a query.
--   Http, Webhook, Auth
--               net/http as handlers see it, internal/handler/webhook.go, internal/middleware/auth.go.
--   Tests       runs of the code on concrete worlds.
-- The webhook handler checks the signature, asks the cache whether the video is blocked, and calls the
-- event processor, which writes by the repositories and enqueues by the queue client. The worker takes the
-- task from the queue, asks the quota manager, fetches the video by the YouTube client, which records the
-- quota, stores the enrichment and marks the job; a callback then records the job of a sponsor detection
-- and enqueues its task, which asks the language model and saves the sponsors in one transaction. The
-- subscription handler and the renewer subscribe at the hub by its client and save the subscription.
--
-- A call over the network takes the next fault of the world: it is served, or refused before it has an
-- effect, or lost: it takes effect and its caller gets an error. When the list of faults is used up, every
-- call is served. A statement is atomic, and reads the clock at its start. A time is a natural number, and
-- so are the ids of rows. Loops are structural recursion on lists, but for two that have fuel: BatchVideoIDs
-- has one round for each ID, which is enough as each moves on by one at least, and Itoa as many rounds as
-- its number says. A row that ORDER BY does not place comes in insertion order. A panic is a value: `none`
-- of mapVideoToEnrichment. A UUID is a natural number, and a confidence is in ten-thousandths, the unit of
-- its column.
--
-- Outside the repository, and a parameter: xml.Unmarshal, SHA-256, HMAC-SHA1, the ids that asynq gives to
-- tasks, the RFC 3339 form of a time (Externals); the day of a time (Quota); encoding/json
-- (Blocked/Handler, Subscriptions/Handler); net/url, net/http and the hub (PubSubHub); the YouTube Data
-- API and time.Parse (YouTube/Client); the language model with its JSON (Ollama); uuid.Parse
-- (Queue/SponsorWorker); the order of texts (Repository/Prompts, Repository/Enrichments), ORDER BY on a
-- text and ILIKE (Repository/Listings); url.Parse, TrimSpace, ToLower and ToUpper (YouTube/Url,
-- Queue/Redis, Crud, Repository/Detection). Not modelled: logging, json.Marshal of tasks, contexts and
-- their deadlines, the lengths of VARCHAR columns, expressions behind ORDER BY whose evaluation has
-- effects, and the parts of the program that are not in the list above: the CRUD handlers with the one of
-- the sponsors, and the start-up of the processes.
pub mod Base
pub mod Errors
pub mod Models
pub mod Table
pub mod World
pub mod YouTube
pub mod Subscriptions
pub mod Crud
pub mod Ollama
pub mod Resolver
pub mod Repository
pub mod Parser
pub mod Externals
pub mod Queue
pub mod Processor
pub mod Http
pub mod Blocked
pub mod Webhook
pub mod PubSubHub
pub mod Quota
pub mod Auth
pub mod Tests
