-- ===== src/Lib.antt =====
-- A model of the user and order API, the Go program under user-order-api/, and what holds of it.
--
-- A request passes the rate limiter and the bearer check, and reaches a handler with a principal.
-- The handlers of orders and users check the access and call the services, which check the input,
-- call a repository and turn its errors into application errors. A change leaves an audit record,
-- or an event in the outbox table. The publisher takes events from the outbox in batches and gives
-- them to the broker, and the audit consumer takes them from the broker through the inbox table.
--
-- Which file models which part (paths under user-order-api/internal/):
--   Prelude, Prelude/*      numbers, lists, maps, texts, results; strconv in Prelude/Decimal
--   Platform/Httpx          platform/httpx: the application errors
--   Platform/Requests       platform/httpx: PathID, ParsePageRequest
--   Platform/Page           platform/page, and the paginate of order/ and user/
--   Platform/Principal      platform/principal
--   Order, Order/Memory     order/model.go, order/repository.go
--   Order/Service           order/service.go
--   Order/Handler           order/handler.go
--   Outbox/Event            platform/outbox/event.go
--   Outbox/Table, Inbox     platform/outbox/repository.go
--   Outbox/Worker           platform/outbox/worker.go
--   Audit/Consumer, Logger  platform/audit/consumer.go, platform/audit/audit.go
--   Security/Counter        platform/security/counter_store.go
--   Security/Limiter        platform/security/ratelimit.go
--   Auth, Auth/Sessions     auth/model.go, auth/repository.go
--   Auth/Store, Service     auth/service.go
--   Auth/Bearer             auth/middleware.go
--   Auth/Tokens, Handler    auth/jwt.go, auth/handler.go
--   Auth/Mysql, and Events  auth/mysql_repository.go
--   Auth/Mysql/Stored       app/composition.go: the service of authentication over MySQL
--   User, User/*            user/model.go, repository.go, service.go, handler.go
--   User/Mysql              user/mysql_repository.go
--   Order/Mysql             order/mysql_repository.go
--   Database                transactions, and in Database/Tables the tables of platform/database
--   Outbox/Append           platform/outbox/repository.go: AppendTx
--   Security/Cors           platform/security/cors.go
--   Config, Config/Stages   ../cmd/api/config.go
--   Auth/Identities         auth/identity_repository.go
--   App/Identities          app/memory_identity_repository.go
--   Tests                   runs at concrete inputs
-- A child module that is named for a property (Order/Memory/Idempotency, Security/Limiter/Window)
-- holds the proofs about its parent.
--
-- State is passed explicitly: an operation takes the state it finds and returns the one it leaves,
-- with a value or an error. A mutex, a transaction or a channel operation makes each call one step,
-- and concurrent callers are sequences of such steps in any order. Whether a context is cancelled,
-- a statement fails or the broker confirms is an argument of the step. The clock and random tokens
-- are arguments too; the signing of tokens, bcrypt, SHA-256, the parsing of addresses, and lower
-- case beyond ASCII are parameters.
--
-- Times and durations are nanoseconds; counters of int64 that the program increments wrap as bit
-- patterns, and a theorem that needs them not to says so. Strings are lists of code points. The only
-- fuel is that of a client that follows page cursors, in Platform/Page/Walk, where more rounds than
-- there are items are enough, and that of the decimal digits, where the number itself is enough.
--
-- Over MySQL, a call meets a fate for each request to the driver: it takes its course, it is not
-- carried out, or its answer is lost. What the server takes for equal strings, what a time column
-- keeps, and the IDs that AUTO_INCREMENT gives are parameters. A value that does not fit its column
-- is a statement that is not carried out. A theorem that needs strings to be compared byte by byte
-- says so.
--
-- Each claim and each mark of the outbox is a step, and the publishers of Outbox/Worker/Overlap
-- interleave in such steps; PublishOnce in Outbox/Worker is a cycle that no other publisher cuts
-- into. The audit consumer is that of one process, whose
-- deliveries follow one another. Of the audit logger's goroutine, the receipt of an item, its
-- writing and the report of drops are one step. In the event tables a time is one that its column
-- keeps: fractions of a microsecond are left out there.
--
-- Not modelled: the middleware chain, routes and shutdown in app/, and
-- what only calls other libraries (RabbitMQ, metrics, telemetry, the database driver, logging). In
-- the event tables, columns that are written and never read are left out.
pub mod Prelude
pub mod Platform
pub mod Order
pub mod Outbox
pub mod Audit
pub mod Auth
pub mod Database
pub mod Security
pub mod User
pub mod Config
pub mod App
pub mod Tests
