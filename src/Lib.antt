-- ===== src/Lib.antt =====
-- The service takes password events of a portal over HTTP, queues them encrypted, and writes the
-- passwords to Microsoft Graph. A request passes the rate limit and the HMAC gate, the hook handler
-- decodes it, the migration service decides on it and queues a message; the worker takes the message
-- from the queue and the Graph processor writes the password. Both sides keep the status of an account.
--
-- The parts, and the files that model them:
--
-- Config: internal/config/config.go. Config/Http has ValidateHTTP and the tests of the lists of
-- networks, Config/Services the rest of Validate, Config/TrustBoundary what they achieve for the
-- middleware, and Config/Load the reading of the environment.
-- Secrets: internal/secretloader/loader.go, the secrets that are read from Key Vault.
-- SyncStatus: internal/syncstatus/status.go, the store in memory; SyncStatus/Order is about writes in
-- any order. SyncStatus/Redis: internal/syncstatus/redis.go, the transition script, set and Get;
-- SyncStatus/Connection is the validation of its options, SyncStatus/Credentials the provider that owns
-- the token manager, and SyncStatus/Opening the construction and Close of the store.
-- Crypto: the codec of internal/passwordcrypto/codec.go.
-- Migration: internal/migration. Event is event.go, Identity classifier.go and upn.go, Message
-- message.go with the envelope of internal/passwordcrypto, and Service service.go.
-- Middleware: internal/middleware. Clock is time.Duration and absDuration, Nonce the nonce store and
-- Hmac the gate of hmac.go; RateLimit is the counter and Source the addresses of ratelimit.go.
-- Handler: internal/handler/hook.go. PasswordJson decodes the password, Hook is ServeHTTP.
-- Body: ReadAll of internal/sensitiveio/read.go.
-- Worker: internal/worker/worker.go. Decode reads a message, Attempts is the retry loop, Settle is
-- processMessage, and Run the loop that receives.
-- Graph: internal/graphclient/client.go, with the bodies in Body, the upsert in Client and NewHTTPClient
-- in Client/Setup, and internal/graphprocessor/processor.go in Processor.
-- Queue: internal/servicebusqueue. Receiver is the receiver of queue.go, Sender the queue of queue.go
-- and of deadletter.go, Clients the constructors that open Azure clients, and Depth the depth probe.
-- Journey: a password on its way from Submit through the codec and the queue to the processor.
-- Dedupe: Submit, the worker and Service Bus as steps in any order on one status store, and what a
-- skipped bootstrap relies on. The bound on the time from the broker's taking a message to its
-- MarkPending is a parameter; each mark of the worker may fail.
-- App: internal/app/app.go. Wiring is New, NewWithQueue and the closing of what they open; Runtime is
-- runServerAndWorker, as a step relation on the two routines and the channel of their results; Chain is
-- the chain of handlers around the hook, with Middleware of internal/requestid/requestid.go, and Flusher
-- the periodic flusher of metrics, as a step relation.
-- Logger: the masking handler of pkg/logger/logger.go.
-- Http: what is written over HTTP. Problem is pkg/problem, Writer the access log's view of a response,
-- Answers what each handler writes, with the recovery from a panic, and Server the routes and Run of
-- internal/httpserver/server.go around the handlers of App/Chain.
-- Observability: what is counted and logged, by internal/observability/events.go, as Reports of the
-- middleware, the hook and the worker; Sources has the attributes of a source address, Kept compares the
-- labels with those that the exporter allows, and Recorder is internal/observability/recorder.go over a
-- heap of maps.
-- Monitor: internal/azuremonitor/metrics.go, the metric recorder. Flush has the payloads and their posts,
-- Sums what the points add up to, Allowed, Kept and Private which labels are exported.
-- Prelude has lists, text, UTF-8, integers, results and effects, and Tests the runs.
--
-- How code becomes definitions. A function keeps its name in snake case. A call of a collaborator is
-- recorded in a list, newest first, and its result is a function of the calls up to and including it,
-- which the record of the collaborators holds: so a collaborator may answer anything, and differently
-- each time. A Go result with an error is a Result, or an Option of the error. Text that is only
-- compared or copied is a list of code points, and what is read or written as bytes is a list of bytes.
-- A map is a function of its key. A mutex makes each method one step. Instants and durations are
-- numbers of nanoseconds: in the status store since year 1, in the gate since the Unix epoch. The
-- gate's durations are int64, with the saturation of Time.Sub and the wrap of a negation, and so is the
-- number of bytes that it reads at most, with the wrap of a sum. Go's int64 counts of requests and
-- attempts are taken not to overflow.
--
-- Recursion is over lists, but for three loops that have fuel. The decoder of JSON strings takes one
-- more than there are bytes, which is enough. Run of the worker and ReadAll take a number of rounds:
-- one more than the calls until the context is done, or than the reads until the reader ends, is enough.
--
-- Parameters, for what is not in the repository: float64, AES-GCM, base64, HMAC-SHA256, SHA-256,
-- net.ParseCIDR, netip.ParseAddr and the other parsers of net, uuid.Validate, strconv,
-- time.ParseDuration, url.Parse, url.PathEscape, json.Marshal, json.Unmarshal at a message and a request,
-- io.Reader, os.Getenv, the layouts of time.Format, the letter tables of unicode, and every
-- collaborator.
--
-- Not modelled: the Azure SDK and what only calls it (internal/azuremonitor/otel.go, the token sources,
-- and the client of the secret loader), the redirects of http.ServeMux, durations in log lines and
-- metrics, the encoding of problem documents, and cmd/server. Of a resource, opening and closing are
-- calls that may fail as they like; a panic of a handler comes before it writes, since each writes at
-- its end. A text of an error that quotes a value has the constant part only.
pub mod Prelude
pub mod Config
pub mod Secrets
pub mod SyncStatus
pub mod Migration
pub mod Crypto
pub mod Middleware
pub mod Handler
pub mod Body
pub mod Worker
pub mod Graph
pub mod Queue
pub mod Journey
pub mod Dedupe
pub mod App
pub mod Logger
pub mod Monitor
pub mod Http
pub mod Observability
pub mod Tests
