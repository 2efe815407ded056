-- ===== src/Lib.antt =====
-- A model of the demo service of a mobile operator: plans, subscribers, usage events and invoices behind
-- an HTTP API, and theorems about it.
--
-- The parts and how they interact. A request runs through the layers and the table of routes of
-- internal/httpapi/middleware.go and router.go to a handler. The handler decodes the body, calls the
-- service of internal/subscriber/service.go, and writes a reply. The service checks its input, draws IDs
-- from a counter that the whole process shares, and calls a store through the interface of
-- internal/subscriber/subscriber.go, which internal/store/memory.go and internal/store/sqlite.go
-- implement. The invoice handler reads the store itself and rates the usage by
-- internal/billing/billing.go. cmd/server/main.go sets all of it up and ends it, and
-- cmd/loadgen/main.go is a client that sends it traffic.
--
-- Files, and how their states and operations correspond to the code:
--   Prelude, Word, Text, Float, Time: what Go's language and standard library give, as far as the code
--     uses it: int64 with its wrap-around (add64, sub64, mul64 are +, -, * on int64), strings as lists of
--     code points (byte_len is len), float64 as exact fractions rounded to 53 bits, and times as
--     nanoseconds since the year 1 with a location.
--   Exec: errors as values, and methods that change a state and may fail: what was written before an
--     error stays written.
--   Subscriber: the types of internal/subscriber/subscriber.go; its `Store` is a record of methods over a
--     state. Subscriber/Service: one function for each method of `Service`; `World` is the store with the
--     counter `idCounter`. Its child modules hold the theorems on the status machine (Transitions), the
--     issued IDs (Issued), the outcomes of the methods (Change, Create, Plans, Usage, Pages), and
--     sequences of calls, mostly over two stores (Agree).
--   Store: internal/store/memory.go. Store/Memory holds the methods of `MemoryStore`; its maps are
--     association lists. Store/Db states what a store promises: three maps, and the laws `IsStore` of the
--     methods. Store/Assoc, Keyed, Filter, Sort and Page hold the lemmas on which the methods stand.
--     Store/Sqlite holds the methods of `SQLiteStore` of internal/store/sqlite.go, with the texts of its
--     statements in Store/Statements, over a driver (Store/Driver): functions from a statement's text and
--     arguments to what database/sql hands on. Store/Sqlite/Tables states as `IsHealthy` what a SQLite
--     driver answers by the documentation of SQL, on tables of rows; Keys, Laws, Lists, Like, Search,
--     Errors, Complete, Reset and Restart hold the theorems.
--   Billing: internal/billing/billing.go. `rate` is `Rate`, with the location of the server's local time
--     as a parameter. Usage, Order, Total and Proration hold the theorems.
--   Metrics: internal/observability/metrics.go. Config: internal/config/config.go, and `newStore` of
--     cmd/server/main.go.
--   Http: internal/httpapi. A handler is a function from a request and the `Server` (the process, the
--     collectors and the log) to the calls that it makes on the `http.ResponseWriter` and the new state;
--     `deliver` is what the client then receives. Http/Plans, Subscribers, Misc, Ops and Invoicing are the
--     handlers, Http/Auth is internal/auth/auth.go, Http/Middleware the layers, which also hold for
--     handlers that panic, and Http/Router the table of routes and `NewRouter`. Http/Paths is the cleaning of a
--     path by net/http, which redirects a request whose path is not clean before any route is tried.
--   Webhook: internal/webhook/client.go; Webhook/Outcome says when `Notify` returns no error.
--   Subscriber/Service/Interleaved: the reads and writes of `nextID` in requests at the same time.
--   Observability: internal/observability/logging.go and tracing.go.
--   Command: `run` of cmd/server/main.go, on every path; Command/Select is its `select` and the goroutine
--     of the listener as steps.
--   Loadgen: cmd/loadgen/main.go. Loadgen/Client is `httpClient`, over a network, an encoder, a clock and
--     a generator of random numbers; Loadgen/Run the pool, a worker's action on a tick and `run` up to
--     the start of the workers. Counters, Running, Panics, Reached and Seeding hold the theorems; ticks go to the
--     workers in any order.
--   Tests: concrete runs, among them of a driver on tables that keeps the laws.
--
-- Bounds. Subtraction and the int64 operations wrap as the code's do. Instants before the year 1 are not
-- modelled. Loops are recursions on their lists. The only fuel is that of the decimal digits in
-- Text/Decimal and of the digits of a fraction in Float, one more than the number itself, which is enough
-- since each round divides it.
--
-- Parameters, for code that is not modelled: the decoders of encoding/json, time.Parse for RFC 3339, the
-- %q of fmt, MD5, the table of unicode.ToLower, the random draws, the shell, the file system, HTTP
-- clients, the exposition of the metrics, the SQLite driver, the encoder and the network of the load
-- generator, the parser of package flag, OpenTelemetry and slog, and the status and the URL of the
-- redirect to a clean path (the status is 301 in net/http before Go 1.26 and may be 307 from it on). A
-- column of the SQLite tables is taken to give back what was bound, a time with its location. The driver
-- keeps a time as the text of its zone; the model takes this as exact, and says nothing of how the
-- query of ListUsage compares such texts: it does not compare instants where the zones differ.
--
-- Not modelled: percent escapes in a path, the wiring of the listener, the progress lines of the load generator,
-- durations and the sleep of SLOW_INVOICE, the header `Allow` of a 405, the
-- body that net/http drops for HEAD, and interleavings of whole requests: but for the steps of `nextID`, of
-- the counters of the load generator and of the shutdown, what runs at the same time runs one after the
-- other, so the unguarded maps of the in-memory store are not raced.
pub mod Prelude
pub mod Word
pub mod Text
pub mod Float
pub mod Time
pub mod Exec
pub mod Subscriber
pub mod Store
pub mod Billing
pub mod Metrics
pub mod Webhook
pub mod Http
pub mod Config
pub mod Loadgen
pub mod Observability
pub mod Command
pub mod Tests
