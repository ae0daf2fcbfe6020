-- ===== src/Lib.antt =====
-- The services of a queue management system, verified.
--
-- The queue service keeps the tickets of branches in a PostgreSQL database. Clients create tickets or
-- check appointments in, counters call the next ticket, serve, complete, hold, transfer or drop it,
-- and a periodic job turns called tickets that nobody answers into no-shows. Every change is one
-- transaction, which also writes an outbox row and a link of the hash chain of the ticket's events.
--
-- Paths are from the root of the repository; `store` below is services/queue-service/internal/store.
--   Queue/Models       services/queue-service/internal/models, inputs and errors of store
--   Queue/Transitions  store/transitions.go
--   Queue/Db           services/queue-service/migrations: the tables
--   Queue/Tx           store/postgres/store.go: the frame BeginTx, deferred Rollback, Commit
--   Queue/Rows         its lookups: services, counters, policies, tickets, stored requests
--   Queue/Decimal, Queue/Create      CreateTicket, CheckInAppointment, nextTicketNumber
--   Queue/Doubles      the float64 arithmetic of appointmentTargetCount
--   Queue/Routing, Queue/CallNext    lockRoutingState to updateNextWalkinTicketWithFilter, CallNext
--   Queue/Requests     insertActionRequest, and the answer to a repeated request
--   Queue/Actions, Queue/Operations  updateTicketStatus, emitTicketEvent, applyNoShow, TransferTicket
--   Queue/AutoNoShow   AutoNoShow
--   Queue/Payload, Queue/Events      insertOutboxEvent..., insertTicketEvent, ComputeTicketEventHash
--   Queue/Rehydrate    store/ticket_events.go: RehydrateTicket
--   Queue/Reads        the queries of store/postgres/store.go, UpdateCounterStatus
--   Queue/Service      store/store.go: TicketStore as a type of requests, and runs of them
--   Queue/Accounts     GetSession and GetAccess of store/postgres/store.go
-- and of services/queue-service/internal/httpapi:
--   Http/Messages      the requests, responses, mapError and writeError of handler.go
--   Http/Web           a handler as a chain of steps that go on or have written the response
--   Http/Auth          auth.go: AuthMiddleware and the checks of tenant, branch and service
--   Http/Text, Http/Decode   what the handlers use of package strings, decodeRequest
--   Http/Writes, Http/Reads, Http/Actions   the handlers of handler.go
--   Http/Routes        Routes: the multiplexer under the middleware
--   Http/RateLimit     ratelimit.go
-- and of services/auth-service/internal, which signs users in on the database of the queue service:
--   Auth/Run           a method of the store, or a handler, as a chain of steps
--   Auth/Rows          the errors, inputs and results of store and models, and the SQL statements
--   Auth/Mapped, Auth/Store   store/postgres/store.go
--   Auth/Tokens        httpapi/handler.go: validateJWT, extractSAMLNameID
--   Auth/Handlers      httpapi/handler.go: the handlers and Routes
-- and of services/admin-service/internal, where changes of the configuration wait for an approval:
--   Admin/Rows         models/models.go, store/errors.go, and the statements that insert
--   Admin/Store        store/postgres/store.go: the changes that can wait, approvals, the audit log
--   Admin/Handlers     httpapi/auth.go, and of httpapi/handler.go permissions, branches, approvals
-- and of services/realtime-service:
--   Realtime/Hub       internal/hub/hub.go
--   Realtime/Sessions  cmd/realtime-service/main.go: the loop that reads from one browser
--   Realtime/Polling   internal/store/postgres/store.go, and the polling loop of main.go
--   Realtime/Server    the handler of a connection, and the service as a sequence of steps
-- and of services/notification-service/internal:
--   Notify/Payloads    worker/worker.go: templates, recipients, the fields of a payload
--   Notify/Channels    worker/providers.go, and the preferences of worker.go
--   Notify/Store       store: the tables of notifications and the queries on them
--   Notify/Delivery    worker/worker.go: New, deliverNotification, retryDelay
--   Notify/Worker      worker/worker.go: Run and processEvent
-- A Go function and its definition have the same name, in snake case. The proofs stand in
-- Queue/Lifecycle (statuses), Queue/Chain (the log of events), Queue/Endings (how transactions
-- end), Queue/Repeats, Queue/Choice, Queue/Listing, Queue/Numbers, Queue/Windows, Queue/Rounding,
-- Queue/Overdue and Queue/Rebuilt for the store, in Http/Effects (what an HTTP request does to the
-- database) and Http/Refused for the handlers, in Queue/Entitled (who has a live session, and which
-- lists) and Realtime/Entry (who may listen to what) for what the tables say of users, in
-- Realtime/Kept, Realtime/Scope, Realtime/Broadcast, Realtime/Pages and Realtime/Retention for the
-- listeners, in Http/RateLimit/Bound for the limiter, in Auth/SignIn, Auth/Sessions, Auth/Bearer,
-- Auth/Accounts, Auth/Refusals, Auth/Dots, Auth/Signatures and Auth/TokenSessions for the sign-in,
-- in Admin/Approvals for the approvals, in Notify/Outcomes, Notify/Banned, Notify/Allowed and
-- Notify/Delays for the messages, the examples in the modules called Tests, the helpers in Base.
--
-- A table is the list of its rows, in the order of their insertion; a statement is a function on
-- the database. The state of a transaction is the database and the number of the operations so far,
-- by which the parameter `Platform` gives the clock, new identifiers, failures and the rows that
-- other transactions have locked. So any statement may fail. encoding/json, SHA-256, the format of
-- times, what columns of the types JSONB and TIMESTAMPTZ keep of the payloads and times of events,
-- and the functions of package strings are parameters too. A body ends with a value, with an error
-- while the variable `err` is set (rolled back), or with an error while it is nil (left open).
--
-- The realtime service shares the database with the queue service. A step of it is one action of one
-- goroutine; the hub's lock makes these steps whole. A map of clients is a list, and a channel is the
-- list of the messages in it.
--
-- A sign-in reads and writes the tables of the queue service, so that the session that it creates is
-- the one that the queue service's middleware looks up. bcrypt, HMAC-SHA256, base64, the decoders of
-- JSON and XML and PostgreSQL's lower are parameters. The tokens of the rate limiter, floats in the
-- source, are exact numbers.
--
-- The notification worker is one goroutine. Its state has the tables, and a list of what it has handed
-- to the providers; whether a webhook or a mail server accepts is a parameter, read by the number of
-- the operation. A duration is an int64, and wraps around as one.
--
-- Times are nanoseconds, and the zero time is 0. A status is the enumeration of its column; the
-- text of it appears where the source has texts. Loops run over lists of rows. The digits of a
-- number are computed on a fuel of one more than the number, which has no more digits than that.
-- The doubles of appointmentTargetCount are rounded to 53 binary digits at each operation, as the
-- source's are; their binary digits are counted on a fuel of one more than the number. The minutes
-- of the boost do not wrap below 153 million.
--
-- Not modelled: the foreign keys of the queue service's statements, types of columns, the precision
-- of the times stored in other tables than those of events, isolation (transactions run one after
-- another, and SKIP LOCKED reads the parameter for the locks), the rounding of the rate limiter's
-- floats, the rate limiters of the other services, which are variants of the one modelled, the
-- logging of HTTP requests, configuration and telemetry, of the admin service the reads, roles,
-- users, access and the handlers of the tables but branches, the analytics service, and the web
-- applications. The record `Parsers` gives what the handlers take from encoding/json, package time,
-- strconv and the UUID parser; a path is as ServeMux has cleaned it.
pub mod Base
pub mod Queue
pub mod Auth
pub mod Admin
pub mod Http
pub mod Realtime
pub mod Notify
