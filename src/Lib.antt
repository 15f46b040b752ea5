-- ===== src/Lib.antt =====
-- The order system of this repository: customers place orders for products out of a limited stock; an
-- order is reserved, charged at a payment provider and fulfilled, or fails and gives its stock back; it
-- can be cancelled. The development models the domain, the persistence, the use cases and queries, what
-- runs behind the requests (the worker pool, the event bus and its handlers, the dispatcher of
-- notifications), and the HTTP interface, and proves what makes them correct.
--
-- Parts, and the files that model them (paths from the repository's root):
--   Prelude            names of the libraries, Boolean tests, lists, and int64 arithmetic (Prelude/Int).
--   Errs               pkg/errs/errs.go. A Go function's (T, error) is a `Result`; a panic is a failure.
--   Shared             internal/domain/shared and every events.go: money, events, the aggregate root.
--   Order              internal/domain/order/order.go. Order/Lifecycle is its state machine over any
--                      calls, Order/Bounds the number of its events, Order/History
--                      their replay, Order/Total the sum of `NewOrder`.
--   Inventory          internal/domain/inventory/inventory.go. Inventory/Conservation counts the units,
--                      Inventory/Spec is the abstract stock that it implements.
--   Payment            internal/domain/payment/payment.go, with Payment/Lifecycle.
--   Product, User, Notification, Audit
--                      the other packages of internal/domain, with Notification/Delivery.
--   Action             code that changes a state and returns a value or an error.
--   Gorm               internal/infrastructure/persistence/gormrepo. Gorm/Models has the rows (models.go),
--                      Gorm/Engine the database, Gorm/Orders, Gorm/Inventories, Gorm/Payments,
--                      Gorm/Products, Gorm/Users, Gorm/Notifications and Gorm/AuditLogs the
--                      repositories (order_repo.go and so on).
--   Ports              internal/application/ports: the payment provider (gateway.go), the hasher and
--                      the issuer of tokens (security.go) as interfaces.
--   Commands           internal/application/command: `Handle` of each file, each `handle` here.
--                      Commands/Memory is the state of a closure that a transaction runs.
--   Queries            internal/application/query, with Queries/DailyReport.
--   Workers            a channel and the goroutines that range over it, which the next three share.
--   Pool               pkg/concurrency/workerpool.go, with all its interleavings in Pool/Schedule.
--   EventBus           internal/infrastructure/messaging/eventbus.go.
--   Rabbit             internal/infrastructure/messaging/rabbitmq.go.
--   Dispatcher         internal/infrastructure/notification/dispatcher.go.
--   EventHandlers      internal/application/eventhandler.
--   Auth               internal/infrastructure/auth: Auth/Bcrypt the hasher and Auth/Jwt the tokens.
--   MockGateway        internal/infrastructure/payment/mock_gateway.go, an implementation of the port.
--   Httpx              the answers to requests: internal/interfaces/http/httpx and dto.
--   Http               internal/interfaces/http: the handlers of one order, Http/Orders the other two of
--                      handler/order_handler.go, Http/Products, Http/Users and Http/Admin the handlers
--                      of products, accounts and administrators, Http/Middleware
--                      (middleware/middleware.go), Http/Router the routes under /api/v1,
--                      Http/Engine the rest of router/router.go, with the rate limiter in front
--                      of them, and Http/Health handler/health.go.
--   Hub                internal/interfaces/http/ws/hub.go: the loop of the websocket hub.
--   Config             internal/platform/config/config.go.
--   Bootstrap          internal/bootstrap/bootstrap.go, with Rabbit's part of it in Rabbit.
--   Server             internal/platform/server/server.go and cmd/server/main.go.
--   Seed               cmd/seed/main.go.
--   The modules called Examples run the code on concrete data.
--
-- How code is modelled. A method of an aggregate is a function to the aggregate after the call, or the
-- error with which it leaves it alone; pending events are a field of it. int and int64 have 64 bits,
-- with their wrap-around; ids are natural numbers. The clock's reading is an argument. A status that a
-- row or a request holds is one of the constants, or `other` with any text.
--
-- GORM and PostgreSQL are a parameter (`Gorm`), with the documented behaviour of each call as laws
-- (`IsGorm`): a call may always fail, then leaving the tables alone; a transaction that fails is rolled
-- back, while the Go variables that its closure wrote are not. An update with a condition is one step of
-- the database, so concurrent requests are sequences of such steps. `Gorm/InMemory` meets the laws.
-- The payment provider is a parameter too, with no hypothesis: it may answer anything.
--
-- The hasher of passwords is a parameter with one hypothesis (`IsHasher`): a hash that it has made
-- accepts the password. The issuer of tokens has none. `Auth` implements both on bcrypt and the JWT
-- library, which are parameters with what their documentation says as laws (`IsBcrypt`, `IsJwt`).
--
-- Goroutines are explicit steps. A step is what a goroutine does between two points at which others may
-- run: the sections under a lock, a send, a receive, the end of a job. `Workers` has the steps of the
-- workers, its theorems hold for every list of them, and `Pool/Schedule` is the relation of all steps of
-- callers and workers. A waiting writer of Go's RWMutex holds new readers back; the model lets them in,
-- which only adds interleavings.
--
-- Loops are structural recursion: over the lines of an order, the handlers of an event, and the number
-- of the payment attempts, which is the configured maximum and at least one. The pages of the daily
-- report are read on a fuel of 10: each page but the last has 200 orders, of 2,000 at most. A number is
-- printed on a fuel that is the number.
--
-- What gin reads from a request is an argument of its handler: the parameters as `strconv` reads them,
-- and the bound body or the binder's error. A route of `Http/Router` carries them.
--
-- The AMQP library is a parameter with no hypothesis, which may answer anything to each call; float64
-- and the parser of durations are one too. The environment is a function, and the database that the
-- start waits for may answer anything to each ping.
--
-- Not modelled: the pause between two payment attempts and between two pings; what a published event does
-- (the result of `Publish` is ignored by the code), and whether the pool accepts a task, in
-- `Commands/PlaceOrder`, where it is an argument; the websocket's pumps but
-- for what they send to the hub and take from it: its frames, its deadlines, the close of its
-- connection; the waits of the stop for goroutines to return; what the consumer of RabbitMQ does with an event but log it, since it does nothing else;
-- logging, metrics, the static pages and the listening server, which are I/O.
--
-- A gateway, a bus and a database are taken not to panic inside a task of the pool. There nothing
-- recovers: a panic would end the process, while the model, where a panic is a failure like others,
-- answers it as an error, and tries a charge again.
pub mod Prelude
pub mod Errs
pub mod Seed
pub mod Server
pub mod Shared
pub mod Order
pub mod Inventory
pub mod Payment
pub mod Product
pub mod User
pub mod Notification
pub mod Audit
pub mod Action
pub mod Auth
pub mod Gorm
pub mod Ports
pub mod Bootstrap
pub mod Commands
pub mod MockGateway
pub mod Http
pub mod Workers
pub mod Pool
pub mod EventBus
pub mod Config
pub mod Dispatcher
pub mod EventHandlers
pub mod Queries
pub mod Rabbit
pub mod Httpx
pub mod Hub
