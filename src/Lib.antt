-- ===== src/Lib.antt =====
-- A model of jiffy-messaging, a messaging service in TypeScript that runs as a server (REST and
-- WebSocket) or embedded in a host, and theorems that make it correct. Paths are from the
-- repository's root.
--
-- The parts and the files that model them:
-- - src/domain: Domain. A `Date` is a natural number of milliseconds, `Instant`.
-- - src/core/errors.ts: Errors. One constructor for each class, and `other` for whatever else is
--   thrown. Exec has the results and the actions: an async method is a function from a state to a
--   result and a state, and an await in a method is a bind. Each method runs alone: two requests
--   that interleave at their awaits are not modelled.
-- - src/ports: Ports, a record of methods for each port, over one state that all adapters share.
--   Ports.Listing is what the core relies on of `listByConversation`; the in-memory store fills it,
--   and Adapters.Postgres.Contract says how far the Postgres store goes.
-- - src/core/messaging-service.ts: Core. `create_conversation` is `createConversation`, and so on
--   for each method. What the service calls without waiting for it, with its errors caught, is
--   `detached`. Access, Sending, Deleting, Reading and BestEffort are about these methods over
--   arbitrary ports.
-- - src/adapters/in-memory: InMemory, both stores over one record with the clock and the number of
--   ids that were drawn. JsMap is JavaScript's `Map`, in insertion order. Sorting, Listing and Newest are
--   about `listByConversation`, Tombstones about `softDelete`.
-- - src/embedded.ts: Embedded. History runs lists of calls from empty stores; Clearing, Deleting and
--   Lists say what the calls show to the participants.
-- - src/http: Http.Responses (error-handler.ts and the JSON of a conversation), Http.Router
--   (conversations-router.ts, each route from the parsed request), Http.App (app.ts,
--   auth-middleware.ts, health-router.ts).
-- - src/websocket: Websocket.RateLimiter (connection-rate-limiter.ts), Websocket.Registry
--   (connection-registry.ts), Websocket.Server (websocket-server.ts). A socket is a number, its
--   identity. The gauge of src/observability/metrics.ts is a field of the server.
--   Websocket.Server.Timers adds the closure of each connection with its timer.
-- - src/adapters: Adapters.Buses and Adapters.Redis (the message buses), Adapters.Jwt
--   (token-verifier.ts), Adapters.Gate and Adapters.Notifier (the HTTP adapters), Adapters.Rows
--   (postgres/rows.ts). Adapters.Postgres is the pool of the package pg; Messages and Conversations
--   below it are the two stores, statement by statement, and the modules beside them say what the
--   stores make of what PostgreSQL does with the statements.
-- - src/server/create-server.ts: Server, the parts above on one pool in one process, with the frames
--   that it sent. Frames is what a message that is published puts on the sockets, Sending
--   what a send does; Posting, Deleting and Quiet follow a request through all of them.
-- - src/main.ts: Env, what `parseEnv` reads of the environment; Env.Running, the adapters that `run`
--   builds from it and the server that it starts with them.
-- - scripts/apply-schema.mjs: ApplySchema.
-- Base, Text and JsMap are the helpers: lists and tests on numbers, the methods of JavaScript's
-- strings with their order and the digits of a number, `Map`. Tests has an instance of each result.
--
-- Parameters: `randomUUID` is a function from how many ids were drawn before, which History takes
-- to be injective; jose's `jwtVerify`, `fetch`, the ISO form of dates, cors, express-rate-limit
-- and `Number` are functions. PostgreSQL is a parameter too: a pool whose state is of any type, with
-- what its documentation says of each statement as a record (MessagesTable, ParticipantsTable,
-- Connection and Transactions), which small databases in Tests fill. The columns of ids have the
-- type UUID: a statement that succeeds matches on the canonical spelling of the id that it is given,
-- a function in these records; the ids that the database gives out are in that spelling. Only the number of a parameter
-- in a statement is written with fuel, the number itself; all other recursion is on lists and texts.
--
-- Not modelled: requests whose body express.json refuses before any route is reached; logging and metrics but for the gauge, the clock of the timers (time is an argument),
-- the shutdown on a signal, the options of express-rate-limit, the examples, and connections to the
-- database that break during a commit. The delivery that a message on the bus starts is taken to run
-- at once, before the request that published it goes on.
pub mod Base
pub mod Errors
pub mod Exec
pub mod Text
pub mod Domain
pub mod Ports
pub mod JsMap
pub mod InMemory
pub mod Embedded
pub mod Websocket
pub mod Adapters
pub mod Http
pub mod Core
pub mod Env
pub mod Server
pub mod ApplySchema
pub mod Tests
