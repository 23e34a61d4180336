-- ===== src/Lib.antt =====
-- Verification of the Go services of the online-game platform.
--
-- The platform runs turn-based games. A player's WebSocket connection is held by the gateway
-- (pkg/websocket/gateway.go). Each room is an actor (pkg/actor): a mailbox with one goroutine,
-- whose handler keeps the players of the room, calls the hooks of the game's script and tells the
-- players through the gateway. The script runs in an engine (pkg/engine) on a JavaScript machine.
-- The game service (internal/game) makes the rooms and passes on what players do; the admin
-- service (internal/admin) keeps the games and takes their packages. The registry of actors routes
-- messages by id. The user service (internal/user) registers players and logs them in; tokens are
-- signed and revoked in pkg/auth. The API gateway (cmd/api-gateway) sends requests to the
-- services. Errors carry codes (pkg/apperror) that pkg/api turns into HTTP answers.
--
-- Files and the code they model:
--   Prelude: shared names; maps as association lists (Dict), integers (Int), payloads (Value).
--   Actor/Message: pkg/actor/message.go.
--   Actor/Mailbox: pkg/actor/actor.go. `step` is a move of the goroutine (run, drain) or a call
--     (Start, Send, Stop); a list of events is a schedule. Laws: invariant and Send. Order: the
--     mailbox against a sequential program. Shutdown: stopping. State: what the handler keeps.
--   Actor/System: pkg/actor/system.go, over any implementation of the interface Actor.
--   Actor/Game: pkg/actor/game_actor.go. Membership has handlePlayerJoin, handlePlayerLeave and
--     handlePlayerReady, Play the other handlers, handleMessage and NewGameActor. The calls of the
--     hub and of the room manager are kept in `effects`. Invariant, Histories, Lifecycle, Seats,
--     Readiness and Actions prove what they do. Quiet: a room whose engine defines no hooks.
--   Websocket/Gateway: pkg/websocket/gateway.go. Connections are shared objects on a heap.
--     Delivery: who gets a message. Registry, Calls, Histories: the invariant. Reconnect: two faults.
--   Websocket/Pumps: pkg/websocket/conn.go, ReadPump and WritePump as functions of what the socket does.
--   Api: pkg/api/response.go; Error: pkg/apperror/app_error.go; Pages: GetPagination and parseInt.
--   Auth: pkg/auth/jwt.go. Libraries: what golang-jwt and Redis are relied on for. Tokens: proofs.
--   Config: pkg/config/config.go. Ports: the ports of the services.
--   User: internal/user/model.go and the libraries of the service. Accounts: service.go. Http:
--     handler.go. Grpc: grpc.go. Registration, Sessions, Caching and Requests prove what they do.
--   Engine: pkg/engine, the types of engine.go and sandbox.go and the record of GojaEngine. Host: the
--     functions of injectHostAPI, and a run of script code that calls them. Random: randomInt,
--     shuffle, randomChoice. Goja: Init, LoadScript, TriggerHook, Destroy and the firing of timers.
--     Runs, Shuffle, Timers and Hooks prove what they do.
--   GameService: internal/game/model.go and the libraries. Catalog: games through the cache. Rooms:
--     CreateRoom and createGameActor. Visits: JoinRoom, LeaveRoom, StartGame, HandlePlayerAction,
--     CloseRoom. Sockets: HandleWebSocket, routeWSMessage and the adapters of the hub and of the
--     database. Http and Grpc: the handlers of handler.go and grpc.go. Access: the middleware of
--     cmd/game-service/main.go and HandleWebSocket. Joining, Creation, Silent and Stale prove what
--     they do.
--   GameService/World: the game service over time, the calls of internal/game/service.go together
--     with the ends of connections (pkg/websocket/conn.go) and the moves of the rooms' goroutines
--     (pkg/actor), whose effects reach the gateway and the database, until a panic that nobody recovers
--     ends the process. Rooms, Moves, Calls and
--     Histories: the invariant. Owners and Arrivals: from a call to a seat. Lasting: rooms stay.
--   Admin: internal/admin/handler.go and its libraries. Catalog: games and publishing. Packages:
--     UploadPackage and extractAndValidate. Http: the handlers. Access: the middleware of
--     cmd/admin-service/main.go, which asks the user service. Uploads proves what an upload does.
--   ApiGateway: cmd/api-gateway/main.go, the choice of a backend and the fallback page. Sockets:
--     wsProxy and proxyWSDir. Routes and Copies prove what they do.
--   Processes: how the services start. Clients: pkg/db/db.go, pkg/redis/redis.go, pkg/grpc. Server:
--     internal/server/server.go. Routes: the tables of RegisterRoutes. Boot: the mains of cmd/user-service, cmd/game-service and
--     cmd/admin-service. Tokens and Games prove what the running
--     services share and keep.
--
-- Choices. Identifiers and keys are native texts, counters and times natural numbers, integers that
-- may be negative are ℤ or bit patterns. `json.Marshal`, the JavaScript machine, the clock, the order of
-- map iteration and the scheduler are parameters or lists of events, and so are the database, Redis,
-- bcrypt, the JWT library, the environment and the binding of HTTP requests. A call of the registry
-- or of the gateway is one step. There is no fuel: every loop here ends on its list, and a
-- run of a script is a tree of the calls that it makes of the host, so it ends.
--
-- Not modelled: how gin matches routes, the answers to health checks, what is logged, the closing of
-- clients when a process ends, the generated protocol code and the SDKs. A move of a room's goroutine
-- and the calls of the adapters that it makes are one step.
mod Prelude
pub mod Actor
pub mod Api
pub mod ApiGateway
pub mod Auth
pub mod Config
pub mod Engine
pub mod GameService
pub mod Processes
pub mod Admin
pub mod User
pub mod Websocket
