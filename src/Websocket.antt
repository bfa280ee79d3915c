-- ===== src/Websocket.antt =====
-- src/websocket: the limiter of connection attempts, the registry of open sockets, and the server.
pub mod RateLimiter
pub mod Registry
pub mod Server
