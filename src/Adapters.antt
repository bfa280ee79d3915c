-- ===== src/Adapters.antt =====
-- src/adapters, but the in-memory stores (InMemory.antt).
pub mod Buses
pub mod Redis
pub mod Jwt
pub mod Gate
pub mod Notifier
pub mod Rows
pub mod Postgres
