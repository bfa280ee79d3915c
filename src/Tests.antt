-- ===== src/Tests.antt =====
-- Tests of the definitions, and an instance of each theorem that has conditions.
mod Data
mod Core
mod Embedded
mod Http
mod InMemory
mod Postgres
mod Transactions
mod Websocket
mod Adapters
mod Env
mod Server
mod ApplySchema
mod Running
