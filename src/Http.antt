-- ===== src/Http.antt =====
-- src/http: the REST surface over the core service.
pub mod Responses
pub mod Router
pub mod App
pub mod Validation
pub mod Privacy
pub mod Clearing
