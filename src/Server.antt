-- ===== src/Server.antt =====
-- internal/server: the chain of handlers that every request passes.
pub mod Request
pub mod Pages
pub mod App
pub mod Middleware
pub mod Handlers
pub mod Routes
pub mod RateLimit
mod Tests
