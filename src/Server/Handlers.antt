-- ===== src/Server/Handlers.antt =====
-- internal/server/handlers_*.go: the handlers, one module for each file.
pub mod Auth
pub mod Users
pub mod Connections
pub mod Query
pub mod Browse
pub mod Rows
pub mod Create
