-- ===== src/Processes.antt =====
-- The processes of cmd/ and what they are made of: the clients of pkg/db, pkg/redis and pkg/grpc, the
-- HTTP server of internal/server, and the mains of the user, game and admin services.
pub mod Clients
pub mod Server
pub mod Routes
pub mod Boot
pub mod Tokens
pub mod Games
mod Tests
