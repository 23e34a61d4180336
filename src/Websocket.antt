-- ===== src/Websocket.antt =====
-- pkg/websocket: the gateway that holds the players' connections, and the pumps of a connection.
pub mod Gateway
pub mod Pumps
mod Tests
