-- ===== src/Gateway.antt =====
-- agent-gateway/: the surface of the agents on game servers.
pub mod Protocol
pub mod Replay
pub mod Credentials
pub mod Authenticate
pub mod Commands
pub mod Respond
pub mod Handlers
