-- ===== src/Server.antt =====
-- model_api_server: the connection handler and the slots behind it.
pub mod Framed
pub mod Slot
pub mod Handler
pub mod Streaming
pub mod Tools
