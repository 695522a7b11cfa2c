-- ===== src/Client.antt =====
-- model_api_client: the synchronous client.
pub mod Sync
pub mod Requests
pub mod Mutex
