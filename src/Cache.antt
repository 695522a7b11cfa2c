-- ===== src/Cache.antt =====
-- model_api_server/src/litertlm_slot.rs: the LiteRT-LM slot and its prefix cache.
pub mod Key
pub mod Store
pub mod Slot
pub mod Cancel
