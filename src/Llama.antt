-- ===== src/Llama.antt =====
-- chitin_llama and the slot that runs it: the llama.cpp session.
pub mod Session
pub mod Slot
pub mod PrefixCache
