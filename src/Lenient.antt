-- ===== src/Lenient.antt =====
-- gemma_utils/src/json_lenient.rs: the recovery of JSON that a model got slightly wrong. Each pass of
-- the source is a loop that moves an index `i` over the bytes. Here a pass goes over the bytes one by
-- one, and the body of its loop says what it pushes, how many more bytes `i` moves over, and the
-- flags that it leaves.
pub mod Chars
pub mod Keys
pub mod Controls
pub mod Comma
pub mod Quotes
pub mod Trim
pub mod Serde
pub mod Object
