-- ===== src/Tests.antt =====
-- Concrete inputs for the theorems of the other modules.
mod Codecs
mod Frames
mod Cached
mod Sessions
mod Responses
mod Prompts
mod Commands
mod Tokens
mod Calls
mod Json
mod Repairs
mod Formats
mod Bindings
mod Threads
mod Builds
mod Signals
mod Declarations
