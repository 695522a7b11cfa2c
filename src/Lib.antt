-- ===== src/Lib.antt =====
-- chitin-model-api: a model server and its clients, over a Unix socket.
--
-- A client sends `ClientMessage`s and the server answers with `ServerMessage`s, each as a frame of a
-- u32 length and a bincode payload. The server's connection handler gives every request to a slot, the
-- backend that runs the model; a streaming request's events go through a bounded channel while the
-- slot works. Slots are a stub, a child process, llama.cpp and LiteRT-LM, the last with a cache of
-- conversations by the hash of their turns.
--
-- The files and the code they model:
--   Prelude        shared names: tests, lists, byte strings and results
--   Proto          model_api_proto/src/lib.rs, the message types
--   Wire           model_api_client/src/framed.rs, encode, try_decode, write_frame_async and
--                  read_frame_async; Wire/Decode, Stream, Sequence and Frames have their proofs
--   Server/Framed  model_api_server/src/framed.rs, the second copy of the codec
--   Server/Slot    model_api_server/src/slot.rs, with StubSlot in Server/Slot/Stub;
--                  Server/Slot/Subprocess is model_api_server/src/subprocess_slot.rs
--   Server/Streaming, Server/Handler
--                  model_api_server/src/lib.rs: the streaming branch, whose two tasks take their
--                  steps under a schedule, and handle_client
--   Client         model_api_client/src/sync.rs: connect, inference, inference_stream, cancel, shutdown;
--                  Client/Mutex is their calls from several threads
--   EndToEnd       the client against the server; EndToEnd/Answers is `inference`
--   Cache          model_api_server/src/litertlm_slot.rs: Cache/Key is the key, Cache/Store the map,
--                  Cache/Slot the choice of a conversation, the replay and the storing, and Cache/Cancel
--                  the token by which a signal cancels
--   Llama          Llama/Session is chitin_llama/src/session.rs: prefill, step, push_token and
--                  generate_raw; Llama/Slot is run_inner of model_api_server/src/llama_slot.rs,
--                  and Llama/Slot/Path its resolve_gguf_path; Llama/PrefixCache is
--                  chitin_llama/src/prefix_cache.rs with the session's save_seq and load_seq
--   Server/Tools   model_api_server/src/tool_text.rs, over any tool format, and
--                  Server/Tools/Gemma4 that of Gemma 4 in its shape
--   Templates      gemma_utils/src/chat_format.rs, model_api_server/src/turn_render.rs and
--                  build_gemma4_chat of chitin_llama/src/prompt.rs; Templates/Prompt is the rest of that
--                  file, and Templates/Jinja is chitin_llama/src/jinja_chat.rs
--   Cli            model_api_server/src/main.rs: parse_args, default_backend, build_subprocess_slot;
--                  Cli/Build is main up to the slot, with the other branches of build_slot
--   Lenient        gemma_utils/src/json_lenient.rs: Lenient/Keys is quote_bare_keys, Lenient/Controls
--                  escape_string_controls, Lenient/Quotes un_escape_structural_quotes, Lenient/Comma
--                  has_top_level_comma, and Lenient/Object lenient_parse_object
--   ToolFormats    gemma_utils/src/tool_format.rs: the three formats
--   Node           model_api_node/src/lib.rs: the shapes of JavaScript, their translation, and
--                  inference and inference_stream over the client
--   Tests          concrete codecs, slots and inputs
--
-- Numbers are natural numbers; the u32 length of a frame and the i32 depth of brackets are written
-- with their wrap-around, an f32 is its bits, a string its UTF-8 bytes. Parameters of the model
-- are bincode, the slots of a connection, the schedule of the two tasks, the LiteRT-LM engine and
-- hash, llama.cpp with its tokenizer and its state files, serde_json, minijinja, the matches of
-- the regular expressions, Unicode's letters and digits, the numbers of JavaScript, the tool
-- format that the tool text gets as a trait object, the child process, the file system and the
-- order of paths, and what the command line asks of the standard library. The clock is an
-- argument. A scanner that moves an index over a text goes over its bytes one by one instead, with
-- the number of bytes that the index is ahead.
--
-- Fuel: the handler and the client's loops have one more round than there are bytes to read,
-- since a frame takes at least four; the prefill has one round per token, the command line one
-- per word, and the search for tool calls one more than there are bytes. An outcome `none` is
-- fuel that ran out.
--
-- Not modelled: a peer that stays open and sends nothing more, on which the source waits without a
-- limit; sockets and signals, log lines, the loading of models, the regular expressions
-- themselves, the text of Jinja templates, and what two connections do to the cache of one slot at
-- a time. After a failed read the model does not say what the stream has consumed, and after a
-- failed write of an event not what the slot's dropped task has done.
pub mod Prelude
pub mod Proto
pub mod Wire
pub mod Server
pub mod Client
pub mod EndToEnd
pub mod Cache
pub mod Llama
pub mod Templates
pub mod Cli
pub mod Lenient
pub mod ToolFormats
pub mod Node
pub mod Tests
