-- ===== src/Client/Sync.antt =====
-- model_api_client/src/sync.rs: the synchronous client over one connection. Each method takes the
-- mutex for its whole body, so a call is a function of the connection's state. An I/O error's text
-- is a constructor that says what failed.
use Prim.Native.String.{String}
use chitin_model_api.Prelude.{ℕ, Bool, false, [], ◌∷◌, Option, none, some}
use chitin_model_api.Prelude.Result.{Result, ok, err, ◌>>=◌, map_err}
use chitin_model_api.Prelude.Tests.{◌==◌, if◌then◌else◌}
use chitin_model_api.Prelude.Text.{Bytes}
use chitin_model_api.Proto.{
  ClientMessage, ServerMessage, StreamChunk, ProgressEvent, protocol_version,
}
use chitin_model_api.Wire.{
  Bincode, IoError, read_error, unexpected_eof, other_error, eof, failing, Reader, Writer,
  write_all, encode, read_after_first,
}

-- `StreamEvent`.
pub data StreamEvent : Type 0 where
  chunk : StreamChunk → StreamEvent
  progress : ProgressEvent → StreamEvent

-- `StreamEvent::kind`.
unfoldable pub kind : StreamEvent → String
kind (StreamEvent.chunk _) = "chunk"
kind (StreamEvent.progress _) = "progress"

pub data IoCause : Type 0 where
  wire : IoError → IoCause
  expected_hello : ServerMessage → IoCause
  mutex_poisoned : IoCause

pub data ClientError : Type 0 where
  io : IoCause → ClientError
  protocol_mismatch : ℕ → ℕ → ClientError
  server : Bytes → ClientError
  disconnected : ClientError

pub record ServerInfo : Type 0 where
  pub protocol_version : ℕ
  pub model_name : Bytes
  pub gpu_memory_mb : Option ℕ

-- The stream behind the mutex.
pub record Connection : Type 0 where
  pub reader : Reader
  pub writer : Writer

pub record SyncClient : Type 0 where
  pub stream : Connection
  pub server_info : ServerInfo
  pub poisoned : Bool

pub record Codec : Type 0 where
  pub to_server : Bincode ClientMessage
  pub to_client : Bincode ServerMessage

fail : {A : Type 0} → IoError → Result ClientError A
fail e = err (io (wire e))

module _ (c : Codec) where
  unfoldable pub write_frame : Connection → ClientMessage → Result ClientError Connection
  unfolding fail
  write_frame s msg =
      map_err (λ e. io (wire e))
        (do
          frame ← encode c.to_server msg
          w ← write_all frame s.writer
          ok (record s { writer = w }))

  -- An `UnexpectedEof` on the first byte counts as a clean end here.
  unfoldable pub read_frame : Reader → Result ClientError (Option ServerMessage × Reader)
  unfolding fail
  read_frame r = elim r.bytes [
    | [] ↦ elim r.ending [
      | eof ↦ ok (none, r)
      | failing unexpected_eof ↦ ok (none, r)
      | failing other_error ↦ fail (read_error other_error)
    ]
    | h0 ∷ rest ↦
        map_err (λ e. io (wire e)) (read_after_first c.to_client h0 (record r { bytes = rest }))
  ]

  -- `SyncClient::connect` on a fresh stream.
  greet : Connection → Option ServerMessage → Result ClientError SyncClient
  greet s (some (ServerMessage.hello v name gpu)) =
      if v == protocol_version
      then ok (record {
        stream = s;
        server_info = record { protocol_version = v; model_name = name; gpu_memory_mb = gpu };
        poisoned = false;
      })
      else err (protocol_mismatch v protocol_version)
  greet s (some (ServerMessage.inference_error message)) = err (server message)
  greet s (some other) = err (io (expected_hello other))
  greet s none = err disconnected

  unfoldable pub connect : Connection → Result ClientError SyncClient
  unfolding greet
  connect s = do
    s' ← write_frame s (ClientMessage.hello protocol_version)
    p ← read_frame s'.reader
    greet (record s' { reader = p.1 }) p.0
