-- ===== src/Tests/Codecs.antt =====
-- Concrete codecs: one for byte strings, and one that numbers the messages of a table.
use chitin_model_api.Client.Sync.{Codec}
use chitin_model_api.Prelude.Text.{Bytes, codes}
use chitin_model_api.Prelude.{ℕ, zero, suc, ◌≡◌, refl, true, List, [], ◌∷◌, Option, none, some}
use chitin_model_api.Proto.{
  ClientMessage, ServerMessage, InferenceRequest, InferenceResponse, StreamChunk, fast, text,
  default_config, stateless, protocol_version,
}
use chitin_model_api.Prelude.Result.{ok}
use chitin_model_api.Server.Slot.{SlotEvent, SlotHandle, default_cancel_in_flight}
use chitin_model_api.Wire.{Bincode}
use native.Mathlib.Decide.{ℕ_discrete}

abbrev pub plain : Bincode Bytes
plain = record {
  serialize = λ m. some m;
  deserialize = λ p. some p;
  deserialize-serialize = λ m p h. cc h;
}

module _ {M : Type 0} (same : Discrete M) where
  abbrev below : Option ℕ → Option ℕ
  below none = none
  below (some i) = some (suc i)

  abbrev at_head : {m x : M} → Dec (m ≡ x) → Option ℕ → Option ℕ
  at_head (yes _) o = some zero
  at_head (no _) o = below o

  abbrev pub position : M → List M → Option ℕ
  position m [] = none
  position m (x ∷ xs) = let rest = position m xs in at_head (same m x) rest

  abbrev pub entry : List M → ℕ → Option M
  entry [] i = none
  entry (x ∷ xs) zero = some x
  entry (x ∷ xs) (suc i) = entry xs i

  entry-below :
      (m x : M) (xs : List M) (o : Option ℕ) (i : ℕ)
      → ((j : ℕ) → o ≡ some j → entry xs j ≡ some m)
      → below o ≡ some i
      → entry (x ∷ xs) i ≡ some m
  entry-below m x xs none i found h = cc h
  entry-below m x xs (some j) i found h = let e : suc j ≡ i = cc h in rw (← e) (found j refl)

  entry-at_head :
      (m x : M) (xs : List M) (d : Dec (m ≡ x)) (o : Option ℕ) (i : ℕ)
      → ((j : ℕ) → o ≡ some j → entry xs j ≡ some m)
      → at_head d o ≡ some i
      → entry (x ∷ xs) i ≡ some m
  entry-at_head m x xs (yes e) o i found h = let first : zero ≡ i = cc h in rw (← first) (cc e)
  entry-at_head m x xs (no _) o i found h = entry-below m x xs o i found h

  entry-position : (m : M) (xs : List M) (i : ℕ) → position m xs ≡ some i → entry xs i ≡ some m
  entry-position m [] i h = cc h
  entry-position m (x ∷ xs) i h =
      entry-at_head m x xs (same m x) (position m xs) i (entry-position m xs) h

  abbrev byte_of : Option ℕ → Option Bytes
  byte_of none = none
  byte_of (some i) = some (i ∷ [])

  abbrev read_entry : List M → Bytes → Option M
  read_entry xs (i ∷ []) = entry xs i
  read_entry xs _ = none

  pub read_entry-byte_of :
      (m : M) (xs : List M) (o : Option ℕ) (p : Bytes)
      → (position m xs ≡ o)
      → byte_of o ≡ some p
      → read_entry xs p ≡ some m
  read_entry-byte_of m xs none p e h = cc h
  read_entry-byte_of m xs (some i) p e h =
      let q : (i ∷ []) ≡ p = cc h in rw (← q) (entry-position m xs i e)

  -- The messages of the table have one byte, their position, and no other message has a payload.
  abbrev pub table : List M → Bincode M
  table xs = record {
    serialize = λ m. byte_of (position m xs);
    deserialize = read_entry xs;
    deserialize-serialize = λ m p h. read_entry-byte_of m xs (position m xs) p refl h;
  }

abbrev pub message_discrete : Discrete ClientMessage
message_discrete = hlevel (ℕ_discrete)

abbrev pub answer_discrete : Discrete ServerMessage
answer_discrete = hlevel (ℕ_discrete)

abbrev pub ask : InferenceRequest
ask = record {
  role = fast;
  input = text (codes "hi");
  max_tokens = 5;
  session = stateless;
  inference_config = default_config;
  tools = [];
  tool_results = [];
  cache_hash = 0;
  stream = true;
  progress = true;
}

abbrev pub piece : StreamChunk
piece = record { delta_text = codes "yes"; finish_reason = none; phase = none }

abbrev pub said : InferenceResponse
said = record {
  text = codes "yes";
  session_id = none;
  raw_text = none;
  injections = [];
  tool_calls = [];
  replacement = none;
}

abbrev pub asked : List ClientMessage
asked =
    ClientMessage.hello protocol_version
    ∷ ClientMessage.inference ask
    ∷ ClientMessage.cancel
    ∷ ClientMessage.shutdown
    ∷ []

abbrev pub answered : List ServerMessage
answered =
    ServerMessage.hello protocol_version (codes "m") none
    ∷ ServerMessage.chunk piece
    ∷ ServerMessage.inference_complete said
    ∷ ServerMessage.goodbye
    ∷ []

abbrev pub codec : Codec
codec = record {
  to_server = table message_discrete asked;
  to_client = table answer_discrete answered;
}

-- A slot that says `said` in one piece, as model `m`.
abbrev pub one_piece : SlotHandle (Unit {0})
one_piece = record {
  model_name = codes "m";
  gpu_memory_mb = none;
  run = λ req s. (ok said, s);
  run_stream = λ req s. record { events = SlotEvent.chunk piece ∷ []; result = ok said; state = s };
  cancel_in_flight = default_cancel_in_flight;
}
