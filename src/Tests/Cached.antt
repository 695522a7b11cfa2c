-- ===== src/Tests/Cached.antt =====
-- The prefix cache at concrete inputs, with an engine that echoes and a hash that sums up.
use chitin_model_api.Cache.Key.Injective.{IsConventional, canonical_prefix_bytes-injective}
use chitin_model_api.Cache.Key.{
  canonical_prefix_bytes, system_bytes, hash_prefix, sendable_contents, default_top_p,
  default_temperature,
}
use chitin_model_api.Cache.Slot.Choice.{Serves, choose-Serves, choose_longest}
use chitin_model_api.Cache.Slot.Runs.{IsValid, run_stream-IsValid, dispatch-reuses}
use chitin_model_api.Cache.Slot.{
  Engine, LiteRtLmSlot, Shared, choose, is_hit, dispatch, run_stream, find_session, replay,
}
use chitin_model_api.Cache.Store.{CachedConv, Entries, get}
use chitin_model_api.Prelude.Lists.{length}
use chitin_model_api.Prelude.Result.{ok}
use chitin_model_api.Prelude.Text.{Bytes, codes, u32_to_le_bytes}
use chitin_model_api.Prelude.{ℕ, ◌*◌, ◌^◌, ◌≡◌, refl, List, [], ◌∷◌, ◌++◌, none, some, arith, false}
use chitin_model_api.Proto.{
  Turn, InferenceRequest, user_turn, assistant_turn, turns, fast, persistent, default_config, F32,
}

-- A conversation is the messages that it got; the answer to a message is the message.
abbrev echo : Engine (List Bytes)
echo = record {
  create_conversation = λ s. ok [];
  create_conversation_with_system = λ s sys. ok (sys ∷ []);
  with_visual_token_budget = λ c n. c;
  clone = λ c. ok c;
  send_message_stream = λ c m. (m ∷ [], ok (c ++ (m ∷ [])));
}

-- Counts the bytes, in the upper half of the 128 bits.
abbrev count : Bytes → ℕ
count b = length b * 2 ^ 64

abbrev slot : LiteRtLmSlot (List Bytes)
slot = record {
  engine = echo;
  xxh3_128 = count;
  default_sampler = record { top_p = 1; temperature = 2 };
  visual_token_budget = none;
  cache_size = 2;
  ttl = 10;
  default_system_prompt = none;
}

abbrev hi : Turn
hi = user_turn (codes "hi")

abbrev first_turns : List Turn
first_turns = hi ∷ []

abbrev empty : Shared (List Bytes)
empty = record { prefix_cache = []; sessions = [] }

abbrev chat : List Turn → InferenceRequest
chat ts = record {
  role = fast;
  input = turns ts;
  max_tokens = 5;
  session = persistent (codes "s");
  inference_config = default_config;
  tools = [];
  tool_results = [];
  cache_hash = 0;
  stream = false;
  progress = false;
}

abbrev full : List Turn
full = hi ∷ assistant_turn (codes "hi") ∷ []

run_stream-IsValid_example : IsValid slot ((run_stream slot 3 4 (chat first_turns) empty).state)
run_stream-IsValid_example =
    run_stream-IsValid slot 3 4 (chat first_turns) empty (omega arith)
      (record { in_size = omega arith; keyed = tt })

-- A conversation's key is how many turns it has.
abbrev turn_count : List Turn → ℕ
turn_count ts = length ts

abbrev entries : Entries (List Bytes)
entries = (1, record { conv = []; turn_count = 1; last_used = 4 }) ∷ []

choose-Serves_example : Serves turn_count 10 5 entries full (1, 1)
unfolding choose
choose-Serves_example = choose-Serves turn_count 10 5 entries full none (1, 1) refl

choose_longest_example : is_hit turn_count 10 5 entries full 2 ≡ false
unfolding choose
choose_longest_example =
    choose_longest turn_count 10 5 entries full none (1, 1) 2 refl refl (omega arith) (omega arith)

-- What the first turn leaves behind.
abbrev warm : Shared (List Bytes)
warm = (dispatch slot (chat first_turns) first_turns 3 4 empty).2

abbrev answered : CachedConv (List Bytes)
answered = record { conv = codes "hi" ∷ []; turn_count = 2; last_used = 4 }

dispatch-reuses_example :
    (s : Shared (List Bytes)) × (dispatch slot
        (chat (full ++ (hi ∷ [])))
        (full ++ (hi ∷ []))
        6
        7
        warm
      ≡ (codes "hi" ∷ [], ok (codes "hi"), s))
unfolding dispatch find_session sendable_contents replay get hash_prefix canonical_prefix_bytes
    u32_to_le_bytes
dispatch-reuses_example =
    dispatch-reuses slot (chat first_turns) (chat (full ++ (hi ∷ []))) (codes "s") first_turns
      (hi ∷ []) 3 4 6 7 empty warm (codes "hi" ∷ []) (codes "hi") answered (codes "hi" ∷ [])
      (codes "hi" ∷ codes "hi" ∷ []) (codes "hi" ∷ codes "hi" ∷ []) (codes "hi") []
      (codes "hi" ∷ []) (codes "hi") refl refl refl refl (omega arith) refl refl refl refl refl

abbrev default_p : F32
default_p = default_top_p

abbrev default_t : F32
default_t = default_temperature

hi-IsConventional : IsConventional hi
hi-IsConventional = record { content_fits = omega arith; id_fits = tt }

canonical_prefix_bytes-injective_example :
    (system_bytes none ≡ system_bytes (some []))
    × (default_p ≡ default_p)
    × (default_t ≡ default_t)
    × (first_turns ≡ first_turns)
unfolding canonical_prefix_bytes
canonical_prefix_bytes-injective_example =
    canonical_prefix_bytes-injective none (some []) default_p default_p default_t default_t
      first_turns first_turns tt tt (omega arith) (omega arith) (omega arith) (omega arith)
      (hi-IsConventional, tt) (hi-IsConventional, tt) refl
