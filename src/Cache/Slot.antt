-- ===== src/Cache/Slot.antt =====
-- `LiteRtLmSlot` of model_api_server/src/litertlm_slot.rs. The LiteRT-LM engine and the hash function
-- are parameters; the clock is read at the lookup and at the store, and what it says there is an
-- argument. A request runs alone.
pub mod Choice
pub mod Runs
use chitin_model_api.Cache.Key.{
  hash_prefix, input_to_turns, sendable_contents, default_top_p, default_temperature,
}
use chitin_model_api.Cache.Store.{CachedConv, Entries, get, touch, store, is_fresh}
use chitin_model_api.Prelude.Lists.{length, take, drop}
use chitin_model_api.Prelude.Result.{Result, ok, err, ◌>>=◌, map_err}
use chitin_model_api.Prelude.Tests.{leb, ◌==◌, if◌then◌else◌}
use chitin_model_api.Prelude.Text.{Bytes, codes, bytes_eq}
use chitin_model_api.Prelude.{
  ℕ, zero, suc, Bool, false, true, ◌&&◌, List, [], ◌∷◌, ◌++◌, map, Option, none, some, max,
}
use chitin_model_api.Proto.{
  Turn, assistant_turn, InferenceRequest, InferenceResponse, StreamChunk, SessionMode, stateless,
  persistent, F32,
}
use chitin_model_api.Server.Slot.{SlotEvent, chunk, Run}

pub record Sampler : Type 0 where
  pub top_p : F32
  pub temperature : F32

-- What the slot calls of the engine. A send answers the chunks that the callback gets, and the
-- advanced conversation or an error.
pub record Engine (C : Type 0) : Type 0 where
  pub create_conversation : Sampler → Result Bytes C
  pub create_conversation_with_system : Sampler → Bytes → Result Bytes C
  pub with_visual_token_budget : C → ℕ → C
  pub clone : C → Result Bytes C
  pub send_message_stream : C → Bytes → List Bytes × Result Bytes C

pub record LiteRtLmSlot (C : Type 0) : Type 0 where
  pub engine : Engine C
  pub xxh3_128 : Bytes → ℕ
  pub default_sampler : Sampler
  pub visual_token_budget : Option ℕ
  pub cache_size : ℕ
  pub ttl : ℕ
  pub default_system_prompt : Option Bytes

-- What the locks guard.
pub record Shared (C : Type 0) : Type 0 where
  pub prefix_cache : Entries C
  pub sessions : List (Bytes × ℕ)

unfoldable pub new_slot :
    {C : Type 0}
    → Engine C
    → (Bytes → ℕ)
    → F32
    → Option ℕ
    → ℕ
    → ℕ
    → Option Bytes
    → LiteRtLmSlot C × Shared C
new_slot engine hash temperature budget cache_size ttl system_prompt = (
  record {
    engine = engine;
    xxh3_128 = hash;
    default_sampler = record { top_p = default_top_p; temperature = temperature };
    visual_token_budget = budget;
    cache_size = max cache_size 1;
    ttl = ttl;
    default_system_prompt = system_prompt;
  },
  record { prefix_cache = []; sessions = [] },
)

or_default : {A : Type 0} → Option A → A → A
or_default none d = d
or_default (some a) d = a

unfoldable pub sampler_for_request : Sampler → InferenceRequest → Sampler
unfolding or_default
sampler_for_request default_sampler req = record {
  top_p = or_default req.inference_config.top_p default_sampler.top_p;
  temperature = or_default req.inference_config.temperature default_sampler.temperature;
}

unfoldable pub effective_sampler_for_hash : InferenceRequest → Sampler
unfolding or_default
effective_sampler_for_hash req = record {
  top_p = or_default req.inference_config.top_p default_top_p;
  temperature = or_default req.inference_config.temperature default_temperature;
}

unfoldable pub find_session : Bytes → List (Bytes × ℕ) → Option ℕ
find_session id [] = none
find_session id ((k, h) ∷ ss) =
    let rest = find_session id ss in if bytes_eq k id then some h else rest

-- `sessions.insert`: the newest binding of an id hides the others.
unfoldable pub pin_session : Option Bytes → ℕ → List (Bytes × ℕ) → List (Bytes × ℕ)
pin_session none h ss = ss
pin_session (some id) h ss = (id, h) ∷ ss

module _ {C : Type 0} (key : List Turn → ℕ) (ttl now : ℕ) (cache : Entries C) (ts : List Turn) where
  -- The session's entry, if it is live and its hash is that of the turns it counts.
  unfoldable pub pinned : Option ℕ → Option (ℕ × ℕ)
  unfolding get is_fresh
  pinned none = none
  pinned (some h) = elim (get h cache) [
    | none ↦ none
    | some c ↦
        if (is_fresh ttl now c && leb c.turn_count (length ts)) && (key (take c.turn_count ts) == h)
        then some (h, c.turn_count)
        else none
  ]

  -- Is the entry of the first `n` turns live?
  unfoldable pub is_hit : ℕ → Bool
  unfolding get is_fresh
  is_hit n = elim (get (key (take n ts)) cache) [ none ↦ false | some c ↦ is_fresh ttl now c ]

  unfoldable pub longest : ℕ → Option (ℕ × ℕ)
  unfolding is_hit
  longest zero = if is_hit zero then some (key (take zero ts), zero) else none
  longest (suc n) =
      let rest = longest n in if is_hit (suc n) then some (key (take (suc n) ts), suc n) else rest

  unfoldable pub choose : Option ℕ → Option (ℕ × ℕ)
  unfolding pinned longest
  choose pin = elim (pinned pin) [ none ↦ longest (length ts) | some found ↦ some found ]

module _ {C : Type 0} (slot : LiteRtLmSlot C) where
  unfoldable pub fresh_conversation : Sampler → Option Bytes → Result Bytes C
  fresh_conversation sampler system_prompt =
      let made : Result Bytes C = elim system_prompt [
        | some sys ↦
            map_err (λ e. codes "litertlm create_conversation_with_system: " ++ e)
              (slot.engine.create_conversation_with_system sampler sys)
        | none ↦
            map_err (λ e. codes "litertlm create_conversation: " ++ e)
              (slot.engine.create_conversation sampler)
      ] in
      made >>= λ conv. ok (elim slot.visual_token_budget [
        | none ↦ conv
        | some b ↦ slot.engine.with_visual_token_budget conv b
      ])

  -- The working conversation and how many turns it stands for. A hit renews the entry.
  unfoldable pub acquire :
      Option (ℕ × ℕ) → ℕ → Entries C → Result Bytes C → Result Bytes (C × ℕ) × Entries C
  unfolding get touch
  acquire (some (h, suc n)) now cache made = (
    elim (get h cache) [
      | none ↦ err (codes "entry just looked up")
      | some c ↦
          map_err (λ e. codes "litertlm Conversation::clone: " ++ e) (slot.engine.clone c.conv)
          >>= λ conv. ok (conv, suc n)
    ],
    touch h now cache,
  )
  acquire (some (h, zero)) now cache made = (made >>= λ conv. ok (conv, 0), cache)
  acquire none now cache made = (made >>= λ conv. ok (conv, 0), cache)

  unfoldable pub joined : List Bytes → Bytes
  joined [] = []
  joined (b ∷ bs) = b ++ joined bs

  sent : C → Bytes → List Bytes × Result Bytes C
  sent conv msg =
      let (chunks, r) = slot.engine.send_message_stream conv msg in
      (chunks, map_err (λ e. codes "litertlm send_message_stream: " ++ e) r)

  -- The send loop: only the last message's chunks go out, and they are the response.
  unfoldable pub replay : C → List Bytes → List Bytes × Result Bytes (C × Bytes)
  unfolding sent joined
  replay conv [] = ([], ok (conv, []))
  replay conv (m ∷ []) =
      let (chunks, r) = sent conv m in (chunks, r >>= λ conv'. ok (conv', joined chunks))
  replay conv (m ∷ (m' ∷ ms)) = elim ((sent conv m).1) [
    | ok conv' ↦ replay conv' (m' ∷ ms)
    | err e ↦ ([], err e)
  ]

  -- The replay behind the first `n` turns, and the clone for the cache: the chunks that go out, and
  -- the new donor with the response.
  unfoldable pub generate : List Turn → C × ℕ → List Bytes × Result Bytes (C × Bytes)
  unfolding replay
  generate ts (conv, n) = elim (sendable_contents (drop n ts)) [
    | [] ↦ ([], err (codes "litertlm: nothing to send (suffix has no User/Tool turns)"))
    | m ∷ ms ↦
        let (chunks, r) = replay conv (m ∷ ms) in
        (
          chunks,
          r >>= λ done.
              map_err (λ e. codes "litertlm Conversation::clone (re-cache): " ++ e)
                (slot.engine.clone done.0)
              >>= λ donor. ok (donor, done.1),
        )
  ]

  unfoldable pub system_of : InferenceRequest → Option Bytes
  system_of req = elim req.inference_config.system_prompt [
    | some sys ↦ some sys
    | none ↦ slot.default_system_prompt
  ]

  unfoldable pub session_id : InferenceRequest → Option Bytes
  session_id req = elim req.session [ stateless ↦ none | persistent id ↦ some id ]

  unfoldable pub session_pin : InferenceRequest → List (Bytes × ℕ) → Option ℕ
  unfolding session_id
  session_pin req ss = elim (session_id req) [ none ↦ none | some id ↦ find_session id ss ]

  -- The hash of some turns under the request's system prompt and sampler.
  unfoldable pub key_of : InferenceRequest → List Turn → ℕ
  unfolding effective_sampler_for_hash system_of
  key_of req ts =
      let sampler = effective_sampler_for_hash req in
      hash_prefix slot.xxh3_128 (system_of req) sampler.top_p sampler.temperature ts

  -- The end of the closure: the advanced conversation is cached under the hash of the turns with the
  -- reply, and the session is pinned to it.
  unfoldable pub finish :
      InferenceRequest
      → List Turn
      → ℕ
      → Shared C
      → List Bytes × Result Bytes (C × Bytes)
      → List Bytes × Result Bytes Bytes × Shared C
  unfolding session_id key_of store pin_session
  finish req ts later s (chunks, err e) = (chunks, err e, s)
  finish req ts later s (chunks, ok (donor, reply)) =
      let full = ts ++ (assistant_turn reply ∷ []) in
      let h = key_of req full in
      (
        chunks,
        ok reply,
        record {
          prefix_cache =
              store slot.cache_size h
                (record { conv = donor; turn_count = length full; last_used = later })
                s.prefix_cache;
          sessions = pin_session (session_id req) h s.sessions;
        },
      )

  unfoldable pub serve :
      InferenceRequest
      → List Turn
      → ℕ
      → List (Bytes × ℕ)
      → Result Bytes (C × ℕ) × Entries C
      → List Bytes × Result Bytes Bytes × Shared C
  unfolding finish generate
  serve req ts later ss (err e, cache) = ([], err e, record { prefix_cache = cache; sessions = ss })
  serve req ts later ss (ok found, cache) =
      finish req ts later (record { prefix_cache = cache; sessions = ss }) (generate ts found)

  -- What the blocking closure returns, the chunks it pushes, and what it leaves.
  unfoldable pub dispatch :
      InferenceRequest → List Turn → ℕ → ℕ → Shared C → List Bytes × Result Bytes Bytes × Shared C
  unfolding choose acquire serve fresh_conversation session_pin key_of
  dispatch req ts now later s =
      let chosen =
        choose (key_of req) slot.ttl now s.prefix_cache ts (session_pin req s.sessions) in
      let made =
        fresh_conversation (sampler_for_request slot.default_sampler req) (system_of req) in
      serve req ts later s.sessions (acquire chosen now s.prefix_cache made)

  delta : Bytes → SlotEvent
  delta b = chunk (record { delta_text = b; finish_reason = none; phase = some (codes "text") })

  stop_event : SlotEvent
  stop_event =
      chunk (record {
        delta_text = [];
        finish_reason = some (codes "stop");
        phase = some (codes "text");
      })

  build_response : Bytes → Option Bytes → InferenceResponse
  build_response reply id = record {
    text = reply;
    session_id = id;
    raw_text = none;
    injections = [];
    tool_calls = [];
    replacement = none;
  }

  unfoldable pub respond :
      InferenceRequest → List Bytes × Result Bytes Bytes × Shared C → Run (Shared C)
  unfolding delta stop_event build_response session_id
  respond req (chunks, err e, s) = record { events = map delta chunks; result = err e; state = s }
  respond req (chunks, ok reply, s) = record {
    events = map delta chunks ++ (stop_event ∷ []);
    result = ok (build_response reply (session_id req));
    state = s;
  }

  unfoldable pub on_turns :
      ℕ → ℕ → InferenceRequest → Shared C → Result Bytes (List Turn) → Run (Shared C)
  unfolding dispatch respond
  on_turns now later req s (err e) = record { events = []; result = err e; state = s }
  on_turns now later req s (ok []) = record {
    events = [];
    result = err (codes "litertlm: empty input (no turns to dispatch)");
    state = s;
  }
  on_turns now later req s (ok (t ∷ ts)) = respond req (dispatch req (t ∷ ts) now later s)

  unfoldable pub run_stream : ℕ → ℕ → InferenceRequest → Shared C → Run (Shared C)
  unfolding on_turns
  run_stream now later req s = on_turns now later req s (input_to_turns req.input)
