-- ===== src/Cache/Slot/Runs.antt =====
-- model_api_server/src/litertlm_slot.rs: what whole runs of the slot leave in the cache.
use chitin_model_api.Cache.Key.{hash_prefix, sendable_contents}
use chitin_model_api.Cache.Slot.{
  LiteRtLmSlot, Shared, choose, pinned, find_session, pin_session, session_pin, session_id, key_of,
  acquire, finish, serve, replay, fresh_conversation, sampler_for_request, dispatch, respond,
  on_turns, run_stream, generate, system_of, effective_sampler_for_hash,
}
use chitin_model_api.Cache.Store.Lookup.{
  get-store, length-store_le, store-All, length-touch, touch-All,
}
use chitin_model_api.Cache.Store.{CachedConv, Entries, get, is_fresh}
use chitin_model_api.Prelude.Lists.{length, drop, length-append, take-append, drop-append, All}
use chitin_model_api.Prelude.Result.{Result, ok, err}
use chitin_model_api.Prelude.Tests.{leb, lt→ltb, ==_refl}
use chitin_model_api.Prelude.Text.{Bytes, bytes_eq_iff}
use chitin_model_api.Prelude.{
  ℕ, zero, suc, ◌-◌, ◌≤◌, ◌<◌, ◌≡◌, refl, sym, ap, ◌∙◌, true, List, [], ◌∷◌, ◌++◌, Option, none,
  some, arith,
}
use chitin_model_api.Proto.{Turn, assistant_turn, InferenceRequest, persistent, F32}

-- An entry's key is the hash of as many turns as it counts.
abbrev pub Keyed : {C : Type 0} → (Bytes → ℕ) → ℕ × CachedConv C → Type 0
Keyed xxh3_128 e =
    (system : Option Bytes) × (p : F32) × (t : F32) × (ts : List Turn) × (e.0
      ≡ hash_prefix xxh3_128 system p t ts)
    × (length ts ≡ e.1.turn_count)

abbrev failed : Bytes → Result Bytes Bytes
failed e = err e

abbrev replied : Bytes → Result Bytes Bytes
replied r = ok r

module _ {C : Type 0} (slot : LiteRtLmSlot C) where
  pub record IsValid (s : Shared C) : Type 0 where
    pub in_size : length s.prefix_cache ≤ slot.cache_size
    pub keyed : All (Keyed slot.xxh3_128) s.prefix_cache

  acquire-IsValid :
      (chosen : Option (ℕ × ℕ)) (now : ℕ) (es : Entries C) (ss : List (Bytes × ℕ))
      (made : Result Bytes C)
      → IsValid (record { prefix_cache = es; sessions = ss })
      → IsValid (record { prefix_cache = (acquire slot chosen now es made).1; sessions = ss })
  unfolding acquire
  acquire-IsValid none now es ss made v = v
  acquire-IsValid (some (h, zero)) now es ss made v = v
  acquire-IsValid (some (h, suc n)) now es ss made v = record {
    in_size = rw (length-touch h now es) v.in_size;
    keyed = touch-All (Keyed slot.xxh3_128) h now es (λ k c k_ok. k_ok) v.keyed;
  }

  finish-IsValid :
      (req : InferenceRequest) (ts : List Turn) (later : ℕ) (s : Shared C)
      (out : List Bytes × Result Bytes (C × Bytes))
      → 1 ≤ slot.cache_size
      → IsValid s
      → IsValid ((finish slot req ts later s out).2)
  unfolding finish key_of
  finish-IsValid req ts later s (chunks, err e) b v = v
  finish-IsValid req ts later s (chunks, ok (donor, reply)) b v =
      let full = ts ++ (assistant_turn reply ∷ []) in
      let h = key_of slot req full in
      let c : CachedConv C = record { conv = donor; turn_count = length full; last_used = later } in
      let sampler = effective_sampler_for_hash req in
      record {
        in_size = length-store_le slot.cache_size h c s.prefix_cache b v.in_size;
        keyed =
            store-All (Keyed slot.xxh3_128) slot.cache_size h c s.prefix_cache
              (system_of slot req, sampler.top_p, sampler.temperature, full, refl, refl) v.keyed;
      }

  serve-IsValid :
      (req : InferenceRequest) (ts : List Turn) (later : ℕ) (ss : List (Bytes × ℕ))
      (got : Result Bytes (C × ℕ) × Entries C)
      → 1 ≤ slot.cache_size
      → IsValid (record { prefix_cache = got.1; sessions = ss })
      → IsValid ((serve slot req ts later ss got).2)
  unfolding serve
  serve-IsValid req ts later ss (err e, es) b v = v
  serve-IsValid req ts later ss (ok found, es) b v =
      finish-IsValid req ts later (record { prefix_cache = es; sessions = ss })
        (generate slot ts found) b v

  dispatch-IsValid :
      (req : InferenceRequest) (ts : List Turn) (now later : ℕ) (s : Shared C)
      → 1 ≤ slot.cache_size
      → IsValid s
      → IsValid ((dispatch slot req ts now later s).2)
  unfolding dispatch
  dispatch-IsValid req ts now later s b v =
      serve-IsValid req ts later s.sessions _ b
        (acquire-IsValid _ now s.prefix_cache s.sessions _ v)

  respond-state :
      (req : InferenceRequest) (out : List Bytes × Result Bytes Bytes × Shared C)
      → (respond slot req out).state ≡ out.2
  unfolding respond
  respond-state req (chunks, err e, s) = refl
  respond-state req (chunks, ok reply, s) = refl

  on_turns-IsValid :
      (now later : ℕ) (req : InferenceRequest) (s : Shared C) (input : Result Bytes (List Turn))
      → 1 ≤ slot.cache_size
      → IsValid s
      → IsValid ((on_turns slot now later req s input).state)
  unfolding on_turns
  on_turns-IsValid now later req s (err e) b v = v
  on_turns-IsValid now later req s (ok []) b v = v
  on_turns-IsValid now later req s (ok (t ∷ ts)) b v =
      rw (respond-state req (dispatch slot req (t ∷ ts) now later s))
        (dispatch-IsValid req (t ∷ ts) now later s b v)

  -- Where the slot's cache size is at least one, a run, failed or not, leaves a valid cache valid: no
  -- more entries than the cache size, and each under the hash of as many turns as it counts.
  pub run_stream-IsValid :
      (now later : ℕ) (req : InferenceRequest) (s : Shared C)
      → 1 ≤ slot.cache_size
      → IsValid s
      → IsValid ((run_stream slot now later req s).state)
  unfolding run_stream
  run_stream-IsValid now later req s b v = on_turns-IsValid now later req s _ b v

  -- What a completed run leaves behind.
  Saved : InferenceRequest → List Turn → ℕ → Bytes → Shared C → Type 0
  Saved req ts later reply s =
      let full : List Turn = ts ++ (assistant_turn reply ∷ []) in
      (donor : C) × (get (key_of slot req full) s.prefix_cache
        ≡ some (record { conv = donor; turn_count = length full; last_used = later }))
      × ((ss : List (Bytes × ℕ)) × (s.sessions
            ≡ pin_session (session_id slot req) (key_of slot req full) ss))

  finish-Saved :
      (req : InferenceRequest) (ts : List Turn) (later : ℕ) (s s' : Shared C)
      (out : List Bytes × Result Bytes (C × Bytes)) (chunks : List Bytes) (reply : Bytes)
      → finish slot req ts later s out ≡ (chunks, ok reply, s')
      → Saved req ts later reply s'
  unfolding finish Saved
  finish-Saved req ts later s s' (cs, err e) chunks reply h =
      let bad : failed e ≡ ok reply = ap (λ x. x.1) h in cc bad
  finish-Saved req ts later s s' (cs, ok (donor, r)) chunks reply h =
      let good : replied r ≡ ok reply = ap (λ x. x.1) h in
      let same : r ≡ reply = cc good in
      let state : (finish slot req ts later s (cs, ok (donor, r))).2 ≡ s' = ap (λ x. x.2) h in
      rw (← same)
        (rw (← state) (donor, get-store slot.cache_size _ _ s.prefix_cache, (s.sessions, refl)))

  serve-Saved :
      (req : InferenceRequest) (ts : List Turn) (later : ℕ) (ss : List (Bytes × ℕ))
      (got : Result Bytes (C × ℕ) × Entries C) (chunks : List Bytes) (reply : Bytes) (s' : Shared C)
      → serve slot req ts later ss got ≡ (chunks, ok reply, s')
      → Saved req ts later reply s'
  unfolding serve
  serve-Saved req ts later ss (err e, es) chunks reply s' h =
      let bad : failed e ≡ ok reply = ap (λ x. x.1) h in cc bad
  serve-Saved req ts later ss (ok found, es) chunks reply s' h =
      finish-Saved req ts later _ s' (generate slot ts found) chunks reply h

  dispatch-Saved :
      (req : InferenceRequest) (ts : List Turn) (now later : ℕ) (s s' : Shared C)
      (chunks : List Bytes) (reply : Bytes)
      → dispatch slot req ts now later s ≡ (chunks, ok reply, s')
      → Saved req ts later reply s'
  unfolding dispatch
  dispatch-Saved req ts now later s s' chunks reply h =
      serve-Saved req ts later s.sessions _ chunks reply s' h

  key_of-config :
      (req req' : InferenceRequest) (ts : List Turn)
      → req'.inference_config ≡ req.inference_config
      → key_of slot req' ts ≡ key_of slot req ts
  unfolding key_of system_of effective_sampler_for_hash
  key_of-config req req' ts e =
      ap
        (λ c.
          key_of slot
            (record {
              role = req.role;
              input = req.input;
              max_tokens = req.max_tokens;
              session = req.session;
              inference_config = c;
              tools = req.tools;
              tool_results = req.tool_results;
              cache_hash = req.cache_hash;
              stream = req.stream;
              progress = req.progress;
            })
            ts)
        e

  session_pin-newest :
      (req : InferenceRequest) (id : Bytes) (h : ℕ) (ss : List (Bytes × ℕ))
      → req.session ≡ persistent id
      → session_pin slot req ((id, h) ∷ ss) ≡ some h
  unfolding session_pin session_id find_session
  session_pin-newest req id h ss e = rw (e, (bytes_eq_iff id id).1 refl) refl

  session_id-persistent :
      (req : InferenceRequest) (id : Bytes)
      → req.session ≡ persistent id
      → session_id slot req ≡ some id
  unfolding session_id
  session_id-persistent req id e = rw e refl

  pinned-hit :
      (key : List Turn → ℕ) (now : ℕ) (es : Entries C) (full more : List Turn) (donor : C)
      (used : ℕ)
      → get (key full) es
        ≡ some (record { conv = donor; turn_count = length full; last_used = used })
      → now - used < slot.ttl
      → pinned key slot.ttl now es (full ++ more) (some (key full)) ≡ some (key full, length full)
  unfolding pinned is_fresh
  pinned-hit key now es full more donor used here live =
      let fits : leb (length full) (length (full ++ more)) ≡ true =
        rw (length-append full more) (ground arith) in
      rw
        (
          here,
          pinned,
          lt→ltb (now - used) slot.ttl live,
          fits,
          take-append full more,
          ==_refl (key full),
        )
        refl

  chosen-pinned :
      (req req' : InferenceRequest) (id : Bytes) (ts more : List Turn) (now later now' : ℕ)
      (s s' : Shared C) (chunks : List Bytes) (reply : Bytes)
      → req.session ≡ persistent id
      → req'.session ≡ persistent id
      → req'.inference_config ≡ req.inference_config
      → dispatch slot req ts now later s ≡ (chunks, ok reply, s')
      → now' - later < slot.ttl
      → let full = ts ++ (assistant_turn reply ∷ []) in
        choose
          (key_of slot req')
          slot.ttl
          now'
          s'.prefix_cache
          (full ++ more)
          (session_pin slot req' s'.sessions)
        ≡ some (key_of slot req full, length full)
  unfolding Saved pin_session choose
  chosen-pinned req req' id ts more now later now' s s' chunks reply p p' config done live =
      let full : List Turn = ts ++ (assistant_turn reply ∷ []) in
      let (donor, here, (ss, pins)) = dispatch-Saved req ts now later s s' chunks reply done in
      let key : key_of slot req' full ≡ key_of slot req full = key_of-config req req' full config in
      let sessions : s'.sessions ≡ (id, key_of slot req full) ∷ ss =
        pins ∙ rw (session_id-persistent req id p) refl in
      let pin : session_pin slot req' s'.sessions ≡ some (key_of slot req' full) =
        rw (sessions, key) (session_pin-newest req' id (key_of slot req full) ss p') in
      let hit =
        pinned-hit (key_of slot req') now' s'.prefix_cache full more donor later (rw key here)
          live in
      rw (pin, choose, hit, key) refl

  acquire-hit :
      (h n now : ℕ) (es : Entries C) (made : Result Bytes C) (c : CachedConv C) (conv : C)
      → get h es ≡ some c
      → slot.engine.clone c.conv ≡ ok conv
      → (acquire slot (some (h, suc n)) now es made).0 ≡ ok (conv, suc n)
  unfolding acquire
  acquire-hit h n now es made c conv e f = rw (e, f, acquire) refl

  -- The chunks and the reply behind `n` turns that the conversation stands for.
  generate-more :
      (ts more : List Turn) (n : ℕ) (conv conv' donor : C) (m : Bytes) (ms : List Bytes)
      (chunks : List Bytes) (reply : Bytes)
      → drop n ts ≡ more
      → sendable_contents more ≡ m ∷ ms
      → replay slot conv (m ∷ ms) ≡ (chunks, ok (conv', reply))
      → slot.engine.clone conv' ≡ ok donor
      → generate slot ts (conv, n) ≡ (chunks, ok (donor, reply))
  unfolding generate
  generate-more ts more n conv conv' donor m ms chunks reply d e r f =
      rw (d, generate, e, generate, r, f) refl

  serve-reply :
      (req : InferenceRequest) (ts : List Turn) (later : ℕ) (ss : List (Bytes × ℕ))
      (got : Result Bytes (C × ℕ) × Entries C) (found : C × ℕ) (chunks : List Bytes) (donor : C)
      (reply : Bytes)
      → got.0 ≡ ok found
      → generate slot ts found ≡ (chunks, ok (donor, reply))
      → (s : Shared C) × (serve slot req ts later ss got ≡ (chunks, ok reply, s))
  unfolding serve finish
  serve-reply req ts later ss (r, es) found chunks donor reply e f =
      let st : Shared C = record { prefix_cache = es; sessions = ss } in
      (
        (finish slot req ts later st (chunks, ok (donor, reply))).2,
        ap (λ x. serve slot req ts later ss (x, es)) e ∙ ap (finish slot req ts later st) f,
      )

  -- A completed run of a session warms the session's next one. Where a run answers `reply` for the
  -- turns `ts`, and the next request of the same session has the same inference configuration and
  -- continues the conversation with `ts`, the reply and then `more`, before the time to live is over,
  -- the next request sends to a clone of the conversation that the run has stored, and of its turns
  -- only those of `more`: its chunks and its reply are those of that replay, if the clones succeed.
  pub dispatch-reuses :
      (req req' : InferenceRequest) (id : Bytes) (ts more : List Turn) (now later now' later' : ℕ)
      (s s' : Shared C) (chunks : List Bytes) (reply : Bytes) (c : CachedConv C)
      (conv conv' donor : C) (m : Bytes) (ms chunks' : List Bytes) (reply' : Bytes)
      → req.session ≡ persistent id
      → req'.session ≡ persistent id
      → req'.inference_config ≡ req.inference_config
      → dispatch slot req ts now later s ≡ (chunks, ok reply, s')
      → now' - later < slot.ttl
      → get (key_of slot req (ts ++ (assistant_turn reply ∷ []))) s'.prefix_cache ≡ some c
      → slot.engine.clone c.conv ≡ ok conv
      → sendable_contents more ≡ m ∷ ms
      → replay slot conv (m ∷ ms) ≡ (chunks', ok (conv', reply'))
      → slot.engine.clone conv' ≡ ok donor
      → (s'' : Shared C) × (dispatch slot req'
            ((ts ++ (assistant_turn reply ∷ [])) ++ more)
            now'
            later'
            s'
          ≡ (chunks', ok reply', s''))
  unfolding dispatch
  dispatch-reuses req req' id ts more now later now' later' s s' chunks reply c conv conv' donor m
        ms chunks' reply' p p' config done live here cloned sends replayed recloned =
      let full : List Turn = ts ++ (assistant_turn reply ∷ []) in
      let pick =
        chosen-pinned req req' id ts more now later now' s s' chunks reply p p' config done live in
      let long : length full ≡ suc (length ts) =
        rw (length-append ts (assistant_turn reply ∷ [])) (omega arith) in
      let behind : drop (suc (length ts)) (full ++ more) ≡ more =
        ap (λ n. drop n (full ++ more)) (sym long) ∙ drop-append full more in
      let made =
        fresh_conversation slot (sampler_for_request slot.default_sampler req')
          (system_of slot req') in
      let chosen = pick ∙ ap (λ n. some (key_of slot req full, n)) long in
      let got =
        ap (λ o. (acquire slot o now' s'.prefix_cache made).0) chosen
        ∙ acquire-hit (key_of slot req full) (length ts) now' s'.prefix_cache made c conv here
            cloned in
      serve-reply req' (full ++ more) later' s'.sessions _ (conv, suc (length ts)) chunks' donor
        reply' got
        (generate-more (full ++ more) more (suc (length ts)) conv conv' donor m ms chunks' reply'
          behind sends replayed recloned)
