-- ===== src/Llama/Session.antt =====
-- chitin_llama/src/session.rs: the prefill, the steps and the loop of raw generation. llama.cpp is a
-- parameter: its answers depend on the batches that it was handed so far, and on the tokens that the
-- sampler accepted. A position is an i32 in the source; here it does not wrap, since `prefill` keeps
-- the prompt below the length of the context and generation adds one position per token.
pub mod Prefill
pub mod Generation
pub mod Returns
pub mod Position
use chitin_model_api.Prelude.Lists.{length, take, drop}
use chitin_model_api.Prelude.Result.{Result, ok, err}
use chitin_model_api.Prelude.Tests.{ltb, ◌==◌, if◌then◌else◌}
use chitin_model_api.Prelude.{
  ℕ, zero, suc, ◌+◌, ◌-◌, min, Bool, true, false, ◌&&◌, List, [], ◌∷◌, ◌++◌, Option, none, some,
}

-- An entry of a batch.
pub record Cell : Type 0 where
  pub token : ℕ
  pub pos : ℕ
  pub logits : Bool

-- Whether a batch takes one more entry, whether the newest batch was decoded, the sampler's token,
-- and the end-of-generation tokens.
pub record Llama : Type 0 where
  pub takes : List Cell → Bool
  pub decodes : List (List Cell) → Bool
  pub sample : List (List Cell) → List ℕ → ℕ → ℕ
  pub is_eog : ℕ → Bool

pub record Session : Type 0 where
  pub n_cur : ℕ
  pub max_seq_len : ℕ
  pub batch_capacity : ℕ
  pub batch : List Cell
  pub handed : List (List Cell)
  pub accepted : List ℕ

pub data SessionError : Type 0 where
  empty_prompt exceeds_context batch_add decode_failed : SessionError

abbrev pub Done : Type 0 → Type 0
Done A = Result SessionError A × Session

unfoldable pub clear_kv : Session → Session
clear_kv s = record s { n_cur = 0; handed = [] }

-- The entries for tokens `k`, `k + 1`, … of a prompt of `total`, in the chunk that ends at `end`.
unfoldable pub cells : ℕ → ℕ → ℕ → ℕ → List ℕ → List Cell
cells start total end k [] = []
cells start total end k (t ∷ ts) =
    record { token = t; pos = start + k; logits = end == total && k == total - 1 }
    ∷ cells start total end (suc k) ts

module _ (llama : Llama) where
  -- Adds entries until the batch takes no more: what it holds then, and whether all are in.
  unfoldable pub add_each : List Cell → List Cell → Bool × List Cell
  add_each held [] = (true, held)
  add_each held (c ∷ cs) = elim (llama.takes held) [
    | true ↦ add_each (held ++ (c ∷ [])) cs
    | false ↦ (false, held)
  ]

  -- Hands a cleared and refilled batch to the decoder.
  decode : Bool × List Cell → Session → Done (Unit {0})
  decode (false, held) s = (err batch_add, record s { batch = held })
  decode (true, held) s =
      let handed = s.handed ++ (held ∷ []) in
      (
        (if llama.decodes handed then ok tt else err decode_failed),
        record s { batch = held; handed = handed },
      )

  unfoldable pub run_batch : List Cell → Session → Done (Unit {0})
  unfolding add_each decode
  run_batch cs s = decode (add_each [] cs) s

  next : (Session → Option (Done (Unit {0}))) → Done (Unit {0}) → Option (Done (Unit {0}))
  next again (err e, s) = some (err e, s)
  next again (ok _, s) = again s

  -- The chunks from token `i` on, with `rest` the tokens from there. Each chunk takes at least one
  -- token if the capacity is not 0, so the number of tokens is enough fuel then.
  unfoldable pub prefill_chunks : ℕ → ℕ → ℕ → ℕ → List ℕ → Session → Option (Done (Unit {0}))
  unfolding run_batch cells next
  prefill_chunks fuel start total i [] s = some (ok tt, s)
  prefill_chunks zero start total i (t ∷ ts) s = none
  prefill_chunks (suc fuel) start total i (t ∷ ts) s =
      let end = min (i + s.batch_capacity) total in
      next (prefill_chunks fuel start total end (drop (end - i) (t ∷ ts)))
        (run_batch (cells start total end i (take (end - i) (t ∷ ts))) s)

  finish : ℕ → Option (Done (Unit {0})) → Option (Done ℕ)
  finish end_total none = none
  finish end_total (some (err e, s)) = some (err e, s)
  finish end_total (some (ok _, s)) = some (ok end_total, record s { n_cur = end_total })

  unfoldable pub prefill : List ℕ → Session → Option (Done ℕ)
  unfolding prefill_chunks finish
  prefill [] s = some (err empty_prompt, s)
  prefill (t ∷ ts) s =
      let total = length (t ∷ ts) in
      if ltb (s.n_cur + total) s.max_seq_len
      then finish (s.n_cur + total) (prefill_chunks total s.n_cur total 0 (t ∷ ts) s)
      else some (err exceeds_context, s)

  unfoldable pub sampled : Session → ℕ
  sampled s = llama.sample s.handed s.accepted (length s.batch - 1)

  unfoldable pub step : Session → Option ℕ × Session
  unfolding sampled
  step s =
      let token = sampled s in
      (
        (if llama.is_eog token then none else some token),
        record s { accepted = s.accepted ++ (token ∷ []) },
      )

  -- The position moves on once the batch holds the token, decoded or not.
  pushed : ℕ → Bool × List Cell → Session → Done (Unit {0})
  unfolding decode
  pushed n (false, held) s = (err batch_add, record s { batch = held })
  pushed n (true, held) s = decode (true, held) (record s { n_cur = n })

  unfoldable pub push_token : ℕ → Session → Done (Unit {0})
  unfolding add_each pushed
  push_token token s =
      pushed (s.n_cur + 1)
        (add_each [] (record { token = token; pos = s.n_cur; logits = true } ∷ [])) s

  after_push : (Session → List ℕ × Session) → ℕ → Done (Unit {0}) → List ℕ × Session
  after_push again token (err e, s) = (token ∷ [], s)
  after_push again token (ok _, s) = let (ts, s') = again s in (token ∷ ts, s')

  after_step : (Session → List ℕ × Session) → Option ℕ × Session → List ℕ × Session
  unfolding push_token after_push
  after_step again (none, s) = ([], s)
  after_step again (some token, s) = after_push again token (push_token token s)

  unfoldable pub produce : ℕ → Session → List ℕ × Session
  unfolding step after_step
  produce zero s = ([], s)
  produce (suc n) s = after_step (produce n) (step s)

  unfoldable pub generate_raw : List ℕ → ℕ → Session → Option (Done (List ℕ))
  unfolding prefill produce
  generate_raw prompt max_tokens s = elim (prefill prompt s) [
    | none ↦ none
    | some (err e, s') ↦ some (err e, s')
    | some (ok _, s') ↦ let (ts, s'') = produce max_tokens s' in some (ok ts, s'')
  ]
