-- ===== src/Llama/PrefixCache.antt =====
-- chitin_llama/src/prefix_cache.rs, and `save_seq` and `load_seq` of chitin_llama/src/session.rs.
-- llama.cpp's state files are a parameter: it reads and writes them with the state of a context, which
-- is the batches that it was handed. A path is UTF-8
-- text, which `to_string_lossy` leaves as it is.
pub mod RoundTrip
use chitin_model_api.Llama.Session.{Cell, Session}
use chitin_model_api.Prelude.Lists.{length}
use chitin_model_api.Prelude.Result.{Result, ok, err, ◌>>=◌}
use chitin_model_api.Prelude.Tests.{◌==◌, if◌then◌else◌}
use chitin_model_api.Prelude.Text.{Bytes, codes}
use chitin_model_api.Prelude.{ℕ, zero, suc, Bool, true, false, List, [], ◌∷◌, ◌++◌, max}

abbrev pub Kv : Type 0
Kv = List (List Cell)

-- What a load wrote: the bytes that were read, the tokens and the state.
pub record Loaded : Type 0 where
  pub read : ℕ
  pub tokens : List ℕ
  pub kv : Kv

-- `llama_state_seq_save_file` and `llama_state_seq_load_file` on the files `F`, whether there is a
-- file, how a path is displayed, and the capacity that a vector gets.
pub record StateFiles : Type 1 where
  pub F : Type 0
  pub exists : Bytes → F → Bool
  pub save_file : Kv → Bytes → ℕ → List ℕ → F → ℕ × F
  pub load_file : Bytes → ℕ → ℕ → F → Kv → Loaded
  pub display : Bytes → Bytes
  pub bad_path : Bytes → Bytes
  pub with_capacity : ℕ → ℕ

unfoldable pub cache_path : Bytes → Bytes → Bytes
cache_path model_dir tag = model_dir ++ (codes "/llama_prefix_" ++ (tag ++ codes ".bin"))

unfoldable pub has_nul : Bytes → Bool
has_nul [] = false
has_nul (b ∷ s) = let rest = has_nul s in if b == 0 then true else rest

module _ (files : StateFiles) where
  -- `CString::new`, with `who` in its error.
  unfoldable pub c_path : Bytes → Bytes → Result Bytes Bytes
  unfolding has_nul
  c_path who path = if has_nul path then err (who ++ files.bad_path path) else ok path

  -- `save` behind the call: nothing written is an error.
  unfoldable pub saved : Bytes → ℕ × files.F → Result Bytes ℕ × files.F
  saved path (zero, fs) =
      (err (codes "llama_state_seq_save_file(" ++ (files.display path ++ codes ") returned 0")), fs)
  saved path (suc n, fs) = (ok (suc n), fs)

  unfoldable pub save : Kv → Bytes → ℕ → List ℕ → files.F → Result Bytes ℕ × files.F
  unfolding c_path saved
  save kv path seq_id tokens fs = elim (c_path (codes "prefix_cache::save bad path: ") path) [
    | err e ↦ (err e, fs)
    | ok p ↦ saved path (files.save_file kv p seq_id tokens fs)
  ]

  -- `load` behind the call: nothing read leaves the vector empty.
  unfoldable pub applied : ℕ → List ℕ → Kv → ℕ × (List ℕ × Kv)
  applied zero tokens kv = (0, ([], kv))
  applied (suc n) tokens kv = (suc n, (tokens, kv))

  -- The bytes that were read, the tokens and the state.
  unfoldable pub load : Kv → Bytes → ℕ → ℕ → files.F → Result Bytes (ℕ × (List ℕ × Kv))
  unfolding c_path applied
  load kv path seq_id capacity fs =
      if files.exists path fs
      then (c_path (codes "prefix_cache::load bad path: ") path >>= λ p.
          if capacity == 0
          then err (codes "prefix_cache::load needs preallocated tokens_out capacity")
          else (let l = files.load_file p seq_id capacity fs kv in
              ok (applied l.read l.tokens l.kv)))
      else ok (0, ([], kv))

  unfoldable pub save_seq : Bytes → List ℕ → Session → files.F → Result Bytes ℕ × files.F
  unfolding save
  save_seq path tokens s fs = save s.handed path 0 tokens fs

  -- No bytes leave the position as it was.
  unfoldable pub positioned : ℕ × (List ℕ × Kv) → Session → (List ℕ × ℕ) × Session
  positioned (zero, (tokens, kv)) s = (([], 0), record s { handed = kv })
  positioned (suc n, (tokens, kv)) s =
      ((tokens, suc n), record s { n_cur = length tokens; handed = kv })

  unfoldable pub load_seq : Bytes → ℕ → Session → files.F → Result Bytes (List ℕ × ℕ) × Session
  unfolding load positioned
  load_seq path max_tokens s fs =
      elim (load s.handed path 0 (files.with_capacity (max max_tokens 1)) fs) [
        | err e ↦ (err e, s)
        | ok r ↦ let d = positioned r s in (ok d.0, d.1)
      ]
