-- ===== src/Cache/Store.antt =====
-- The prefix cache of model_api_server/src/litertlm_slot.rs: a map from hashes to cached
-- conversations. The order of the list stands for the iteration order of the `HashMap`.
pub mod Lookup
use chitin_model_api.Prelude.Lists.{length}
use chitin_model_api.Prelude.Tests.{ltb, ◌==◌, if◌then◌else◌}
use chitin_model_api.Prelude.{
  ℕ, ◌-◌, Bool, true, false, not, ◌&&◌, List, [], ◌∷◌, Option, none, some,
}

pub record CachedConv (C : Type 0) : Type 0 where
  pub conv : C
  pub turn_count : ℕ
  pub last_used : ℕ

abbrev pub Entries : Type 0 → Type 0
Entries C = List (ℕ × CachedConv C)

module _ {C : Type 0} where
  unfoldable pub get : ℕ → Entries C → Option (CachedConv C)
  get h [] = none
  get h ((k, c) ∷ es) = let rest = get h es in if k == h then some c else rest

  unfoldable pub contains_key : ℕ → Entries C → Bool
  unfolding get
  contains_key h es = elim (get h es) [ none ↦ false | some _ ↦ true ]

  unfoldable pub remove : ℕ → Entries C → Entries C
  remove h [] = []
  remove h ((k, c) ∷ es) = let rest = remove h es in if k == h then rest else (k, c) ∷ rest

  unfoldable pub insert : ℕ → CachedConv C → Entries C → Entries C
  unfolding remove
  insert h c es = (h, c) ∷ remove h es

  -- `entry.last_used = Instant::now()` on the entry at `h`.
  unfoldable pub touch : ℕ → ℕ → Entries C → Entries C
  touch h now [] = []
  touch h now ((k, c) ∷ es) =
      let rest = touch h now es in
      if k == h
      then (k, record { conv = c.conv; turn_count = c.turn_count; last_used = now }) ∷ rest
      else (k, c) ∷ rest

  -- `iter().min_by_key(last_used)`: the first of the least recently used entries.
  oldest_from : ℕ → ℕ → Entries C → ℕ
  oldest_from k used [] = k
  oldest_from k used ((k', c) ∷ es) = elim (ltb c.last_used used) [
    | true ↦ oldest_from k' c.last_used es
    | false ↦ oldest_from k used es
  ]

  unfoldable pub oldest : Entries C → Option ℕ
  unfolding oldest_from
  oldest [] = none
  oldest ((k, c) ∷ es) = some (oldest_from k c.last_used es)

  -- The last step of a run: make room where the key is a new one and the cache is full, then insert.
  unfoldable pub evict : ℕ → ℕ → Entries C → Entries C
  unfolding remove oldest contains_key
  evict cache_size h es =
      if not (ltb (length es) cache_size) && not (contains_key h es)
      then elim (oldest es) [ none ↦ es | some k ↦ remove k es ]
      else es

  unfoldable pub store : ℕ → ℕ → CachedConv C → Entries C → Entries C
  unfolding evict insert
  store cache_size h c es = insert h c (evict cache_size h es)

  -- `last_used.elapsed() < ttl`.
  unfoldable pub is_fresh : ℕ → ℕ → CachedConv C → Bool
  is_fresh ttl now c = ltb (now - c.last_used) ttl
