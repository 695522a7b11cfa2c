-- ===== src/Cache/Store/Lookup.antt =====
-- model_api_server/src/litertlm_slot.rs: lookups, sizes and entries behind the cache's operations.
use chitin_model_api.Cache.Store.{
  CachedConv, Entries, get, contains_key, remove, insert, touch, oldest_from, oldest, evict, store,
}
use chitin_model_api.Prelude.Lists.{length, All}
use chitin_model_api.Prelude.Tests.{ltb, ◌==◌, ==_refl, Bool-cases, ltb→lt, lt→ltb}
use chitin_model_api.Prelude.{
  ℕ, suc, ◌≤◌, ◌≡◌, ◌⊎◌, refl, true, not, ◌&&◌, [], ◌∷◌, some, arith, inl, inr,
}

module _ {C : Type 0} where
  pub get-insert : (h : ℕ) (c : CachedConv C) (es : Entries C) → get h (insert h c es) ≡ some c
  unfolding get insert
  get-insert h c es = rw (==_refl h) refl

  pub get-store : (n h : ℕ) (c : CachedConv C) (es : Entries C) → get h (store n h c es) ≡ some c
  unfolding store
  get-store n h c es = get-insert h c (evict n h es)

  pub length-remove_le : (h : ℕ) (es : Entries C) → length (remove h es) ≤ length es
  unfolding remove
  length-remove_le h [] = omega arith
  length-remove_le h ((k, c) ∷ es) = let below = length-remove_le h es in ground arith

  pub length-remove_lt :
      (h : ℕ) (es : Entries C) → contains_key h es ≡ true → suc (length (remove h es)) ≤ length es
  unfolding remove contains_key get
  length-remove_lt h [] e = cc
  length-remove_lt h ((k, c) ∷ es) e =
      let rest = length-remove_lt h es in
      let b = length-remove_le h es in
      elim (Bool-cases (k == h)) [
        | inl p ↦ rw (p) omega arith
        | inr p ↦ rw (p) (let below = rest (rw (p, contains_key) at e) in omega arith)
      ]

  pub length-touch : (h now : ℕ) (es : Entries C) → length (touch h now es) ≡ length es
  unfolding touch
  length-touch h now [] = refl
  length-touch h now ((k, c) ∷ es) = let below = length-touch h now es in ground arith

  contains-head : (k : ℕ) (c : CachedConv C) (es : Entries C) → contains_key k ((k, c) ∷ es) ≡ true
  unfolding contains_key get
  contains-head k c es = rw (==_refl k, contains_key) refl

  contains-tail :
      (h k : ℕ) (c : CachedConv C) (es : Entries C)
      → contains_key h es ≡ true
      → contains_key h ((k, c) ∷ es) ≡ true
  unfolding contains_key get
  contains-tail h k c es e = elim (Bool-cases (k == h)) [
    | inl p ↦ rw (p, contains_key) refl
    | inr p ↦ rw (p, contains_key) e
  ]

  head_or_tail :
      (k : ℕ) (c : CachedConv C) (es : Entries C) (h : ℕ)
      → (h ≡ k) ⊎ (contains_key h es ≡ true)
      → contains_key h ((k, c) ∷ es) ≡ true
  head_or_tail k c es h (inl q) = rw q (contains-head k c es)
  head_or_tail k c es h (inr q) = contains-tail h k c es q

  -- The key that the search ends with is the one it started with or one of the list.
  oldest_from_lem :
      (k used : ℕ) (es : Entries C)
      → (oldest_from k used es ≡ k) ⊎ (contains_key (oldest_from k used es) es ≡ true)
  unfolding oldest_from
  oldest_from_lem k used [] = inl refl
  oldest_from_lem k used ((k', c) ∷ es) =
      let older = oldest_from_lem k' c.last_used es in
      let kept = oldest_from_lem k used es in
      elim (Bool-cases (ltb c.last_used used)) [
        | inl p ↦
            rw (p, oldest_from) (inr (head_or_tail k' c es (oldest_from k' c.last_used es) older))
        | inr p ↦
            rw (p, oldest_from)
              (elim kept [
                | inl q ↦ inl q
                | inr q ↦ inr (contains-tail (oldest_from k used es) k' c es q)
              ])
      ]

  oldest-contains :
      (k : ℕ) (c : CachedConv C) (es : Entries C)
      → contains_key (oldest_from k c.last_used es) ((k, c) ∷ es) ≡ true
  oldest-contains k c es =
      head_or_tail k c es (oldest_from k c.last_used es) (oldest_from_lem k c.last_used es)

  evict_bound :
      (n h : ℕ) (es : Entries C)
      → 1 ≤ n
      → length es ≤ n
      → (contains_key h es ≡ true) ⊎ (suc (length (evict n h es)) ≤ n)
  unfolding evict oldest
  evict_bound n h [] n1 b = inr (rw (lt→ltb 0 n n1) (omega arith))
  evict_bound n h ((k, c) ∷ es) n1 b =
      let k' = oldest_from k c.last_used es in
      let less = length-remove_lt k' ((k, c) ∷ es) (oldest-contains k c es) in
      elim (Bool-cases (contains_key h ((k, c) ∷ es))) [
        | inl here ↦ inl here
        | inr away ↦ inr (elim (Bool-cases (ltb (suc (length es)) n)) [
          | inl room ↦ let lt = ltb→lt (suc (length es)) n room in rw (room) (omega arith)
          | inr full ↦ rw (full, away) (omega arith)
        ])
      ]

  evict_kept : (n h : ℕ) (es : Entries C) → contains_key h es ≡ true → evict n h es ≡ es
  unfolding evict
  evict_kept n h es e = elim (Bool-cases (ltb (length es) n)) [
    | inl room ↦ rw (room) refl
    | inr full ↦ rw (full, e) refl
  ]

  -- A store leaves no more than `n` entries.
  pub length-store_le :
      (n h : ℕ) (c : CachedConv C) (es : Entries C)
      → 1 ≤ n
      → length es ≤ n
      → length (store n h c es) ≤ n
  unfolding store insert
  length-store_le n h c es n1 b =
      let less = length-remove_le h (evict n h es) in
      elim (evict_bound n h es n1 b) [
        | inl here ↦
            let lt = length-remove_lt h es here in rw (evict_kept n h es here) (omega arith)
        | inr room ↦ omega arith
      ]

  module _ (P : ℕ × CachedConv C → Type 0) where
    pub remove-All : (h : ℕ) (es : Entries C) → All P es → All P (remove h es)
    unfolding remove
    remove-All h [] a = a
    remove-All h ((k, c) ∷ es) a =
        let rest = remove-All h es a.1 in
        elim (Bool-cases (k == h)) [ inl p ↦ rw (p) rest | inr p ↦ rw (p) (a.0, rest) ]

    evict-All : (n h : ℕ) (es : Entries C) → All P es → All P (evict n h es)
    unfolding evict oldest
    evict-All n h [] a = elim (Bool-cases (ltb 0 n)) [ inl p ↦ rw (p) a | inr p ↦ rw (p) a ]
    evict-All n h ((k, c) ∷ es) a =
        let rest = remove-All (oldest_from k c.last_used es) ((k, c) ∷ es) a in
        elim (Bool-cases (not (ltb (suc (length es)) n) && not (contains_key h ((k, c) ∷ es)))) [
          | inl p ↦ rw (p) rest
          | inr p ↦ rw (p) a
        ]

    pub store-All :
        (n h : ℕ) (c : CachedConv C) (es : Entries C) → P (h, c) → All P es → All P (store n h c es)
    unfolding store insert
    store-All n h c es new a = (new, remove-All h (evict n h es) (evict-All n h es a))

    pub touch-All :
        (h now : ℕ) (es : Entries C)
        → ((k : ℕ) (c : CachedConv C)
            → P (k, c)
            → P (k, record { conv = c.conv; turn_count = c.turn_count; last_used = now }))
        → All P es
        → All P (touch h now es)
    unfolding touch
    touch-All h now [] renew a = a
    touch-All h now ((k, c) ∷ es) renew a =
        let rest = touch-All h now es renew a.1 in
        elim (Bool-cases (k == h)) [
          | inl p ↦ rw (p) (renew k c a.0, rest)
          | inr p ↦ rw (p) (a.0, rest)
        ]
