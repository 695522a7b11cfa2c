-- ===== src/Cache/Slot/Choice.antt =====
-- model_api_server/src/litertlm_slot.rs: which cached conversation a request gets.
use chitin_model_api.Cache.Slot.{pinned, is_hit, longest, choose}
use chitin_model_api.Cache.Store.{CachedConv, Entries, get, is_fresh}
use chitin_model_api.Prelude.Lists.{length, take}
use chitin_model_api.Prelude.Tests.{
  leb, ◌==◌, if◌then◌else◌, ==_iff, Bool-cases, Option-cases, leb→le,
}
use chitin_model_api.Prelude.{
  ℕ, zero, suc, ◌≤◌, ◌<◌, ◌≡◌, refl, ◌∙◌, Bool, true, false, ◌&&◌, List, Option, none, some, arith,
  inl, inr,
}
use chitin_model_api.Proto.{Turn}

passed :
    (a b c : Bool) (x y : ℕ × ℕ)
    → (if (a && b) && c then some x else none) ≡ some y
    → (a ≡ true) × (b ≡ true) × (c ≡ true) × (x ≡ y)
passed true true true x y e = (refl, refl, refl, cc)
passed true true false x y e = cc
passed true false c x y e = cc
passed false b c x y e = cc

module _ {C : Type 0} (key : List Turn → ℕ) (ttl now : ℕ) (cache : Entries C) (ts : List Turn) where
  -- An entry that stands for the first `n` turns.
  abbrev pub Serves : ℕ × ℕ → Type 0
  Serves found =
      (found.1 ≤ length ts)
      × (key (take found.1 ts) ≡ found.0)
      × ((c : CachedConv C) × (get found.0 cache ≡ some c) × (is_fresh ttl now c ≡ true))

  is_hit-entry :
      (n : ℕ)
      → is_hit key ttl now cache ts n ≡ true
      → (c : CachedConv C) × (get (key (take n ts)) cache ≡ some c) × (is_fresh ttl now c ≡ true)
  unfolding is_hit
  is_hit-entry n h = elim (Option-cases (get (key (take n ts)) cache)) [
    | inl e ↦ cc
    | inr (c, e) ↦ (c, e, (rw (e, is_hit) at h))
  ]

  longest-Serves :
      (n : ℕ) (found : ℕ × ℕ)
      → n ≤ length ts
      → longest key ttl now cache ts n ≡ some found
      → Serves found
  unfolding longest
  longest-Serves zero found b e = elim (Bool-cases (is_hit key ttl now cache ts zero)) [
    | inl p ↦
        let q : some (key (take zero ts), zero) ≡ some found = rw p at e in
        let same : (key (take zero ts), zero) ≡ found = cc q in
        rw (← same) (b, refl, is_hit-entry zero p)
    | inr p ↦ let none_found : none ≡ some found = (rw p at e) in cc
  ]
  longest-Serves (suc n) found b e =
      let below = longest-Serves n found (omega arith) in
      elim (Bool-cases (is_hit key ttl now cache ts (suc n))) [
        | inl p ↦
            let q : some (key (take (suc n) ts), suc n) ≡ some found = rw p at e in
            let same : (key (take (suc n) ts), suc n) ≡ found = cc q in
            rw (← same) (b, refl, is_hit-entry (suc n) p)
        | inr p ↦ below (rw p at e)
      ]

  -- No longer prefix is a hit.
  longest_maximal :
      (n m : ℕ) (found : ℕ × ℕ)
      → longest key ttl now cache ts n ≡ some found
      → found.1 < m
      → m ≤ n
      → is_hit key ttl now cache ts m ≡ false
  unfolding longest
  longest_maximal zero m found e lt le = elim (Bool-cases (is_hit key ttl now cache ts zero)) [
    | inl p ↦
        let q : some (key (take zero ts), zero) ≡ some found = rw p at e in
        let eq : zero ≡ found.1 = cc q in absurd (omega arith)
    | inr p ↦ let q : none ≡ some found = rw p at e in cc q
  ]
  longest_maximal (suc n) m found e lt le =
      let below = longest_maximal n m found in
      elim (Bool-cases (is_hit key ttl now cache ts (suc n))) [
        | inl p ↦
            let q : some (key (take (suc n) ts), suc n) ≡ some found = rw p at e in
            let eq : suc n ≡ found.1 = cc q in absurd (omega arith)
        | inr p ↦ elim (Bool-cases (m == suc n)) [
          | inl same ↦ rw ((==_iff m (suc n)).0 same) p
          | inr other ↦ below (rw p at e) lt (ground arith)
        ]
      ]

  entry-Serves :
      (h : ℕ) (c : CachedConv C) (found : ℕ × ℕ)
      → get h cache ≡ some c
      → (if (is_fresh ttl now c && leb c.turn_count (length ts))
            && (key (take c.turn_count ts) == h)
          then some (h, c.turn_count)
          else none)
        ≡ some found
      → Serves found
  entry-Serves h c found here q =
      let (live, fits, verified, same) =
        passed (is_fresh ttl now c) (leb c.turn_count (length ts)) (key (take c.turn_count ts) == h)
          (h, c.turn_count) found q in
      rw (← same) (
        leb→le c.turn_count (length ts) fits,
        (==_iff (key (take c.turn_count ts)) h).0 verified,
        (c, here, live),
      )

  pinned-Serves :
      (pin : Option ℕ) (found : ℕ × ℕ) → pinned key ttl now cache ts pin ≡ some found → Serves found
  unfolding pinned
  pinned-Serves none found e = cc
  pinned-Serves (some h) found e = elim (Option-cases (get h cache)) [
    | inl gone ↦ let q : none ≡ some found = rw (gone, pinned) at e in cc q
    | inr (c, here) ↦ entry-Serves h c found here (rw (here, pinned) at e)
  ]

  -- What a request is served with is an entry of its own first turns that has not expired.
  pub choose-Serves :
      (pin : Option ℕ) (found : ℕ × ℕ) → choose key ttl now cache ts pin ≡ some found → Serves found
  unfolding choose
  choose-Serves pin found e = elim (Option-cases (pinned key ttl now cache ts pin)) [
    | inl none_pinned ↦
        longest-Serves (length ts) found (omega arith) (rw (none_pinned, choose) at e)
    | inr (p, here) ↦
        let q : some p ≡ some found = rw (here, choose) at e in pinned-Serves pin found (here ∙ q)
  ]

  -- Without a pin that holds, no longer prefix of the turns has a live entry.
  pub choose_longest :
      (pin : Option ℕ) (found : ℕ × ℕ) (m : ℕ)
      → pinned key ttl now cache ts pin ≡ none
      → choose key ttl now cache ts pin ≡ some found
      → found.1 < m
      → m ≤ length ts
      → is_hit key ttl now cache ts m ≡ false
  unfolding choose
  choose_longest pin found m none_pinned e lt le =
      longest_maximal (length ts) m found (rw (none_pinned, choose) at e) lt le
