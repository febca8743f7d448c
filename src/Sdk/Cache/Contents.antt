-- ===== src/Sdk/Cache/Contents.antt =====
-- A predicate on entries that the steps of a cache keep, one lemma for each step.
use stellar_quorum.Base.{
  ℕ, suc, ◌≡◌, Bool, true, false, Option, none, some, List, [], ◌∷◌, arith, String, All, Bool-cases,
  inl, inr,
}
use stellar_quorum.Sdk.Types.{ReadMethod, ReadCacheConfig, ReadOptions}
use stellar_quorum.Sdk.Cache.Key.{Argument, key}
use stellar_quorum.Sdk.Cache.EntryMap.{Entries, set, All-delete, All-set, All-delete_first}
use stellar_quorum.Sdk.Cache.{
  Entry, ReadCache, max_entries_of, sweep, make_room, reservation, reserve, look_up, evict_if,
  start_read, owns, settle_ok, settle_err, landed, uncached, look_up_if_enabled,
}

module _ {V : Type 0} where
  pub next_token-evict_if :
      (b : Bool) (k : String) (c : ReadCache V) → (evict_if b k c).next_token ≡ c.next_token
  unfolding evict_if
  next_token-evict_if b k c = ground arith

  pub settle_ok_of_owner :
      (now : ℕ) (v : V) (k : String) (token ttl : ℕ) (c : ReadCache V)
      → owns k token c.entries ≡ true
      → settle_ok now v k token ttl c
        ≡ record c { entries = set k (landed now v token ttl) c.entries }
  unfolding settle_ok
  settle_ok_of_owner now v k token ttl c h = rw (settle_ok, h)

  pub settle_ok_of_other :
      (now : ℕ) (v : V) (k : String) (token ttl : ℕ) (c : ReadCache V)
      → owns k token c.entries ≡ false
      → settle_ok now v k token ttl c ≡ c
  unfolding settle_ok
  settle_ok_of_other now v k token ttl c h = rw (settle_ok, h)

  pub settle_err_of_other :
      (k : String) (token : ℕ) (c : ReadCache V)
      → owns k token c.entries ≡ false
      → settle_err k token c ≡ c
  unfolding settle_err
  settle_err_of_other k token c h = rw (settle_err, h)

module _ {V : Type 0} (P : String × Entry V → Type 0) where
  All-sweep : (clock : ℕ → ℕ) (m : Entries (Entry V)) → All P m → All P (sweep clock m)
  unfolding sweep
  All-sweep clock [] h = tt
  All-sweep clock (b ∷ m) h =
      let later = All-sweep (λ n. clock (suc n)) m h.1 in ground (arith, later)

  All-make_room : (n : ℕ) (m : Entries (Entry V)) → All P m → All P (make_room n m)
  unfolding make_room
  All-make_room n m h = let rest = All-delete_first P m h in ground (arith, rest)

  -- What the steps of a cache put into its map are reservations with the next token, and what
  -- the owner of a key puts in its place.
  All-reserve :
      (clock : ℕ → ℕ) (cfg : ReadCacheConfig) (k : String) (m : ReadMethod) (c : ReadCache V)
      → P (k, reservation c.next_token)
      → All P c.entries
      → All P (reserve clock cfg k m c).1.entries
  unfolding reserve
  All-reserve clock cfg k m c p h =
      All-set P k (reservation c.next_token) _ p
        (All-make_room (max_entries_of cfg) _ (All-sweep clock _ (All-delete P k c.entries h)))

  pub All-evict_if :
      (b : Bool) (k : String) (c : ReadCache V) → All P c.entries → All P (evict_if b k c).entries
  unfolding evict_if
  All-evict_if b k c h = let rest = All-delete P k c.entries h in ground (arith, rest)

  All-look_up :
      (clock : ℕ → ℕ) (cfg : ReadCacheConfig) (k : String) (m : ReadMethod) (c : ReadCache V)
      → P (k, reservation c.next_token)
      → All P c.entries
      → All P (look_up clock cfg k m c).1.entries
  unfolding look_up
  All-look_up clock cfg k m c p h =
      let rest = All-reserve (λ n. clock (suc n)) cfg k m c p h in ground (arith, rest)

  All-look_up_if_enabled :
      (clock : ℕ → ℕ) (config : Option ReadCacheConfig) (k : String) (m : ReadMethod)
      (c : ReadCache V)
      → P (k, reservation c.next_token)
      → All P c.entries
      → All P (look_up_if_enabled clock config k m c).1.entries
  All-look_up_if_enabled clock none k m c p h = h
  All-look_up_if_enabled clock (some cfg) k m c p h = All-look_up clock cfg k m c p h

  pub All-start_read :
      (clock : ℕ → ℕ) (m : ReadMethod) (arguments : List Argument) (o : ReadOptions)
      (c : ReadCache V)
      → P (key m arguments, reservation c.next_token)
      → All P c.entries
      → All P (start_read clock m arguments o c).1.entries
  unfolding start_read
  All-start_read clock m arguments o c p h =
      let k = key m arguments in
      let c' = evict_if o.invalidate_cache k c in
      let kept = All-evict_if o.invalidate_cache k c h in
      let e = next_token-evict_if o.invalidate_cache k c in
      let rest = All-look_up_if_enabled clock c.config k m c' (rw e p) kept in
      elim (Bool-cases (uncached c.config m o)) [ inl off ↦ rw off kept | inr on ↦ rw on rest ]

  pub All-settle_ok :
      (now : ℕ) (v : V) (k : String) (token ttl : ℕ) (c : ReadCache V)
      → (owns k token c.entries ≡ true → P (k, landed now v token ttl))
      → All P c.entries
      → All P (settle_ok now v k token ttl c).entries
  All-settle_ok now v k token ttl c p h = elim (Bool-cases (owns k token c.entries)) [
    | inl owner ↦
        rw (settle_ok_of_owner now v k token ttl c owner)
          (All-set P k (landed now v token ttl) c.entries (p owner) h)
    | inr other ↦ rw (settle_ok_of_other now v k token ttl c other) h
  ]

  pub All-settle_err :
      (k : String) (token : ℕ) (c : ReadCache V)
      → All P c.entries
      → All P (settle_err k token c).entries
  unfolding settle_err
  All-settle_err k token c h = let rest = All-delete P k c.entries h in ground (arith, rest)
