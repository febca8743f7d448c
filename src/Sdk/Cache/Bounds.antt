-- ===== src/Sdk/Cache/Bounds.antt =====
-- The cache never holds more entries than it was configured for.
use stellar_quorum.Base.{
  ℕ, suc, ◌≤◌, ◌≡◌, true, Option, none, some, List, [], ◌∷◌, arith, length, length-keep,
  if◌then◌else◌, ◌+◌, Option-cases, inl, inr, String,
}
use stellar_quorum.Base.Result.{ok}
use stellar_quorum.Sdk.Types.{ReadMethod, ReadCacheConfig, ReadOptions}
use stellar_quorum.Sdk.Cache.Key.{Argument, key}
use stellar_quorum.Sdk.Cache.EntryMap.{
  Entries, get, delete, length-delete, length-set, length-set_old, length-delete_first,
}
use stellar_quorum.Sdk.Cache.Actions.{
  Action, start, succeed, fail, clear, drop_method, drop_key, perform, run, run_induction,
}
use stellar_quorum.Sdk.Cache.{
  Entry, ReadCache, max_entries_of, new_cache, sweep, make_room, reservation, reserve, look_up,
  evict_if, start_read, owns, settle_ok, settle_err, invalidate_all, invalidate_method,
  invalidate_key, not_of_method, landed,
}

-- A cache that is not enabled may hold nothing.
abbrev pub limit_of : ReadCacheConfig → ℕ
limit_of c = if c.enabled then max_entries_of c else 0

abbrev pub limit : Option ReadCacheConfig → ℕ
limit none = 0
limit (some c) = limit_of c

-- What the constructor has checked.
abbrev Accepted : Option ReadCacheConfig → Type 0
Accepted none = Unit
Accepted (some c) = c.enabled ≡ true → 1 ≤ max_entries_of c

module _ {V : Type 0} where
  record IsBounded (config : Option ReadCacheConfig) (c : ReadCache V) : Type 0 where
    same : c.config ≡ config
    fits : length c.entries ≤ limit config

  length-sweep : (clock : ℕ → ℕ) (m : Entries (Entry V)) → length (sweep clock m) ≤ length m
  unfolding sweep
  length-sweep clock [] = omega arith
  length-sweep clock ((k, e) ∷ m) = ground (arith, length-sweep (λ n. clock (suc n)) m)

  length-make_room :
      (n : ℕ) (m : Entries (Entry V)) → 1 ≤ n → length m ≤ n → length (make_room n m) + 1 ≤ n
  unfolding make_room
  length-make_room n m h fits = ground (arith, length-delete_first m)

  reserve-IsBounded :
      (clock : ℕ → ℕ) (cfg : ReadCacheConfig) (k : String) (m : ReadMethod) (c : ReadCache V)
      → Accepted (some cfg)
      → cfg.enabled ≡ true
      → IsBounded (some cfg) c
      → IsBounded (some cfg) (reserve clock cfg k m c).1
  reserve-IsBounded clock cfg k m c ready on b =
      let n = max_entries_of cfg in
      let kept = sweep clock (delete k c.entries) in
      let small : length c.entries ≤ n = rw on at b.fits in
      let swept : length kept ≤ n =
        omega (arith, length-sweep clock (delete k c.entries), length-delete k c.entries) in
      record {
        same = unfold reserve in b.same;
        fits =
            unfold reserve in
            rw on (
              omega (
                arith,
                length-make_room n kept (ready on) swept,
                length-set k (reservation c.next_token) (make_room n kept),
              ));
      }

  look_up-IsBounded :
      (clock : ℕ → ℕ) (cfg : ReadCacheConfig) (k : String) (m : ReadMethod) (c : ReadCache V)
      → Accepted (some cfg)
      → cfg.enabled ≡ true
      → IsBounded (some cfg) c
      → IsBounded (some cfg) (look_up clock cfg k m c).1
  unfolding look_up
  look_up-IsBounded clock cfg k m c ready on b =
      ground (arith, reserve-IsBounded (λ n. clock (suc n)) cfg k m c ready on b)

  start_read-IsBounded :
      (clock : ℕ → ℕ) (m : ReadMethod) (arguments : List Argument) (o : ReadOptions)
      (config : Option ReadCacheConfig) (c : ReadCache V)
      → Accepted config
      → IsBounded config c
      → IsBounded config (start_read clock m arguments o c).1
  unfolding start_read evict_if
  start_read-IsBounded clock m arguments o none c ready b =
      ground (arith, length-delete (key m arguments) c.entries)
  start_read-IsBounded clock m arguments o (some cfg) c ready b =
      let k = key m arguments in
      let c' = evict_if o.invalidate_cache k c in
      ground (arith, b.same, length-delete k c.entries, look_up-IsBounded clock cfg k m c' ready)

  settle_ok-IsBounded :
      (now : ℕ) (v : V) (k : String) (token ttl : ℕ) (config : Option ReadCacheConfig)
      (c : ReadCache V)
      → IsBounded config c
      → IsBounded config (settle_ok now v k token ttl c)
  unfolding settle_ok owns
  settle_ok-IsBounded now v k token ttl config c b = elim (Option-cases (get k c.entries)) [
    | inl absent ↦ rw (settle_ok, absent) b
    | inr (e, there) ↦
        ground (arith, there, length-set_old k (landed now v token ttl) e c.entries there)
  ]

  settle_err-IsBounded :
      (k : String) (token : ℕ) (config : Option ReadCacheConfig) (c : ReadCache V)
      → IsBounded config c
      → IsBounded config (settle_err k token c)
  unfolding settle_err
  settle_err-IsBounded k token config c b = ground (arith, length-delete k c.entries)

  perform-IsBounded :
      (config : Option ReadCacheConfig)
      → Accepted config
      → (a : Action V) (c : ReadCache V) → IsBounded config c
      → IsBounded config (perform a c)
  unfolding invalidate_all invalidate_method invalidate_key
  perform-IsBounded config ready (start clock m arguments o) c b =
      start_read-IsBounded clock m arguments o config c ready b
  perform-IsBounded config ready (succeed now v k token ttl) c b =
      settle_ok-IsBounded now v k token ttl config c b
  perform-IsBounded config ready (fail k token) c b = settle_err-IsBounded k token config c b
  perform-IsBounded config ready clear c b = record { same = b.same; fits = omega arith }
  perform-IsBounded config ready (drop_method m) c b = record {
    same = b.same;
    fits = omega (arith, length-keep (not_of_method m) c.entries);
  }
  perform-IsBounded config ready (drop_key m arguments) c b = record {
    same = b.same;
    fits = omega (arith, length-delete (key m arguments) c.entries);
  }

  new_cache-Accepted :
      (config : Option ReadCacheConfig) (c : ReadCache V)
      → new_cache config ≡ ok c
      → Accepted config × IsBounded config c
  unfolding new_cache
  new_cache-Accepted none c h = ground arith
  new_cache-Accepted (some cfg) c h = ground arith

  -- Whatever reads start, succeed and fail and whatever is invalidated, in any order, an accepted
  -- cache holds at most `maxEntries` entries, and none if it is not enabled.
  pub length-run-le-limit :
      (config : Option ReadCacheConfig) (c : ReadCache V) (actions : List (Action V))
      → new_cache config ≡ ok c
      → length (run actions c).entries ≤ limit config
  length-run-le-limit config c actions h =
      let (ready, b) = new_cache-Accepted config c h in
      (run_induction (IsBounded config) (perform-IsBounded config ready) actions c b).fits
