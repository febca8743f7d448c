-- ===== src/Sdk/Cache.antt =====
-- sdk/src/cache.ts: the client's read cache.
-- `ReadCache.read` waits for its request in the middle, so it is two steps here: `start_read` runs
-- up to the request, and `settle_ok` or `settle_err` runs what follows it. Other reads and
-- invalidations may come between them. An entry is one shared object of the source; its identity is
-- the `token` that it got when it was reserved.
pub mod Key
pub mod EntryMap
pub mod Actions
pub mod Bounds
pub mod Contents
pub mod Freshness
pub mod Reserved
pub mod Hits
pub mod Methods
mod Tests
use stellar_quorum.Base.{
  ℕ, zero, suc, ◌+◌, String, Bool, true, false, not, ◌&&◌, ◌||◌, Option, none, some, List, [], ◌∷◌,
  map, if◌then◌else◌, ltb, leb, ◌==◌, get_or, or_else, keep, length,
}
use stellar_quorum.Base.Number.{Number, nat, is_whole, is_finite_nonneg, ceiling}
use stellar_quorum.Base.Result.{Result, ok, err, ◌>>=◌, ◌>>◌, throw_if}
use stellar_quorum.Base.Text.{has_prefix}
use stellar_quorum.Sdk.Types.{ReadMethod, ReadCacheConfig, ReadOptions}
use stellar_quorum.Sdk.Errors.{Thrown, instance_of, error}
use Key.{Argument, key, method_prefix, method_index}
use EntryMap.{Entries, get, set, delete, delete_first}

pub record Entry (V : Type 0) : Type 0 where
  pub token : ℕ
  pub expires_at : ℕ
  pub value : Option V
  pub pending : Bool

-- `next_token` is the identity that the next entry object gets.
pub record ReadCache (V : Type 0) : Type 0 where
  pub config : Option ReadCacheConfig
  pub entries : Entries (Entry V)
  pub next_token : ℕ

abbrev pub default_ttl : Number
default_ttl = nat 5000

abbrev pub default_max_entries : Number
default_max_entries = nat 1000

-- The guard of the constructor's loop, over `ttlMs` and every `methodTtlMs`.
unfoldable pub check_ttls : List Number → Result Thrown (Unit {0})
check_ttls [] = ok tt
check_ttls (ttl ∷ ttls) = do
  throw_if (not (is_finite_nonneg ttl))
      (instance_of error "Cache TTL must be a finite non-negative number")
  check_ttls ttls

abbrev at_least_one : Number → Bool
at_least_one n = is_whole n && leb 1 (ceiling n)

unfoldable pub check_config : ReadCacheConfig → Result Thrown (Unit {0})
unfolding check_ttls
check_config c = if not c.enabled then ok tt else do
  check_ttls (get_or c.ttl_ms default_ttl ∷ map (λ b. b.1) c.method_ttl_ms)
  throw_if (not (at_least_one (get_or c.max_entries default_max_entries)))
      (instance_of error "Cache maxEntries must be a positive integer")

-- `new ReadCache(config)`
unfoldable pub new_cache : {V : Type 0} → Option ReadCacheConfig → Result Thrown (ReadCache V)
unfolding check_config
new_cache config = do
  elim config [ none ↦ ok tt | some c ↦ check_config c ]
  ok (record { config = config; entries = []; next_token = 0 })

-- `config.methodTtlMs[method]`
unfoldable pub method_ttl : ReadMethod → List (ReadMethod × Number) → Option Number
method_ttl m [] = none
method_ttl m ((n, ttl) ∷ ttls) =
    if method_index n == method_index m then some ttl else method_ttl m ttls

unfoldable pub ttl_for : ReadMethod → ReadCacheConfig → ℕ
unfolding method_ttl
ttl_for m c = ceiling (get_or (or_else (method_ttl m c.method_ttl_ms) c.ttl_ms) default_ttl)

abbrev pub max_entries_of : ReadCacheConfig → ℕ
max_entries_of c = ceiling (get_or c.max_entries default_max_entries)

-- What a call of `read` does next: it waits for its own request and stores nothing, it returns a
-- cached value, or it waits for its request with an entry reserved.
pub data Started (V : Type 0) : Type 0 where
  request_only : Started V
  hit : Option V → Started V
  reserved : String → ℕ → ℕ → Started V

-- `options` left out
abbrev pub plain : ReadOptions
plain = record { bypass_cache = false; invalidate_cache = false }

-- The tests before the first access of the map.
abbrev pub uncached : Option ReadCacheConfig → ReadMethod → ReadOptions → Bool
uncached none m o = true
uncached (some c) m o = not c.enabled || o.bypass_cache || ttl_for m c == 0

module _ {V : Type 0} where
  -- `hit && !hit.pending && hit.expiresAt > Date.now()`
  unfoldable pub fresh : ℕ → Entry V → Bool
  fresh now e = not e.pending && ltb now e.expires_at

  -- The loop that drops what has expired; `clock` gives the readings of `Date.now()` in order.
  unfoldable pub sweep : (ℕ → ℕ) → Entries (Entry V) → Entries (Entry V)
  sweep clock [] = []
  sweep clock ((k, e) ∷ m) =
      let rest = sweep (λ n. clock (suc n)) m in
      if not e.pending && leb e.expires_at (clock 0) then rest else (k, e) ∷ rest

  unfoldable pub make_room : ℕ → Entries (Entry V) → Entries (Entry V)
  make_room limit m = if leb limit (length m) then delete_first m else m

  abbrev pub reservation : ℕ → Entry V
  reservation token = record { token = token; expires_at = 0; value = none; pending = true }

  -- `read` from the miss to the request. The old entry of the key is gone from `m`.
  unfoldable pub reserve :
      (ℕ → ℕ) → ReadCacheConfig → String → ReadMethod → ReadCache V → Started V × ReadCache V
  unfolding sweep make_room
  reserve clock c k m cache = (
    reserved k cache.next_token (ttl_for m c),
    record cache {
      entries =
          set k (reservation cache.next_token)
            (make_room (max_entries_of c) (sweep clock (delete k cache.entries)));
      next_token = suc cache.next_token;
    },
  )

  unfoldable pub look_up :
      (ℕ → ℕ) → ReadCacheConfig → String → ReadMethod → ReadCache V → Started V × ReadCache V
  unfolding fresh reserve
  look_up clock c k m cache = elim (get k cache.entries) [
    | none ↦ reserve (λ n. clock (suc n)) c k m cache
    | some e ↦
        if fresh (clock 0) e then (hit e.value, cache) else reserve (λ n. clock (suc n)) c k m cache
  ]

  -- `if (options?.invalidateCache) this.entries.delete(key)`
  unfoldable pub evict_if : Bool → String → ReadCache V → ReadCache V
  evict_if b k cache = if b then record cache { entries = delete k cache.entries } else cache

  abbrev pub look_up_if_enabled :
      (ℕ → ℕ) → Option ReadCacheConfig → String → ReadMethod → ReadCache V → Started V × ReadCache V
  look_up_if_enabled clock none k m cache = (request_only, cache)
  look_up_if_enabled clock (some c) k m cache = look_up clock c k m cache

  -- `read` up to the request.
  unfoldable pub start_read :
      (ℕ → ℕ) → ReadMethod → List Argument → ReadOptions → ReadCache V → Started V × ReadCache V
  start_read clock m arguments o cache =
      let k = key m arguments in
      let cache' = evict_if o.invalidate_cache k cache in
      if uncached cache.config m o
      then (request_only, cache')
      else look_up_if_enabled clock cache.config k m cache'

  -- The entry object once its request gave `value`.
  abbrev pub landed : ℕ → V → ℕ → ℕ → Entry V
  landed now value token ttl = record {
    token = token;
    expires_at = now + ttl;
    value = some value;
    pending = false;
  }

  abbrev is_owner : ℕ → Option (Entry V) → Bool
  is_owner token none = false
  is_owner token (some e) = e.token == token

  -- `this.entries.get(key) === entry`
  unfoldable pub owns : String → ℕ → Entries (Entry V) → Bool
  owns k token m = is_owner token (get k m)

  -- `read` after the request gave `value`, at the time `now`.
  unfoldable pub settle_ok : ℕ → V → String → ℕ → ℕ → ReadCache V → ReadCache V
  settle_ok now value k token ttl cache =
      if owns k token cache.entries
      then record cache { entries = set k (landed now value token ttl) cache.entries }
      else cache

  -- `read` after the request failed.
  unfoldable pub settle_err : String → ℕ → ReadCache V → ReadCache V
  settle_err k token cache =
      if owns k token cache.entries
      then record cache { entries = delete k cache.entries }
      else cache

  abbrev not_of_method : ReadMethod → String × Entry V → Bool
  not_of_method m b = not (has_prefix (method_prefix m) b.0)

  -- `invalidate()`, `invalidate(method)` and `invalidate(method, args)`
  unfoldable pub invalidate_all : ReadCache V → ReadCache V
  invalidate_all cache = record cache { entries = [] }

  unfoldable pub invalidate_method : ReadMethod → ReadCache V → ReadCache V
  invalidate_method m cache = record cache { entries = keep (not_of_method m) cache.entries }

  unfoldable pub invalidate_key : ReadMethod → List Argument → ReadCache V → ReadCache V
  invalidate_key m arguments cache = record cache {
    entries = delete (key m arguments) cache.entries;
  }
