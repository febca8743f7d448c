-- ===== src/Sdk/Cache/Hits.antt =====
-- What a cached value is: one that a request for the same key gave, until it expires.
use stellar_quorum.Base.{
  ℕ, ◌+◌, ◌≡◌, refl, false, Option, none, some, List, [], ◌∷◌, arith, if◌then◌else◌, String, All,
  Bool-cases, inl, inr, ltb, sym, ◌∙◌,
}
use stellar_quorum.Base.Result.{ok}
use stellar_quorum.Sdk.Types.{ReadMethod, ReadCacheConfig, ReadOptions}
use stellar_quorum.Sdk.Cache.Key.{Argument, key}
use stellar_quorum.Sdk.Cache.EntryMap.{get, All-delete, All-keep, get-All}
use stellar_quorum.Sdk.Cache.Contents.{All-start_read, All-settle_ok, All-settle_err, All-evict_if}
use stellar_quorum.Sdk.Cache.Actions.{
  Action, start, succeed, fail, clear, drop_method, drop_key, perform, run,
}
use stellar_quorum.Sdk.Cache.{
  Entry, ReadCache, hit, reserved, reserve, look_up, look_up_if_enabled, evict_if, start_read,
  settle_ok, invalidate_all, invalidate_method, invalidate_key, not_of_method, plain, uncached,
  new_cache, fresh, landed,
}
use stellar_quorum.Sdk.Cache.Reserved.{start_read-IsReserved, settled-get, start_read_settled}

module _ {V : Type 0} (Good : String → V → Type 0) where
  -- The values that requests gave are good for their keys.
  abbrev pub Supplies : Action V → Type 0
  Supplies (succeed now v k token ttl) = Good k v
  Supplies _ = Unit

  abbrev Filled : String × Entry V → Type 0
  Filled b = b.1.pending ≡ false → (v : V) × (b.1.value ≡ some v) × Good b.0 v

  Filled-perform :
      (a : Action V) (c : ReadCache V)
      → Supplies a
      → All Filled c.entries
      → All Filled (perform a c).entries
  unfolding invalidate_all invalidate_method invalidate_key
  Filled-perform (start clock m arguments o) c s h =
      All-start_read Filled clock m arguments o c (λ p. cc) h
  Filled-perform (succeed now v k token ttl) c s h =
      All-settle_ok Filled now v k token ttl c (λ _ _. (v, refl, s)) h
  Filled-perform (fail k token) c s h = All-settle_err Filled k token c h
  Filled-perform clear c s h = tt
  Filled-perform (drop_method m) c s h = All-keep Filled (not_of_method m) c.entries h
  Filled-perform (drop_key m arguments) c s h = All-delete Filled (key m arguments) c.entries h

  Filled-run :
      (actions : List (Action V)) (c : ReadCache V)
      → All Supplies actions
      → All Filled c.entries
      → All Filled (run actions c).entries
  unfolding run
  Filled-run [] c s h = h
  Filled-run (a ∷ more) c s h = Filled-run more (perform a c) s.1 (Filled-perform a c s.0 h)

  new_cache-Filled :
      (config : Option ReadCacheConfig) (c : ReadCache V)
      → new_cache config ≡ ok c
      → All Filled c.entries
  unfolding new_cache
  new_cache-Filled none c h = let e : c.entries ≡ [] = ground arith in rw e tt
  new_cache-Filled (some cfg) c h = let e : c.entries ≡ [] = ground arith in rw e tt

  hit-get :
      (clock : ℕ → ℕ) (cfg : ReadCacheConfig) (k : String) (m : ReadMethod) (c c' : ReadCache V)
      (r : Option V)
      → look_up clock cfg k m c ≡ (hit r, c')
      → (e : Entry V) × (get k c.entries ≡ some e) × (e.pending ≡ false) × (e.value ≡ r)
  unfolding look_up fresh reserve
  hit-get clock cfg k m c c' r h = ground arith

  look_up_if_enabled-hit :
      (clock : ℕ → ℕ) (config : Option ReadCacheConfig) (k : String) (m : ReadMethod)
      (c c' : ReadCache V) (r : Option V)
      → look_up_if_enabled clock config k m c ≡ (hit r, c')
      → (e : Entry V) × (get k c.entries ≡ some e) × (e.pending ≡ false) × (e.value ≡ r)
  look_up_if_enabled-hit clock none k m c c' r h = cc
  look_up_if_enabled-hit clock (some cfg) k m c c' r h = hit-get clock cfg k m c c' r h

  start_read-hit :
      (clock : ℕ → ℕ) (m : ReadMethod) (arguments : List Argument) (o : ReadOptions)
      (c c' : ReadCache V) (r : Option V)
      → start_read clock m arguments o c ≡ (hit r, c')
      → (e : Entry V) × (get
            (key m arguments)
            (evict_if o.invalidate_cache (key m arguments) c).entries
          ≡ some e)
        × (e.pending ≡ false)
        × (e.value ≡ r)
  unfolding start_read
  start_read-hit clock m arguments o c c' r h =
      let k = key m arguments in
      elim (Bool-cases (uncached c.config m o)) [
        | inl off ↦ ground arith
        | inr on ↦
            look_up_if_enabled-hit clock c.config k m (evict_if o.invalidate_cache k c) c' r
              (ground arith)
      ]

  -- Start from any accepted cache and let anything happen, in any order. If every value that a
  -- request gave is good for its key, then a read that is answered from the cache returns a value,
  -- and that value is good for the key of the read.
  pub hit-Good :
      (config : Option ReadCacheConfig) (c d : ReadCache V) (actions : List (Action V))
      (clock : ℕ → ℕ) (m : ReadMethod) (arguments : List Argument) (o : ReadOptions) (r : Option V)
      → new_cache config ≡ ok c
      → All Supplies actions
      → start_read clock m arguments o (run actions c) ≡ (hit r, d)
      → (v : V) × (r ≡ some v) × Good (key m arguments) v
  hit-Good config c d actions clock m arguments o r made supplied h =
      let (e, there, landed, same) = start_read-hit clock m arguments o (run actions c) d r h in
      let k = key m arguments in
      let filled = Filled-run actions c supplied (new_cache-Filled config c made) in
      let kept = All-evict_if Filled o.invalidate_cache k (run actions c) filled in
      let (v, holds, good) = get-All Filled k _ there kept landed in (v, sym same ∙ holds, good)

module _ {V : Type 0} where
  -- A value that was stored for a key is what reads of the key return up to its expiry, and the
  -- first read from then on makes a new request.
  pub read_after_settle_ok :
      (clock later : ℕ → ℕ) (m : ReadMethod) (arguments : List Argument) (o : ReadOptions)
      (c c' : ReadCache V) (k : String) (token ttl now : ℕ) (v : V)
      → start_read clock m arguments o c ≡ (reserved k token ttl, c')
      → (start_read later m arguments plain (settle_ok now v k token ttl c')).0
        ≡ (if ltb (later 0) (now + ttl) then hit (some v) else reserved k c'.next_token ttl)
  read_after_settle_ok clock later m arguments o c c' k token ttl now v h =
      let (same_key, r) = start_read-IsReserved clock m arguments o c c' k token ttl h in
      rw (← same_key, settled-get now v m (key m arguments) token ttl c' r)
        (start_read_settled later m arguments now v token ttl c' r)
