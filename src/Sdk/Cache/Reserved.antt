-- ===== src/Sdk/Cache/Reserved.antt =====
-- What a read that makes its own request has put in the cache, in sdk/src/cache.ts.
use text.Mathlib.TextPositions.{eq_refl}
use stellar_quorum.Base.{
  ℕ, suc, ◌+◌, ◌≡◌, Bool, true, false, Option, none, some, List, arith, if◌then◌else◌, String,
  Bool-cases, inl, inr, not, ltb, ap, ◌∙◌, ◌||◌, ◌==◌,
}
use stellar_quorum.Sdk.Types.{ReadMethod, ReadCacheConfig, ReadOptions}
use stellar_quorum.Sdk.Cache.Key.{Argument, key}
use stellar_quorum.Sdk.Cache.EntryMap.{Entries, get, set, get-set}
use stellar_quorum.Sdk.Cache.Contents.{settle_ok_of_owner}
use stellar_quorum.Sdk.Cache.{
  Entry, ReadCache, Started, hit, reserved, reserve, look_up, look_up_if_enabled, evict_if,
  start_read, owns, settle_ok, plain, uncached, fresh, reservation, ttl_for, landed,
}

module _ {V : Type 0} where
  config-evict_if : (b : Bool) (k : String) (c : ReadCache V) → (evict_if b k c).config ≡ c.config
  unfolding evict_if
  config-evict_if b k c = ground arith

  get-reserve :
      (clock : ℕ → ℕ) (cfg : ReadCacheConfig) (k : String) (m : ReadMethod) (c : ReadCache V)
      → get k (reserve clock cfg k m c).1.entries ≡ some (reservation c.next_token)
  unfolding reserve
  get-reserve clock cfg k m c = rw (get-set, eq_refl)

  look_up-reserved :
      (clock : ℕ → ℕ) (cfg : ReadCacheConfig) (k j : String) (m : ReadMethod) (c c' : ReadCache V)
      (token ttl : ℕ)
      → look_up clock cfg k m c ≡ (reserved j token ttl, c')
      → reserve (λ n. clock (suc n)) cfg k m c ≡ (reserved j token ttl, c')
  unfolding look_up
  look_up-reserved clock cfg k j m c c' token ttl h = ground arith

  pub record IsReserved (m : ReadMethod) (k : String) (token ttl : ℕ) (c : ReadCache V)
      : Type 0 where
    cfg : ReadCacheConfig
    configured : c.config ≡ some cfg
    enabled : cfg.enabled ≡ true
    lifetime : ttl ≡ ttl_for m cfg
    lasting : (ttl_for m cfg == 0) ≡ false
    there : get k c.entries ≡ some (reservation token)

  reserve-fields :
      (clock : ℕ → ℕ) (cfg : ReadCacheConfig) (k j : String) (m : ReadMethod) (c c' : ReadCache V)
      (token ttl : ℕ)
      → reserve clock cfg k m c ≡ (reserved j token ttl, c')
      → (k ≡ j) × (c.next_token ≡ token) × (ttl ≡ ttl_for m cfg) × (c'.config ≡ c.config)
  unfolding reserve
  reserve-fields clock cfg k j m c c' token ttl h = ground arith

  reserve-IsReserved :
      (clock : ℕ → ℕ) (cfg : ReadCacheConfig) (k j : String) (m : ReadMethod) (c c' : ReadCache V)
      (token ttl : ℕ)
      → c.config ≡ some cfg
      → (not cfg.enabled || (ttl_for m cfg == 0)) ≡ false
      → reserve clock cfg k m c ≡ (reserved j token ttl, c')
      → (k ≡ j) × IsReserved m k token ttl c'
  reserve-IsReserved clock cfg k j m c c' token ttl configured on h =
      let (same_key, same_token, lifetime, same_config) =
        reserve-fields clock cfg k j m c c' token ttl h in
      let g = rw (ap (λ (p : Started V × ReadCache V). p.1) h) at (get-reserve clock cfg k m c) in
      (
        same_key,
        record {
          cfg = cfg;
          configured = same_config ∙ configured;
          enabled = ground arith;
          lifetime = lifetime;
          lasting = ground arith;
          there = g ∙ ap (λ t. some (reservation t)) same_token;
        },
      )

  look_up_if_enabled-IsReserved :
      (clock : ℕ → ℕ) (config : Option ReadCacheConfig) (k j : String) (m : ReadMethod)
      (o : ReadOptions) (c c' : ReadCache V) (token ttl : ℕ)
      → c.config ≡ config
      → uncached config m o ≡ false
      → look_up_if_enabled clock config k m c ≡ (reserved j token ttl, c')
      → (k ≡ j) × IsReserved m k token ttl c'
  look_up_if_enabled-IsReserved clock none k j m o c c' token ttl same on h = cc
  look_up_if_enabled-IsReserved clock (some cfg) k j m o c c' token ttl same on h =
      reserve-IsReserved (λ n. clock (suc n)) cfg k j m c c' token ttl same (ground arith)
        (look_up-reserved clock cfg k j m c c' token ttl h)

  pub start_read-IsReserved :
      (clock : ℕ → ℕ) (m : ReadMethod) (arguments : List Argument) (o : ReadOptions)
      (c c' : ReadCache V) (k : String) (token ttl : ℕ)
      → start_read clock m arguments o c ≡ (reserved k token ttl, c')
      → (key m arguments ≡ k) × IsReserved m (key m arguments) token ttl c'
  unfolding start_read
  start_read-IsReserved clock m arguments o c c' k token ttl h =
      let d = evict_if o.invalidate_cache (key m arguments) c in
      elim (Bool-cases (uncached c.config m o)) [
        | inl off ↦ absurd (ground arith)
        | inr on ↦
            look_up_if_enabled-IsReserved clock c.config (key m arguments) k m o d c' token ttl
              (config-evict_if o.invalidate_cache (key m arguments) c) on (ground arith)
      ]

  owns-get :
      (k : String) (m : Entries (Entry V)) {e : Entry V}
      → get k m ≡ some e
      → owns k e.token m ≡ true
  unfolding owns
  owns-get k m h = rw h (ground arith)

  pub settled-get :
      (now : ℕ) (v : V) (m : ReadMethod) (k : String) (token ttl : ℕ) (c : ReadCache V)
      → IsReserved m k token ttl c
      → settle_ok now v k token ttl c
        ≡ record c { entries = set k (landed now v token ttl) c.entries }
  settled-get now v m k token ttl c r =
      settle_ok_of_owner now v k token ttl c (owns-get k c.entries r.there)

  pub start_read_settled :
      (later : ℕ → ℕ) (m : ReadMethod) (arguments : List Argument) (now : ℕ) (v : V) (token ttl : ℕ)
      (c : ReadCache V)
      → IsReserved m (key m arguments) token ttl c
      → (start_read later m arguments plain
          (record c { entries = set (key m arguments) (landed now v token ttl) c.entries })).0
        ≡ (if ltb (later 0) (now + ttl)
            then hit (some v)
            else reserved (key m arguments) c.next_token ttl)
  unfolding start_read look_up evict_if fresh reserve
  start_read_settled later m arguments now v token ttl c r =
      let k = key m arguments in
      ground (arith, get-set k k (landed now v token ttl) c.entries, eq_refl k)
