-- ===== src/Sdk/Cache/Freshness.antt =====
-- A read that was in flight when its key was invalidated never puts its value in the cache.
use stellar_quorum.Base.{
  ℕ, suc, ◌≤◌, ◌<◌, ◌≡◌, ◌≢◌, refl, true, false, some, List, arith, String, All, All-impl,
  Bool-cases, inl, inr,
}
use stellar_quorum.Sdk.Types.{ReadMethod, ReadCacheConfig, ReadOptions}
use stellar_quorum.Sdk.Cache.Key.{Argument, key}
use stellar_quorum.Sdk.Cache.EntryMap.{
  Entries, get, delete, All-delete, All-keep, get-All, delete-All_ne,
}
use stellar_quorum.Sdk.Cache.Contents.{
  All-start_read, All-settle_ok, All-settle_err, settle_ok_of_other, settle_err_of_other,
}
use stellar_quorum.Sdk.Cache.Actions.{
  Action, start, succeed, fail, clear, drop_method, drop_key, perform, run, run_induction,
}
use stellar_quorum.Sdk.Cache.{
  Entry, ReadCache, reserved, reserve, look_up, evict_if, start_read, owns, settle_ok, settle_err,
  invalidate_all, invalidate_method, invalidate_key, not_of_method,
}

-- Where the entry stands at `k`, its token is not below `n`.
abbrev Later : {V : Type 0} → ℕ → String → String × Entry V → Type 0
Later n k b = b.0 ≡ k → n ≤ b.1.token

module _ {V : Type 0} where
  owns-token :
      (k : String) (token : ℕ) (m : Entries (Entry V))
      → owns k token m ≡ true
      → (e : Entry V) × (get k m ≡ some e) × (e.token ≡ token)
  unfolding owns
  owns-token k token m h = ground arith

  Later-owns :
      (n token : ℕ) (k j : String) (m : Entries (Entry V))
      → All (Later n k) m
      → owns j token m ≡ true
      → j ≡ k
      → n ≤ token
  Later-owns n token k j m h owner same =
      let (e, there, token_eq) = owns-token j token m owner in
      let bound : n ≤ e.token = get-All (Later n k) j m there h same in omega arith

  record IsLater (n : ℕ) (k : String) (c : ReadCache V) : Type 0 where
    recent : All (Later n k) c.entries
    ahead : n ≤ c.next_token

  next_token-reserve :
      (clock : ℕ → ℕ) (cfg : ReadCacheConfig) (k : String) (m : ReadMethod) (c : ReadCache V)
      → (reserve clock cfg k m c).1.next_token ≡ suc c.next_token
  unfolding reserve
  next_token-reserve clock cfg k m c = refl

  next_token-start_read :
      (clock : ℕ → ℕ) (m : ReadMethod) (arguments : List Argument) (o : ReadOptions)
      (c : ReadCache V)
      → c.next_token ≤ (start_read clock m arguments o c).1.next_token
  unfolding start_read look_up evict_if reserve
  next_token-start_read clock m arguments o c = ground arith

  -- Tokens are never handed out twice.
  next_token-perform : (a : Action V) (c : ReadCache V) → c.next_token ≤ (perform a c).next_token
  unfolding settle_ok settle_err invalidate_all invalidate_method invalidate_key
  next_token-perform (start clock m arguments o) c = next_token-start_read clock m arguments o c
  next_token-perform (succeed now v k token ttl) c = ground arith
  next_token-perform _ c = ground arith

  next_token-run :
      (actions : List (Action V)) (c : ReadCache V) → c.next_token ≤ (run actions c).next_token
  next_token-run actions c =
      run_induction (λ d. c.next_token ≤ d.next_token)
        (λ a d h. omega (arith, next_token-perform a d)) actions c (omega arith)

  recent-perform :
      (n : ℕ) (k : String) (a : Action V) (c : ReadCache V)
      → IsLater n k c
      → All (Later n k) (perform a c).entries
  unfolding invalidate_all invalidate_method invalidate_key
  recent-perform n k (start clock m arguments o) c h =
      All-start_read (Later n k) clock m arguments o c (λ _. h.ahead) h.recent
  recent-perform n k (succeed now v j token ttl) c h =
      All-settle_ok (Later n k) now v j token ttl c (Later-owns n token k j c.entries h.recent)
        h.recent
  recent-perform n k (fail j token) c h = All-settle_err (Later n k) j token c h.recent
  recent-perform n k clear c h = tt
  recent-perform n k (drop_method m) c h = All-keep (Later n k) (not_of_method m) c.entries h.recent
  recent-perform n k (drop_key m arguments) c h =
      All-delete (Later n k) (key m arguments) c.entries h.recent

  IsLater-run :
      (n : ℕ) (k : String) (actions : List (Action V)) (c : ReadCache V)
      → IsLater n k c
      → IsLater n k (run actions c)
  IsLater-run n k actions c h =
      run_induction (IsLater n k)
        (λ a d i. record {
          recent = recent-perform n k a d i;
          ahead = omega (arith, i.ahead, next_token-perform a d);
        })
        actions c h

  Later-delete : (n : ℕ) (k : String) (m : Entries (Entry V)) → All (Later n k) (delete k m)
  Later-delete n k m =
      All-impl (λ b. b.0 ≢ k) (Later n k) (λ b ne e. absurd (ne e)) (delete k m) (delete-All_ne k m)

  owns_old :
      (n token : ℕ) (k : String) (c : ReadCache V)
      → IsLater n k c
      → token < n
      → owns k token c.entries ≡ false
  owns_old n token k c h old = elim (Bool-cases (owns k token c.entries)) [
    | inl owner ↦ absurd (omega (arith, Later-owns n token k k c.entries h.recent owner refl))
    | inr other ↦ other
  ]

  IsLater-invalidate_key :
      (m : ReadMethod) (arguments : List Argument) (c : ReadCache V)
      → IsLater c.next_token (key m arguments) (invalidate_key m arguments c)
  unfolding invalidate_key
  IsLater-invalidate_key m arguments c = record {
    recent = Later-delete c.next_token (key m arguments) c.entries;
    ahead = omega arith;
  }

  reserved-token :
      (clock : ℕ → ℕ) (m : ReadMethod) (arguments : List Argument) (o : ReadOptions)
      (c c' : ReadCache V) {k : String} {token ttl : ℕ}
      → start_read clock m arguments o c ≡ (reserved k token ttl, c')
      → (k ≡ key m arguments) × (token < c'.next_token)
  unfolding start_read look_up evict_if reserve
  reserved-token clock m arguments o c c' h = ground arith

  -- A read reserves an entry; then anything happens (`before`), its key is invalidated, and anything
  -- happens again (`after`). When its request at last succeeds or fails, the cache stays as it is:
  -- the value of a read that was in flight when its key was invalidated is never stored, and it
  -- does not remove the entry of a newer read.
  pub invalidated_read_changes_nothing :
      (clock : ℕ → ℕ) (m : ReadMethod) (arguments : List Argument) (o : ReadOptions)
      (c c' : ReadCache V) (k : String) (token ttl : ℕ) (before after : List (Action V)) (now : ℕ)
      (v : V)
      → start_read clock m arguments o c ≡ (reserved k token ttl, c')
      → (settle_ok now v k token ttl (run after (invalidate_key m arguments (run before c')))
          ≡ run after (invalidate_key m arguments (run before c')))
        × (settle_err k token (run after (invalidate_key m arguments (run before c')))
            ≡ run after (invalidate_key m arguments (run before c')))
  invalidated_read_changes_nothing clock m arguments o c c' k token ttl before after now v h =
      let (same_key, old) = reserved-token clock m arguments o c c' h in
      let d = run before c' in
      let later =
        IsLater-run d.next_token (key m arguments) after (invalidate_key m arguments d)
          (IsLater-invalidate_key m arguments d) in
      let final = run after (invalidate_key m arguments d) in
      let gone : owns k token final.entries ≡ false = rw same_key (
        owns_old d.next_token token (key m arguments) final later
          (omega (arith, next_token-run before c'))) in
      (settle_ok_of_other now v k token ttl final gone, settle_err_of_other k token final gone)
