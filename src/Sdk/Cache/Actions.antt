-- ===== src/Sdk/Cache/Actions.antt =====
-- What can happen to a cache between the two halves of a read, in any order.
use stellar_quorum.Base.{ℕ, String, List, [], ◌∷◌}
use stellar_quorum.Sdk.Types.{ReadMethod, ReadOptions}
use stellar_quorum.Sdk.Cache.Key.{Argument}
use stellar_quorum.Sdk.Cache.{
  ReadCache, start_read, settle_ok, settle_err, invalidate_all, invalidate_method, invalidate_key,
}

pub data Action (V : Type 0) : Type 0 where
  start : (ℕ → ℕ) → ReadMethod → List Argument → ReadOptions → Action V
  succeed : ℕ → V → String → ℕ → ℕ → Action V
  fail : String → ℕ → Action V
  clear : Action V
  drop_method : ReadMethod → Action V
  drop_key : ReadMethod → List Argument → Action V

module _ {V : Type 0} where
  abbrev pub perform : Action V → ReadCache V → ReadCache V
  perform (start clock m arguments o) c = (start_read clock m arguments o c).1
  perform (succeed now v k token ttl) c = settle_ok now v k token ttl c
  perform (fail k token) c = settle_err k token c
  perform clear c = invalidate_all c
  perform (drop_method m) c = invalidate_method m c
  perform (drop_key m arguments) c = invalidate_key m arguments c

  unfoldable pub run : List (Action V) → ReadCache V → ReadCache V
  run [] c = c
  run (a ∷ more) c = run more (perform a c)

  -- What every step keeps holds after any steps.
  pub run_induction :
      (P : ReadCache V → Type 0)
      → ((a : Action V) (c : ReadCache V) → P c → P (perform a c))
      → (actions : List (Action V)) (c : ReadCache V) → P c
      → P (run actions c)
  unfolding run
  run_induction P step [] c h = h
  run_induction P step (a ∷ more) c h = run_induction P step more (perform a c) (step a c h)
