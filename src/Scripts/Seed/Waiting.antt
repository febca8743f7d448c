-- ===== src/Scripts/Seed/Waiting.antt =====
-- Waiting for a ledger ends.
use stellar_quorum.Base.{
  ℕ, zero, suc, ◌+◌, ◌<◌, ◌≤◌, ◌≡◌, refl, ltb, leb, Bool-cases, inl, inr, ◌⊎◌, if◌then◌else◌, arith,
}
use stellar_quorum.Base.Result.{Result, ok, err}
use stellar_quorum.Sdk.Errors.{Thrown, instance_of, error}
use stellar_quorum.Scripts.Script.{
  Outcome, returned, thrown, unfinished, Script, pure, go_on, settled, ◌>>◌,
}
use stellar_quorum.Scripts.Seed.{
  Network, wait_ms, await_ledger, wait_for_ledger, ledger_timeout_ms, not_reached,
}

module _ {W Native : Type 0} (net : Network W Native) where
  -- Sleeping takes its time, and asking for the ledger does not turn the clock back.
  pub record Advances : Type 0 where
    pub sleeps : (ms : ℕ) (w : W) → net.now w + ms ≤ net.now (net.sleep ms w)
    pub asks : (w : W) → net.now w ≤ net.now (net.latest_ledger w).0

  -- With a ledger that has reached the target, with what the network threw when it was asked, or with
  -- the timeout, not before the deadline.
  abbrev pub Ends : ℕ → ℕ → W × Outcome ℕ → Type 0
  Ends target deadline (w, returned n) = target ≤ n
  Ends target deadline (w, thrown e) =
      ((v : W) × ((net.latest_ledger v).1 ≡ err e))
      ⊎ ((e ≡ instance_of error (not_reached target)) × (deadline ≤ net.now w))
  Ends target deadline (w, unfinished) = ⊥

  module _ (advances : Advances) (target : ℕ) where
    looked-Ends :
        (deadline : ℕ) (again : Script W ℕ) (before v : W) (r : Result Thrown ℕ)
        → (net.latest_ledger before).1 ≡ r
        → Ends target deadline (again (net.sleep 1000 v))
        → Ends target deadline (
            go_on
              (λ sequence.
                if leb target sequence then pure sequence else (wait_ms net 1000 >> again))
              (settled (v, r)))
    looked-Ends deadline again before v (err e) asked h = inl (before, asked)
    looked-Ends deadline again before v (ok n) asked h = elim (Bool-cases (leb target n)) [
      | inl there ↦ rw there (ground arith)
      | inr short ↦ rw short h
    ]

    await_ledger-Ends :
        (rounds deadline : ℕ) (w : W)
        → 0 < rounds
        → deadline < net.now w + rounds
        → Ends target deadline (await_ledger net rounds target deadline w)
    unfolding await_ledger
    await_ledger-Ends zero deadline w some_left h = absurd (omega arith)
    await_ledger-Ends (suc rounds) deadline w some_left h =
        elim (Bool-cases (ltb (net.now w) deadline)) [
          | inl early ↦
              let asked = advances.asks w in
              let slept = advances.sleeps 1000 (net.latest_ledger w).0 in
              rw early (
                looked-Ends deadline (await_ledger net rounds target deadline) w
                  (net.latest_ledger w).0 (net.latest_ledger w).1 refl
                  (await_ledger-Ends rounds deadline (net.sleep 1000 (net.latest_ledger w).0)
                    (ground arith) (omega arith)))
          | inr late ↦ rw late (inr (refl, ground arith))
        ]

    -- With a round for each millisecond of the timeout and one more, waiting for a ledger ends.
    pub wait_for_ledger-Ends :
        (rounds : ℕ) (w : W)
        → ledger_timeout_ms < rounds
        → Ends target (net.now w + ledger_timeout_ms) (wait_for_ledger net rounds target w)
    unfolding wait_for_ledger
    wait_for_ledger-Ends rounds w h =
        await_ledger-Ends rounds (net.now w + ledger_timeout_ms) w (omega arith) (omega arith)
