-- ===== src/Scripts/Seed/Watching.antt =====
-- The ledgers that the seeding script waits for and the proposals that it reads are ones that the
-- network showed.
use stellar_quorum.Base.{
  ℕ, zero, suc, ◌+◌, ◌≤◌, ◌≡◌, refl, String, ltb, leb, Bool-cases, inl, inr, ◌∷◌, if◌then◌else◌,
  arith,
}
use stellar_quorum.Base.Result.{Result, ok, err}
use stellar_quorum.Sdk.Errors.{Thrown}
use stellar_quorum.Scripts.Script.{Script, pure, go_on, settled, ◌>>◌}
use stellar_quorum.Scripts.Seed.{
  Simulation, simulation_error, simulated, Network, wait_ms, read, await_ledger, wait_for_ledger,
  value_of, ledger_timeout_ms,
}
use stellar_quorum.Scripts.Seed.Deploying.{
  DemoProposal, Decoding, Setup, decode_status, get_proposal,
}
use stellar_quorum.Scripts.Seed.Keeping.{Gives}
use stellar_quorum.Scripts.Seed.Ordering.{
  saw, told, Log, recorded, recorded_setup, Recorded, proposal_call, Lasts, Holds, note_ledger,
  note_answer,
}

module _ {W Native : Type 0} (net : Network W Native) where
  module _ (J : Log Native → Type 0) (lasts : Lasts net J) where
    -- Besides what lasts: a ledger was seen that has reached the target.
    abbrev pub Seen : ℕ → ℕ → W × Log Native → Type 0
    Seen target n s = J s.1 × Recorded (saw n) s.1 × (target ≤ n)

    looked :
        (target : ℕ) (again : Script (W × Log Native) ℕ)
        → ((s : W × Log Native) → J s.1 → Gives (Holds net J) (Seen target) (again s))
        → (w : W) (r : Result Thrown ℕ) (log : Log Native) → J log
        → Gives (Holds net J) (Seen target) (
            go_on
              (λ sequence.
                if leb target sequence
                then pure sequence
                else (wait_ms (recorded net) 1000 >> again))
              (settled ((w, note_ledger r log), r)))
    looked target again h w (err e) log j = j
    looked target again h w (ok n) log j = elim (Bool-cases (leb target n)) [
      | inl there ↦ rw there (lasts.on_saw n log j, inl refl, ground arith)
      | inr short ↦ rw short (h (net.sleep 1000 w, saw n ∷ log) (lasts.on_saw n log j))
    ]

    await_ledger-Gives :
        (rounds target deadline : ℕ) (s : W × Log Native)
        → J s.1
        → Gives (Holds net J) (Seen target) (await_ledger (recorded net) rounds target deadline s)
    unfolding await_ledger
    await_ledger-Gives zero target deadline s j = j
    await_ledger-Gives (suc rounds) target deadline s j =
        elim (Bool-cases (ltb (net.now s.0) deadline)) [
          | inl early ↦ rw early (
              looked target (await_ledger (recorded net) rounds target deadline)
                (await_ledger-Gives rounds target deadline) (net.latest_ledger s.0).0
                (net.latest_ledger s.0).1 s.1 j)
          | inr late ↦ rw late j
        ]

    pub wait_for_ledger-Gives :
        (rounds target : ℕ) (s : W × Log Native)
        → J s.1
        → Gives (Holds net J) (Seen target) (wait_for_ledger (recorded net) rounds target s)
    unfolding wait_for_ledger
    wait_for_ledger-Gives rounds target s j =
        await_ledger-Gives rounds target (net.now s.0 + ledger_timeout_ms) s j

    module _ (decoding : Decoding Native) (setup : Setup W) (governance : String) (id : ℕ) where
      -- Besides what lasts: the proposal is one that was read.
      abbrev pub Read : DemoProposal → W × Log Native → Type 0
      Read p s =
          J s.1
          × ((v : Native) × Recorded (told (proposal_call governance id) v) s.1
              × ((decoding.as_proposal v).end_ledger ≡ p.end_ledger)
              × ((decoding.as_proposal v).queue_ledger ≡ p.queue_ledger))

      pub get_proposal-Gives :
          (s : W × Log Native)
          → J s.1
          → Gives
              (Holds net J)
              Read
              (get_proposal (recorded net) decoding (recorded_setup setup) governance id s)
      unfolding get_proposal read
      get_proposal-Gives s j =
          told_by (net.simulate (proposal_call governance id) s.0).0
            (net.simulate (proposal_call governance id) s.0).1 s.1 j
        where
          told_by :
              (w : W) (r : Result Thrown (Simulation Native)) (log : Log Native)
              → J log
              → Gives (Holds net J) Read (
                  go_on
                    (λ raw. pure (record (decoding.as_proposal raw) {
                      status = decode_status (decoding.as_status raw);
                    }))
                    (go_on
                      (value_of (recorded net) "get_proposal")
                      (settled ((w, note_answer (proposal_call governance id) r log), r))))
          told_by w (err e) log j = j
          told_by w (ok (simulation_error e)) log j = j
          told_by w (ok (simulated entries v)) log j =
              (lasts.on_told (proposal_call governance id) v log j, (v, inl refl, refl, refl))
