-- ===== src/Scripts/Seed/Timeliness.antt =====
-- The script finalizes and executes in time.
use stellar_quorum.Base.{ℕ, ◌+◌, ◌≤◌, ◌≡◌, refl, String, inr, List, [], ◌∷◌, arith}
use stellar_quorum.Scripts.Script.{Outcome, returned, thrown, unfinished, Script, ◌>>=◌, ◌>>◌}
use stellar_quorum.Scripts.Seed.{Value, address, u64, Network, invoke, wait_for_ledger}
use stellar_quorum.Scripts.Seed.Deploying.{DemoProposal, Decoding, Setup, get_proposal}
use stellar_quorum.Scripts.Seed.Keeping.{Keeps, keeps, Gives, go_on-Gives, >>-Keeps, invoke-Keeps}
use stellar_quorum.Scripts.Seed.Ordering.{
  sent, saw, told, Log, recorded, recorded_setup, Recorded, proposal_call, IsClosed, IsUnlocked,
  IsOrdered, Lasts, Holds, recorded-IsHarmless, IsClosed-grows, IsUnlocked-grows,
}
use stellar_quorum.Scripts.Seed.Main.{finalize_proposals, execute_proposal, Ids}
use stellar_quorum.Scripts.Seed.Watching.{wait_for_ledger-Gives, get_proposal-Gives}

Gives-weaken :
    {W A : Type 0} (Inv Other : W → Type 0) (Q : A → W → Type 0) (r : W × Outcome A)
    → ((w : W) → Inv w → Other w)
    → Gives Inv Q r
    → Gives Other Q r
Gives-weaken Inv Other Q (w, returned a) h g = g
Gives-weaken Inv Other Q (w, thrown e) h g = h w g
Gives-weaken Inv Other Q (w, unfinished) h g = h w g

module _ {W Native : Type 0} (net : Network W Native) (decoding : Decoding Native) (setup : Setup W)
    (keys : List String) (governance : String) where
  abbrev Ordered : Log Native → Type 0
  Ordered log = IsOrdered decoding log

  pub Ordered-Lasts : Lasts net Ordered
  Ordered-Lasts = record { on_saw = λ n log o. o; on_told = λ c v log o. o }

  abbrev WasRead : ℕ → DemoProposal → Log Native → Type 0
  WasRead id p log =
      Ordered log
      × ((v : Native) × Recorded (told (proposal_call governance id) v) log
          × ((decoding.as_proposal v).end_ledger ≡ p.end_ledger)
          × ((decoding.as_proposal v).queue_ledger ≡ p.queue_ledger))

  WasRead-Lasts : (id : ℕ) (p : DemoProposal) → Lasts net (WasRead id p)
  WasRead-Lasts id p = record {
    on_saw = λ n log (o, (v, h, e, q)). (o, (v, inr h, e, q));
    on_told = λ c u log (o, (v, h, e, q)). (o, (v, inr h, e, q));
  }

  -- The script up to a proposal that was read, the wait for a ledger that depends on it, and the rest.
  read_and_wait-Keeps :
      {A : Type 0} (id : ℕ) (target : DemoProposal → ℕ) (rest : Script (W × Log Native) A)
      → ((p : DemoProposal) (n : ℕ) (s : W × Log Native)
          → WasRead id p s.1
          → Recorded (saw n) s.1
          → target p ≤ n
          → Ordered (rest s).0.1)
      → Keeps (Holds net Ordered) (
          get_proposal (recorded net) decoding (recorded_setup setup) governance id >>= λ p.
          wait_for_ledger (recorded net) setup.rounds (target p) >> rest)
  read_and_wait-Keeps id target rest h = keeps (Holds net Ordered) λ s o.
      go_on-Gives (Holds net Ordered) (λ p t. WasRead id p t.1)
        (λ p. wait_for_ledger (recorded net) setup.rounds (target p) >> rest)
        (get_proposal (recorded net) decoding (recorded_setup setup) governance id s)
        (get_proposal-Gives net Ordered Ordered-Lasts decoding setup governance id s o)
        λ p t r.
          go_on-Gives (Holds net Ordered)
            (λ n u. WasRead id p u.1 × Recorded (saw n) u.1 × (target p ≤ n)) (λ _. rest)
            (wait_for_ledger (recorded net) setup.rounds (target p) t)
            (Gives-weaken (Holds net (WasRead id p)) (Holds net Ordered)
              (λ n u. WasRead id p u.1 × Recorded (saw n) u.1 × (target p ≤ n))
              (wait_for_ledger (recorded net) setup.rounds (target p) t) (λ u g. g.0)
              (wait_for_ledger-Gives net (WasRead id p) (WasRead-Lasts id p) setup.rounds (target p)
                t r))
            λ n u (r', seen, past). h p n u r' seen past

  abbrev Closed : Log Native → Type 0
  Closed log = Ordered log × IsClosed decoding log

  Closed-Lasts : Lasts net Closed
  Closed-Lasts = record {
    on_saw = λ n log (o, c). (o, IsClosed-grows decoding (saw n) log c);
    on_told = λ d v log (o, c). (o, IsClosed-grows decoding (told d v) log c);
  }

  abbrev finalize : ℕ → Script (W × Log Native) (Unit {0})
  finalize id =
      invoke (recorded net) setup.rounds keys governance "finalize" (u64 id ∷ []) setup.alice

  abbrev finalize_all : Ids → Script (W × Log Native) (Unit {0})
  finalize_all ids = finalize ids.queued >> (finalize ids.failed >> finalize ids.executed)

  abbrev execution : Ids → List Value
  execution ids = address setup.alice ∷ u64 ids.executed ∷ []

  finalize-Keeps :
      (id : ℕ)
      → Keeps
          (Holds net Closed)
          (invoke (recorded net) setup.rounds keys governance "finalize" (u64 id ∷ []) setup.alice)
  finalize-Keeps id =
      invoke-Keeps (Holds net Closed) (recorded net) (recorded-IsHarmless net Closed Closed-Lasts)
        setup.rounds keys governance "finalize" (u64 id ∷ []) setup.alice
        (λ auth s (o, c). (((c, tt), o), IsClosed-grows decoding (sent _) s.1 c))

  pub finalize_proposals-Keeps :
      (ids : Ids)
      → Keeps
          (Holds net Ordered)
          (finalize_proposals (recorded net) decoding (recorded_setup setup) keys governance ids)
  unfolding finalize_proposals
  finalize_proposals-Keeps ids =
      read_and_wait-Keeps ids.executed (λ p. p.end_ledger + 1) (finalize_all ids)
        λ p n s (o, (v, h, e, q)) seen past.
          ((>>-Keeps (Holds net Closed) (finalize-Keeps ids.queued) (
              >>-Keeps (Holds net Closed) (finalize-Keeps ids.failed)
                (finalize-Keeps ids.executed))).after
            s
            (
              o,
              record {
                governance = governance;
                id = ids.executed;
                answer = v;
                ledger = n;
                was_read = h;
                was_seen = seen;
                past = omega arith;
              },
            )).0

  abbrev Unlocked : List Value → Log Native → Type 0
  Unlocked arguments log = Ordered log × IsUnlocked decoding arguments log

  Unlocked-Lasts : (arguments : List Value) → Lasts net (Unlocked arguments)
  Unlocked-Lasts arguments = record {
    on_saw = λ n log (o, c). (o, IsUnlocked-grows decoding arguments (saw n) log c);
    on_told = λ d v log (o, c). (o, IsUnlocked-grows decoding arguments (told d v) log c);
  }

  execute-Keeps :
      (arguments : List Value)
      → Keeps
          (Holds net (Unlocked arguments))
          (invoke (recorded net) setup.rounds keys governance "execute" arguments setup.alice)
  execute-Keeps arguments =
      invoke-Keeps (Holds net (Unlocked arguments)) (recorded net)
        (recorded-IsHarmless net (Unlocked arguments) (Unlocked-Lasts arguments)) setup.rounds keys
        governance "execute" arguments setup.alice
        (λ auth s (o, c). (((tt, c), o), IsUnlocked-grows decoding arguments (sent _) s.1 c))

  pub execute_proposal-Keeps :
      (ids : Ids)
      → Keeps
          (Holds net Ordered)
          (execute_proposal (recorded net) decoding (recorded_setup setup) keys governance ids)
  unfolding execute_proposal
  execute_proposal-Keeps ids =
      read_and_wait-Keeps ids.executed (λ p. p.queue_ledger)
        (invoke (recorded net) setup.rounds keys governance "execute" (execution ids) setup.alice)
        λ p n s (o, (v, h, e, q)) seen reached.
          ((execute-Keeps (execution ids)).after s (
            o,
            record {
              governance = governance;
              executor = setup.alice;
              id = ids.executed;
              answer = v;
              ledger = n;
              executes = refl;
              was_read = h;
              was_seen = seen;
              unlocked = omega arith;
            },
          )).0
