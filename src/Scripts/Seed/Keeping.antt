-- ===== src/Scripts/Seed/Keeping.antt =====
-- What the steps of the script keep of the world, whatever they do else.
use stellar_quorum.Base.{
  ℕ, ◌+◌, zero, suc, String, Bool, true, false, not, Option, none, some, List, [], ◌∷◌, ltb, leb,
  if◌then◌else◌,
}
use stellar_quorum.Base.Result.{Result}
use stellar_quorum.Base.Text.{◌<>◌}
use stellar_quorum.Sdk.Errors.{Thrown}
use stellar_quorum.Scripts.Script.{
  attempt, Outcome, returned, thrown, unfinished, Script, pure, throw_error, go_on, ◌>>=◌, ◌>>◌,
  awaited, throw_when, settled,
}
use stellar_quorum.Scripts.Seed.{
  Value, Call, AuthEntry, Simulation, simulation_error, simulated, TransactionStatus, success,
  failed, not_found, Network, signer_of, has_key, authorized, signed_by, sign_auth_entries, confirm,
  judged, invoke, read, tx_timeout_ms, ledger_timeout_ms, is_accepted, rejection, not_included,
  not_reached, await_ledger, wait_for_ledger, entries_of, value_of, clock, wait_ms,
}

module _ {W : Type 0} (Inv : W → Type 0) where
  pub record Keeps {A : Type 0} (script : Script W A) : Type 0 where
    pub after : (w : W) → Inv w → Inv (script w).0

  pub keeps :
      {A : Type 0} {script : Script W A} → ((w : W) → Inv w → Inv (script w).0) → Keeps script
  keeps h = record { after = h }

  pub pure-Keeps : {A : Type 0} {a : A} → Keeps (pure a)
  pure-Keeps = keeps λ w i. i

  pub throw_error-Keeps :
      {A : Type 0} {message : String} → Keeps (throw_error {W = W} {A = A} message)
  throw_error-Keeps = keeps λ w i. i

  pub go_on-Keeps :
      {A B : Type 0} (next : A → Script W B) (r : W × Outcome A)
      → Inv r.0
      → ((a : A) → Keeps (next a))
      → Inv (go_on next r).0
  go_on-Keeps next (w, returned a) h k = (k a).after w h
  go_on-Keeps next (w, thrown e) h k = h
  go_on-Keeps next (w, unfinished) h k = h

  pub >>=-Keeps :
      {A B : Type 0} {first : Script W A} {next : A → Script W B}
      → Keeps first
      → ((a : A) → Keeps (next a))
      → Keeps (first >>= next)
  >>=-Keeps {first} {next} h k = keeps λ w i. go_on-Keeps next (first w) (h.after w i) k

  pub settled-Keeps : {A : Type 0} (r : W × Result Thrown A) → Inv r.0 → Inv (settled r).0
  settled-Keeps (w, r) h = h

  pub >>-Keeps :
      {A B : Type 0} {first : Script W A} {second : Script W B}
      → Keeps first
      → Keeps second
      → Keeps (first >> second)
  >>-Keeps h k = >>=-Keeps h (λ _. k)

  pub if-Keeps :
      {A : Type 0} (b : Bool) {x y : Script W A} → Keeps x → Keeps y → Keeps (if b then x else y)
  if-Keeps true h k = h
  if-Keeps false h k = k

  pub throw_when-Keeps : (b : Bool) (message : String) → Keeps (throw_when b message)
  throw_when-Keeps b message = if-Keeps b throw_error-Keeps pure-Keeps

  pub awaited-Keeps :
      {A : Type 0} (act : W → W × Result Thrown A)
      → ((w : W) → Inv w → Inv (act w).0)
      → Keeps (awaited act)
  awaited-Keeps act h = keeps λ w i. settled-Keeps (act w) (h w i)

  pub attempt-Keeps :
      {E A : Type 0} (act : W → W × Result E A)
      → ((w : W) → Inv w → Inv (act w).0)
      → Keeps (attempt act)
  attempt-Keeps act h = keeps h

  -- What a script keeps, and what holds besides when it has returned.
  abbrev pub Gives : {A : Type 0} → (A → W → Type 0) → W × Outcome A → Type 0
  Gives Q (w, returned a) = Q a w
  Gives Q (w, thrown e) = Inv w
  Gives Q (w, unfinished) = Inv w

  pub go_on-Gives :
      {A B : Type 0} (Q : A → W → Type 0) (next : A → Script W B) (r : W × Outcome A)
      → Gives Q r
      → ((a : A) (w : W) → Q a w → Inv (next a w).0)
      → Inv (go_on next r).0
  go_on-Gives Q next (w, returned a) h k = k a w h
  go_on-Gives Q next (w, thrown e) h k = h
  go_on-Gives Q next (w, unfinished) h k = h

  module _ {Native : Type 0} (net : Network W Native) where
    -- Whatever the network does, apart from sending a call.
    pub record IsHarmless : Type 0 where
      pub sleep : (ms : ℕ) (w : W) → Inv w → Inv (net.sleep ms w)
      pub latest_ledger : (w : W) → Inv w → Inv (net.latest_ledger w).0
      pub friendbot : (a : String) (w : W) → Inv w → Inv (net.friendbot a w).0
      pub get_account : (a : String) (w : W) → Inv w → Inv (net.get_account a w).0
      pub simulate : (c : Call) (w : W) → Inv w → Inv (net.simulate c w).0
      pub authorize :
          (e : AuthEntry) (s : String) (n : ℕ) (w : W) → Inv w → Inv (net.authorize e s n w).0
      pub get_transaction : (h : String) (w : W) → Inv w → Inv (net.get_transaction h w).0

    module _ (harmless : IsHarmless) where
      clock-Keeps : Keeps (clock net)
      clock-Keeps = keeps λ w i. i

      authorized-Keeps : (entry : AuthEntry) (signer : String) → Keeps (authorized net entry signer)
      authorized-Keeps entry signer =
          >>=-Keeps (awaited-Keeps net.latest_ledger harmless.latest_ledger) (λ n.
            awaited-Keeps (net.authorize entry signer (n + 100))
              (harmless.authorize entry signer (n + 100)))

      signed_by-Keeps :
          (keys : List String) (entry : AuthEntry) (signer : Option String)
          → Keeps (signed_by net keys entry signer)
      signed_by-Keeps keys entry none = pure-Keeps
      signed_by-Keeps keys entry (some signer) =
          if-Keeps (has_key signer keys) (authorized-Keeps entry signer) throw_error-Keeps

      sign_auth_entries-Keeps :
          (keys : List String) (source : String) (entries : List AuthEntry)
          → Keeps (sign_auth_entries net keys source entries)
      unfolding sign_auth_entries
      sign_auth_entries-Keeps keys source [] = pure-Keeps
      sign_auth_entries-Keeps keys source (entry ∷ more) =
          >>=-Keeps (signed_by-Keeps keys entry (signer_of source entry))
            λ first. >>=-Keeps (sign_auth_entries-Keeps keys source more) λ rest. pure-Keeps

      entries_of-Keeps : (method : String) (s : Simulation Native) → Keeps (entries_of net method s)
      entries_of-Keeps method (simulation_error e) = throw_error-Keeps
      entries_of-Keeps method (simulated entries retval) = pure-Keeps

      value_of-Keeps : (method : String) (s : Simulation Native) → Keeps (value_of net method s)
      value_of-Keeps method (simulation_error e) = throw_error-Keeps
      value_of-Keeps method (simulated entries retval) = pure-Keeps

      wait_ms-Keeps : (ms : ℕ) → Keeps (wait_ms net ms)
      wait_ms-Keeps ms = keeps (harmless.sleep ms)

      judged-Keeps :
          (method hash : String) (status : TransactionStatus) {again : Script W (Unit {0})}
          → Keeps again
          → Keeps (judged net method hash status again)
      judged-Keeps method hash success h = pure-Keeps
      judged-Keeps method hash failed h = throw_error-Keeps
      judged-Keeps method hash not_found h = >>=-Keeps (wait_ms-Keeps 1000) (λ _. h)

      confirm-Keeps :
          (rounds : ℕ) (method hash : String) (deadline : ℕ)
          → Keeps (confirm net rounds method hash deadline)
      unfolding confirm
      confirm-Keeps zero method hash deadline = keeps λ w i. i
      confirm-Keeps (suc rounds) method hash deadline = >>=-Keeps clock-Keeps λ now.
          if-Keeps (ltb now deadline)
            (>>=-Keeps (awaited-Keeps (net.get_transaction hash) (harmless.get_transaction hash))
              λ status. judged-Keeps method hash status (confirm-Keeps rounds method hash deadline))
            (throw_error-Keeps {message = not_included method})

      pub invoke-Keeps :
          (rounds : ℕ) (keys : List String) (contract method : String) (arguments : List Value)
          (source : String)
          → ((auth : List AuthEntry) (w : W)
              → Inv w
              → Inv
                  (net.send
                    (record {
                      contract = contract;
                      method = method;
                      arguments = arguments;
                      source = source;
                    })
                    auth
                    w).0)
          → Keeps (invoke net rounds keys contract method arguments source)
      unfolding invoke
      invoke-Keeps rounds keys contract method arguments source sends =
          >>-Keeps (throw_when-Keeps (not (has_key source keys)) ("no key for " <> source)) (
            >>-Keeps (awaited-Keeps (net.get_account source) (harmless.get_account source)) (
              >>=-Keeps (awaited-Keeps (net.simulate _) (harmless.simulate _)) λ simulation.
                >>=-Keeps (entries_of-Keeps method simulation) λ entries.
                  >>=-Keeps (sign_auth_entries-Keeps keys source entries) λ auth.
                    >>=-Keeps (awaited-Keeps (λ w. net.send _ auth w) (sends auth)) λ sent.
                      >>-Keeps
                        (throw_when-Keeps (not (is_accepted sent.status)) (rejection method sent))
                        (>>=-Keeps clock-Keeps
                          λ start. confirm-Keeps rounds method sent.hash (start + tx_timeout_ms))))

      pub read-Keeps :
          (contract method : String) (arguments : List Value)
          → Keeps (read net contract method arguments)
      unfolding read
      read-Keeps contract method arguments =
          >>=-Keeps (awaited-Keeps (net.simulate _) (harmless.simulate _)) (value_of-Keeps method)

      await_ledger-Keeps :
          (rounds target deadline : ℕ) → Keeps (await_ledger net rounds target deadline)
      unfolding await_ledger
      await_ledger-Keeps zero target deadline = keeps λ w i. i
      await_ledger-Keeps (suc rounds) target deadline = >>=-Keeps clock-Keeps λ now.
          if-Keeps (ltb now deadline)
            (>>=-Keeps (awaited-Keeps net.latest_ledger harmless.latest_ledger) λ sequence.
              if-Keeps (leb target sequence) (pure-Keeps {a = sequence})
                (>>=-Keeps (wait_ms-Keeps 1000) λ _. await_ledger-Keeps rounds target deadline))
            (throw_error-Keeps {message = not_reached target})

      pub wait_for_ledger-Keeps : (rounds target : ℕ) → Keeps (wait_for_ledger net rounds target)
      unfolding wait_for_ledger
      wait_for_ledger-Keeps rounds target =
          >>=-Keeps clock-Keeps
            λ start. await_ledger-Keeps rounds target (start + ledger_timeout_ms)
