-- ===== src/Scripts/Seed/Order.antt =====
-- The order of what the whole script sends.
use stellar_quorum.Base.{ℕ, ◌+◌, String, ltb, List, [], ◌∷◌, ◌&&◌}
use text.Mathlib.Text.{◌==◌ as same_text}
use stellar_quorum.Scripts.Script.{Script}
use stellar_quorum.Scripts.Seed.{address, u32, u64, i128, Network}
use stellar_quorum.Scripts.Seed.Deploying.{Decoding, Setup, Deployment, initial_supply}
use stellar_quorum.Scripts.Seed.Keeping.{
  >>=-Keeps, >>-Keeps, pure-Keeps, throw_when-Keeps, awaited-Keeps, if-Keeps, read-Keeps,
}
use stellar_quorum.Scripts.Seed.Ordering.{Log, IsOrdered, recorded, recorded_setup}
use stellar_quorum.Scripts.Seed.Timeliness.{finalize_proposals-Keeps, execute_proposal-Keeps}
use stellar_quorum.Scripts.Seed.Steps.{
  Kept, O, harmless, call-Kept, fund_account-Kept, get_proposal-Kept, wait-Kept, use_existing-Kept,
  deploy_fresh-Kept,
}
use stellar_quorum.Scripts.Seed.Main.{
  distribute, check_threshold, below_threshold, proposal_values, create_proposal, vote,
  open_proposals, open_last, read_each, drive, main, demo_keys, seeds_existing, mint, share_out,
  transfer, for, against, abstain,
}

module _ {W Native : Type 0} (net : Network W Native) (decoding : Decoding Native)
    (setup : Setup W) where
  abbrev Fits : {A : Type 0} → Script (W × Log Native) A → Type 0
  Fits script = Kept net decoding setup script

  abbrev Inv : W × Log Native → Type 0
  Inv = O net decoding setup

  abbrev network : Network (W × Log Native) Native
  network = recorded net

  abbrev whole : Setup (W × Log Native)
  whole = recorded_setup setup

  transfer-Fits :
      (keys : List String) (token voter : String) (share : ℕ)
      → Fits (transfer network decoding whole keys token voter share)
  transfer-Fits keys token voter share =
      call-Kept net decoding setup keys token "transfer"
        (address setup.alice ∷ address voter ∷ i128 share ∷ []) setup.alice (λ log. (tt, tt))

  share_out-Fits :
      (keys : List String) (token : String) → Fits (share_out network decoding whole keys token)
  share_out-Fits keys token =
      >>-Keeps Inv (transfer-Fits keys token setup.bob 300000)
        (>>-Keeps Inv (transfer-Fits keys token setup.carol 200000) (pure-Keeps Inv {a = keys}))

  mint-Fits : (token : String) → Fits (mint network decoding whole token)
  mint-Fits token =
      >>=-Keeps Inv
        (awaited-Keeps Inv (λ s. (s, setup.address_of_secret setup.token_admin_secret)) (λ s o. o))
        λ admin.
          >>-Keeps Inv
            (call-Kept net decoding setup (admin ∷ demo_keys network decoding whole) token "mint"
              (address setup.alice ∷ i128 initial_supply ∷ []) admin (λ log. (tt, tt)))
            (pure-Keeps Inv {a = admin ∷ demo_keys network decoding whole})

  distribute-Fits : (token : String) → Fits (distribute network decoding whole token)
  unfolding distribute
  distribute-Fits token =
      if-Keeps Inv (seeds_existing network decoding whole && same_text setup.token_admin_secret "")
        (pure-Keeps Inv {a = demo_keys network decoding whole})
        (if-Keeps Inv (seeds_existing network decoding whole)
          (>>=-Keeps Inv (mint-Fits token) λ keys. share_out-Fits keys token)
          (share_out-Fits (demo_keys network decoding whole) token))

  check_threshold-Fits : (d : Deployment) → Fits (check_threshold network decoding whole d)
  unfolding check_threshold
  check_threshold-Fits d =
      >>=-Keeps Inv
        (read-Keeps Inv network (harmless net decoding setup) d.token "balance"
          (address setup.alice ∷ []))
        λ raw.
          throw_when-Keeps Inv (ltb (decoding.as_number raw) d.config.proposal_threshold)
            (below_threshold network decoding whole d (decoding.as_number raw))

  module _ (keys : List String) (governance : String) where
    create_proposal-Fits :
        (title description : String)
        → Fits (create_proposal network decoding whole keys governance title description)
    unfolding create_proposal
    create_proposal-Fits title description =
        >>=-Keeps Inv
          (read-Keeps Inv network (harmless net decoding setup) governance "get_proposal_count" [])
          λ raw.
            >>-Keeps Inv
              (call-Kept net decoding setup keys governance "create_proposal"
                (proposal_values network decoding whole title description) setup.alice
                (λ log. (tt, tt)))
              (pure-Keeps Inv {a = decoding.as_number raw + 1})

    vote-Fits :
        (voter : String) (id support : ℕ)
        → Fits (vote network decoding whole keys governance voter id support)
    unfolding vote
    vote-Fits voter id support =
        call-Kept net decoding setup keys governance "vote"
          (address voter ∷ u64 id ∷ u32 support ∷ []) voter (λ log. (tt, tt))

    open_proposals-Fits : Fits (open_proposals network decoding whole keys governance)
    unfolding open_proposals
    open_proposals-Fits = >>=-Keeps Inv (create_proposal-Fits _ _) λ queued.
        >>-Keeps Inv (vote-Fits setup.bob queued for) (
          >>=-Keeps Inv (create_proposal-Fits _ _) λ failed.
            >>-Keeps Inv (vote-Fits setup.carol failed against) (
              >>=-Keeps Inv (create_proposal-Fits _ _) λ executed.
                >>-Keeps Inv (vote-Fits setup.bob executed for) (
                  pure-Keeps Inv
                    {a = record { queued = queued; failed = failed; executed = executed }})))

    open_last-Fits : Fits (open_last network decoding whole keys governance)
    unfolding open_last
    open_last-Fits = >>=-Keeps Inv (create_proposal-Fits _ _) λ id.
        >>=-Keeps Inv (get_proposal-Kept net decoding setup governance id) λ active.
          >>-Keeps Inv (wait-Kept net decoding setup active.start_ledger) (
            >>-Keeps Inv (vote-Fits setup.bob id for)
              (>>-Keeps Inv (vote-Fits setup.carol id abstain) (pure-Keeps Inv {a = id})))

    read_each-Fits : (ids : List ℕ) → Fits (read_each network decoding whole keys governance ids)
    unfolding read_each
    read_each-Fits [] = pure-Keeps Inv
    read_each-Fits (id ∷ ids) =
        >>=-Keeps Inv (get_proposal-Kept net decoding setup governance id)
          λ p. >>=-Keeps Inv (read_each-Fits ids) λ rest. pure-Keeps Inv {a = p ∷ rest}

    drive-Fits : Fits (drive network decoding whole keys governance)
    unfolding drive
    drive-Fits = >>=-Keeps Inv open_proposals-Fits λ ids.
        >>-Keeps Inv (finalize_proposals-Keeps net decoding setup keys governance ids) (
          >>-Keeps Inv (execute_proposal-Keeps net decoding setup keys governance ids) (
            >>=-Keeps Inv open_last-Fits
              λ active. read_each-Fits (ids.queued ∷ ids.failed ∷ ids.executed ∷ active ∷ [])))

  main-Fits : Fits (main network decoding whole)
  unfolding main
  main-Fits = >>-Keeps Inv (fund_account-Kept net decoding setup setup.alice) (
      >>-Keeps Inv (fund_account-Kept net decoding setup setup.bob) (
        >>-Keeps Inv (fund_account-Kept net decoding setup setup.carol) (
          >>=-Keeps Inv
            (if-Keeps Inv (seeds_existing network decoding whole)
              (use_existing-Kept net decoding setup)
              (deploy_fresh-Kept net decoding setup (demo_keys network decoding whole)))
            λ deployment. >>=-Keeps Inv (distribute-Fits deployment.token) λ keys.
              >>-Keeps Inv (check_threshold-Fits deployment) (
                >>=-Keeps Inv (drive-Fits keys deployment.governance) λ proposals.
                  pure-Keeps Inv {a = record { deployment = deployment; proposals = proposals }}))))

  -- However the network answers and wherever the script stops, each finalize call that it has sent came
  -- after a ledger past the voting window of a proposal that it had read, and each execute call after a
  -- ledger at the end of the timelock of the very proposal, as it had read it.
  pub main-IsOrdered : (w : W) → IsOrdered decoding (main network decoding whole (w, [])).0.1
  main-IsOrdered w = main-Fits.after (w, []) tt
