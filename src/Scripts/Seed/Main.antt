-- ===== src/Scripts/Seed/Main.antt =====
-- `main` of scripts/seed-demo-proposals.mjs.
use text.Mathlib.Text.{◌==◌ as same_text}
use stellar_quorum.Base.{ℕ, ◌+◌, String, Bool, not, ◌&&◌, ltb, List, [], ◌∷◌, if◌then◌else◌}
use stellar_quorum.Base.Text.{◌<>◌, decimal}
use stellar_quorum.Scripts.Script.{Script, pure, ◌>>=◌, ◌>>◌, awaited, throw_when}
use stellar_quorum.Scripts.Seed.{
  Value, address, string, u32, u64, i128, Network, fund_account, invoke, read, wait_for_ledger,
}
use stellar_quorum.Scripts.Seed.Deploying.{
  DemoProposal, Decoding, Setup, Deployment, get_proposal, use_existing, deploy_fresh,
  initial_supply,
}

-- Vote choices.
abbrev pub against : ℕ
against = 0

abbrev pub for : ℕ
for = 1

abbrev pub abstain : ℕ
abstain = 2

-- The ids of the proposals, and what the summary prints.
pub record Ids : Type 0 where
  pub queued : ℕ
  pub failed : ℕ
  pub executed : ℕ

pub record Summary : Type 0 where
  pub deployment : Deployment
  pub proposals : List DemoProposal

module _ {W Native : Type 0} (net : Network W Native) (decoding : Decoding Native)
    (setup : Setup W) where
  abbrev call : List String → String → String → List Value → String → Script W (Unit {0})
  call keys contract method arguments source =
      invoke net setup.rounds keys contract method arguments source

  abbrev pub seeds_existing : Bool
  seeds_existing = not (same_text setup.existing_governance "")

  abbrev pub demo_keys : List String
  demo_keys = setup.alice ∷ setup.bob ∷ setup.carol ∷ []

  abbrev pub transfer : List String → String → String → ℕ → Script W (Unit {0})
  transfer keys token voter share =
      call keys token "transfer" (address setup.alice ∷ address voter ∷ i128 share ∷ []) setup.alice

  abbrev pub share_out : List String → String → Script W (List String)
  share_out keys token = do
    transfer keys token setup.bob 300000
    transfer keys token setup.carol 200000
    pure keys

  abbrev pub mint : String → Script W (List String)
  mint token = do
    admin ← awaited (λ w. (w, setup.address_of_secret setup.token_admin_secret))
    call (admin ∷ demo_keys) token "mint" (address setup.alice ∷ i128 initial_supply ∷ []) admin
    pure (admin ∷ demo_keys)

  -- Gives the accounts whose keys the script has from then on.
  unfoldable pub distribute : String → Script W (List String)
  distribute token =
      if seeds_existing && same_text setup.token_admin_secret ""
      then pure demo_keys
      else if seeds_existing
      then (do keys ← mint token; share_out keys token)
      else share_out demo_keys token

  abbrev pub below_threshold : Deployment → ℕ → String
  below_threshold d balance =
      "the proposer holds "
      <> decimal balance
      <> " tokens, which is below the proposal threshold of "
      <> decimal d.config.proposal_threshold
      <> ". Fund the account, or point the script at a deployment whose proposer already holds enough tokens."

  unfoldable pub check_threshold : Deployment → Script W (Unit {0})
  check_threshold d = do
    raw ← read net d.token "balance" (address setup.alice ∷ [])
    throw_when (ltb (decoding.as_number raw) d.config.proposal_threshold)
        (below_threshold d (decoding.as_number raw))

  abbrev pub proposal_values : String → String → List Value
  proposal_values title description =
      address setup.alice
      ∷ string title
      ∷ string description
      ∷ string "ipfs://demo-proposal-metadata"
      ∷ []

  module _ (keys : List String) (governance : String) where
    unfoldable pub create_proposal : String → String → Script W ℕ
    create_proposal title description = do
      raw ← read net governance "get_proposal_count" []
      call keys governance "create_proposal" (proposal_values title description) setup.alice
      pure (decoding.as_number raw + 1)

    unfoldable pub vote : String → ℕ → ℕ → Script W (Unit {0})
    vote voter id support =
        call keys governance "vote" (address voter ∷ u64 id ∷ u32 support ∷ []) voter

    unfoldable pub open_proposals : Script W Ids
    open_proposals = do
      queued ←
          create_proposal "Fund the community grants programme"
            "Allocate 100,000 QUORUM to the grants programme for the coming quarter."
      vote setup.bob queued for
      failed ←
          create_proposal "Raise the proposal threshold"
            "Raise the proposal threshold to 1,000,000 QUORUM. This proposal is expected to fail."
      vote setup.carol failed against
      executed ←
          create_proposal "Enable delegation on the QUORUM token"
            "Let holders delegate their voting power to another account."
      vote setup.bob executed for
      pure (record { queued = queued; failed = failed; executed = executed })

    abbrev finalize : ℕ → Script W (Unit {0})
    finalize id = call keys governance "finalize" (u64 id ∷ []) setup.alice

    unfoldable pub finalize_proposals : Ids → Script W (Unit {0})
    finalize_proposals ids = do
      last_driven ← get_proposal net decoding setup governance ids.executed
      wait_for_ledger net setup.rounds (last_driven.end_ledger + 1)
      finalize ids.queued
      finalize ids.failed
      finalize ids.executed

    unfoldable pub execute_proposal : Ids → Script W (Unit {0})
    execute_proposal ids = do
      queued ← get_proposal net decoding setup governance ids.executed
      wait_for_ledger net setup.rounds queued.queue_ledger
      call keys governance "execute" (address setup.alice ∷ u64 ids.executed ∷ []) setup.alice

    unfoldable pub open_last : Script W ℕ
    open_last = do
      id ←
          create_proposal "Publish the quarterly transparency report"
            "Publish the treasury and voting report for the quarter. This proposal is still open."
      active ← get_proposal net decoding setup governance id
      wait_for_ledger net setup.rounds active.start_ledger
      vote setup.bob id for
      vote setup.carol id abstain
      pure id

    unfoldable pub read_each : List ℕ → Script W (List DemoProposal)
    read_each [] = pure []
    read_each (id ∷ ids) = do
      p ← get_proposal net decoding setup governance id
      rest ← read_each ids
      pure (p ∷ rest)

    unfoldable pub drive : Script W (List DemoProposal)
    drive = do
      ids ← open_proposals
      finalize_proposals ids
      execute_proposal ids
      active ← open_last
      read_each (ids.queued ∷ ids.failed ∷ ids.executed ∷ active ∷ [])

  unfoldable pub main : Script W Summary
  main = do
    fund_account net setup.alice
    fund_account net setup.bob
    fund_account net setup.carol
    deployment ←
        if seeds_existing
        then use_existing net decoding setup
        else deploy_fresh net decoding setup demo_keys
    keys ← distribute deployment.token
    check_threshold deployment
    proposals ← drive keys deployment.governance
    pure (record { deployment = deployment; proposals = proposals })
