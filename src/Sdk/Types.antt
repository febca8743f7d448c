-- ===== src/Sdk/Types.antt =====
-- sdk/src/types.ts: the records that the client, the cache and the decoders exchange.
-- A `bigint` or a `number` that the contract returns (an id, a vote count, a ledger) is a natural
-- number; a number that a caller passes in is a `Number` where the code checks it.
use stellar_quorum.Base.{ℕ, String, Bool, Option, List}
use stellar_quorum.Base.Number.{Number}

pub data ProposalStatus : Type 0 where
  pending active passed failed queued executed cancelled : ProposalStatus

pub data VoteSupport : Type 0 where
  against for abstain : VoteSupport

pub record Proposal : Type 0 where
  pub id : ℕ
  pub proposer : String
  pub title : String
  pub description : String
  pub for_votes : ℕ
  pub against_votes : ℕ
  pub abstain_votes : ℕ
  pub snapshot_ledger : ℕ
  pub start_ledger : ℕ
  pub end_ledger : ℕ
  pub queue_ledger : ℕ
  pub quorum_required : ℕ
  pub status : ProposalStatus

pub record GovernanceConfig : Type 0 where
  pub token : String
  pub quorum_bps : ℕ
  pub voting_period : ℕ
  pub timelock_period : ℕ
  pub proposal_threshold : ℕ
  pub admin : String

pub data ReadMethod : Type 0 where
  get_proposal get_proposal_count get_config get_vote : ReadMethod
  get_latest_ledger get_voting_power get_balance get_token_decimals : ReadMethod
  balance get_past_balance allowance total_supply : ReadMethod

-- `methodTtlMs` lists the methods that have a lifetime of their own.
pub record ReadCacheConfig : Type 0 where
  pub enabled : Bool
  pub ttl_ms : Option Number
  pub method_ttl_ms : List (ReadMethod × Number)
  pub max_entries : Option Number

-- A missing flag is false.
pub record ReadOptions : Type 0 where
  pub bypass_cache : Bool
  pub invalidate_cache : Bool

pub record QuorumClientConfig : Type 0 where
  pub rpc_url : String
  pub network_passphrase : String
  pub governance_contract_id : String
  pub token_contract_id : Option String
  pub request_timeout_ms : Option ℕ
  pub read_retry_attempts : Option ℕ
  pub retry_base_delay_ms : Option ℕ
  pub retry_jitter_ms : Option ℕ
  pub poll_interval_ms : Option ℕ
  pub confirmation_timeout_ms : Option ℕ
  pub cache : Option ReadCacheConfig
  pub batch_simulation : Bool
  pub simulation_batch_size : Option Number

pub record TransactionConfirmationOptions : Type 0 where
  pub poll_interval_ms : Option ℕ
  pub timeout_ms : Option ℕ

pub record WaitForStatusOptions : Type 0 where
  pub poll_interval_ms : Option ℕ
  pub timeout_ms : Option ℕ

pub record FeeEstimate : Type 0 where
  pub inclusion_fee : ℕ
  pub resource_fee : ℕ
  pub total_fee : ℕ

pub record GetProposalsOptions : Type 0 where
  pub read_options : ReadOptions
  pub limit : Option Number
  pub offset : Option Number
