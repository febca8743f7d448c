-- ===== src/Frontend/Types.antt =====
-- frontend/lib/types.ts: a proposal as the user interface has it. Dates are ISO texts; the numbers are
-- whole (`Number` of a bigint).
use stellar_quorum.Base.{ℕ, String, List}

pub data ProposalStatus : Type 0 where
  active passed failed pending executed cancelled : ProposalStatus

pub data VoteChoice : Type 0 where
  for against abstain : VoteChoice

pub record Vote : Type 0 where
  pub voter : String
  pub choice : VoteChoice
  pub weight : ℕ
  pub timestamp : String

pub record ProposalAction : Type 0 where
  pub description : String
  pub contract_address : String
  pub function_name : String

pub record Proposal : Type 0 where
  pub id : String
  pub title : String
  pub description : String
  pub proposer : String
  pub status : ProposalStatus
  pub start_time : String
  pub end_time : String
  pub snapshot_ledger : ℕ
  pub for_votes : ℕ
  pub against_votes : ℕ
  pub abstain_votes : ℕ
  pub quorum_required : ℕ
  pub actions : List ProposalAction
  pub votes : List Vote
  pub category : String
