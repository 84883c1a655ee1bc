-- ===== src/Multisig/Types.antt =====
-- multisig_admin/src/lib.rs: the proposals and the state, a field for each storage key. The
-- parameters of a proposal are bytes that the contract only stores.
use shelterflex_contracts.Prelude.{ℕ, Option, List}

-- The contract returns no errors: these are the messages of its panics.
pub data Panic : Type 0 where
  already_initialized invalid_threshold not_initialized not_a_signer proposal_expired : Panic
  unknown_proposal not_pending already_approved not_approved not_enough_approvals : Panic

pub record Config : Type 0 where
  pub signers : List ℕ
  pub threshold : ℕ

pub data ProposalStatus : Type 0 where
  pending executed cancelled expired : ProposalStatus

pub data OperationType : Type 0 where
  force_release_escrow execute_slash upgrade_contract : OperationType
  set_oracle_staleness freeze_account update_upgrade_delay : OperationType

pub record Proposal : Type 0 where
  pub proposer : ℕ
  pub operation : OperationType
  pub params : List ℕ
  pub expiry : ℕ
  pub status : ProposalStatus
  pub approval_count : ℕ

pub record State : Type 0 where
  pub config : Option Config
  pub next_proposal_id : Option ℕ
  pub proposals : ℕ → Option Proposal
  pub approvals : ℕ → Option (List ℕ)
