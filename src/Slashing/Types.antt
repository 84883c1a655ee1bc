-- ===== src/Slashing/Types.antt =====
-- slashing_module/src/lib.rs: the state, the readers of the keys and the gates. A commitment and a
-- string are only compared, so a number stands for each, 0 for the empty one; the evidence and the
-- salt are lists of bytes.
use shelterflex_contracts.Prelude.{
  ℕ, Bool, true, false, not, ◌||◌, Option, none, some, List, leb, ◌==◌, if◌then◌else◌, ◌*ℤ◌, ◌/ℤ◌,
  min_ℤ, ℤ, pos, unwrap_or,
}
use shelterflex_contracts.Host.{
  ◌>>=◌, ◌>>◌, fail_if, ok_or, require_auth, checked_i128, Outcome, Env, ok,
}

pub data SlashStatus : Type 0 where
  is_pending is_finalized is_cancelled : SlashStatus

pub data Offence : Type 0 where
  double_sign downtime invalid_block no_offence : Offence

pub record InspectorSlashRecord : Type 0 where
  pub inspection_id : ℕ
  pub amount : ℤ
  pub reason : ℕ
  pub slashed_at : ℕ

pub record PendingSlash : Type 0 where
  pub id : ℕ
  pub actor : ℕ
  pub amount : ℤ
  pub deadline : ℕ
  pub status : SlashStatus
  pub is_validator : Bool
  pub evidence_hash : Option ℕ
  pub offence : Offence
  pub submitter : Option ℕ
  pub penalty_bps : ℕ
  pub inspection_id : Option ℕ
  pub reason : Option ℕ

pub record SlashEvidence : Type 0 where
  pub actor : ℕ
  pub offence : Offence
  pub submitter : ℕ
  pub submitted_at : ℕ
  pub penalty_bps : ℕ
  pub slashed_amount : ℤ

pub data Error : Type 0 where
  already_initialized not_authorized paused duplicate_evidence zero_balance : Error
  already_jailed not_jailed unjail_not_approved unknown_offence arithmetic_error : Error
  slash_not_found challenge_window_not_elapsed slash_already_resolved invalid_amount : Error
  commitment_not_revealed invalid_reveal : Error

pub record State : Type 0 where
  pub admin : Option ℕ
  pub paused_flag : Option Bool
  pub submitter : ℕ → Option Bool
  pub slash_record : ℕ → Option SlashEvidence
  pub slash_count : ℕ → Option ℕ
  pub slashed_amount : ℕ → Option ℤ
  pub jailed : ℕ → Option Bool
  pub staked_balance : ℕ → Option ℤ
  pub unjail_approval : ℕ → Option Bool
  pub bond_contract : Option ℕ
  pub slash_history : ℕ → Option (List InspectorSlashRecord)
  pub challenge_window : Option ℕ
  pub next_slash_id : Option ℕ
  pub pending_slash : ℕ → Option PendingSlash
  pub commitment_revealed : ℕ → Option Bool
  pub tier_double_sign : Option ℕ
  pub tier_downtime : Option ℕ
  pub tier_invalid_block : Option ℕ
  pub max_slash_bps : Option ℕ

unfoldable pub require_admin : Env → ℕ → State → Outcome Error (Unit {0})
require_admin env caller s = do
  admin ← ok_or s.admin not_authorized
  require_auth env caller
  fail_if (not (caller == admin)) not_authorized

unfoldable pub require_not_paused : State → Outcome Error (Unit {0})
require_not_paused s = fail_if (unwrap_or s.paused_flag false) paused

unfoldable pub get_tier_bps : State → Offence → ℕ
get_tier_bps s double_sign = unwrap_or s.tier_double_sign 1000
get_tier_bps s downtime = unwrap_or s.tier_downtime 100
get_tier_bps s invalid_block = unwrap_or s.tier_invalid_block 500
get_tier_bps s no_offence = 0

unfoldable pub get_max_slash_bps : State → ℕ
get_max_slash_bps s = unwrap_or s.max_slash_bps 10000

unfoldable pub is_submitter : State → ℕ → Bool
is_submitter s caller = unwrap_or (s.submitter caller) false

unfoldable pub require_submitter : Env → ℕ → State → Outcome Error (Unit {0})
unfolding is_submitter
require_submitter env caller s = do
  require_auth env caller
  fail_if (not (is_submitter s caller)) not_authorized

abbrev pub is_bond_contract : Option ℕ → ℕ → Bool
is_bond_contract none caller = false
is_bond_contract (some bond) caller = caller == bond

-- The admin, a submitter or the bond contract; the role is tested before the signature.
unfoldable pub require_slasher : Env → ℕ → State → Outcome Error (Unit {0})
unfolding is_submitter
require_slasher env caller s = do
  admin ← ok_or s.admin not_authorized
  fail_if
      (not (caller == admin || (is_submitter s caller || is_bond_contract s.bond_contract caller)))
      not_authorized
  require_auth env caller

unfoldable pub get_staked_balance : State → ℕ → ℤ
get_staked_balance s actor = unwrap_or (s.staked_balance actor) (pos 0)

unfoldable pub get_total_slashed : State → ℕ → ℤ
get_total_slashed s actor = unwrap_or (s.slashed_amount actor) (pos 0)

unfoldable pub is_jailed : State → ℕ → Bool
is_jailed s actor = unwrap_or (s.jailed actor) false

unfoldable pub get_challenge_window : State → ℕ
get_challenge_window s = unwrap_or s.challenge_window 604800

abbrev pub min_ℕ : ℕ → ℕ → ℕ
min_ℕ a b = if leb a b then a else b

abbrev pub is_open : SlashStatus → Bool
is_open is_pending = true
is_open _ = false

-- The penalty on a balance, no more than the balance.
unfoldable pub slash_amount : ℤ → ℕ → Outcome Error ℤ
slash_amount balance bps = do
  scaled ← checked_i128 (balance *ℤ pos bps)
  ok (min_ℤ (scaled /ℤ 10000) balance)
