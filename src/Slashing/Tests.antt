-- ===== src/Slashing/Tests.antt =====
-- slashing_module/src/lib.rs: the properties at concrete calls.
use shelterflex_contracts.Prelude.{
  ℕ, ◌+◌, ◌*◌, ◌≡◌, refl, true, false, none, some, List, [], ◌∷◌, ◌++◌, arith, ==_ne, ◌+ℤ◌, ◌-ℤ◌,
  ◌*ℤ◌, ◌/ℤ◌, pos, update,
}
use shelterflex_contracts.Host.{Env, ok}
use shelterflex_contracts.Token.Wallets.{at}
use shelterflex_contracts.Slashing.Types.{
  get_tier_bps, get_max_slash_bps, is_submitter, require_submitter, require_slasher,
  get_staked_balance, get_total_slashed, is_jailed, get_challenge_window, slash_amount,
  PendingSlash, SlashEvidence, State, is_pending, is_finalized, double_sign,
}
use shelterflex_contracts.Slashing.Evidence.{
  next_slash_id, submit_evidence, hash_commitment, reveal_evidence,
}
use shelterflex_contracts.Slashing.Finality.{reduce_stake, slash_validator, finalize_slash}
use shelterflex_contracts.Slashing.Resolution.{finalize_slash-IsFinalized, IsFinalized}
use shelterflex_contracts.Slashing.Machine.{step, run, Call, cancels, finalizes, submits, reveals}
use shelterflex_contracts.Slashing.Cases.{keeps_stakes}
use shelterflex_contracts.Slashing.Changes.{step-Change, Change}
use shelterflex_contracts.Slashing.Final.{IsNumbered, run_final}
use shelterflex_contracts.Slashing.Backed.{run-HasEvidence, HasEvidence}
use shelterflex_contracts.Slashing.Conserved.{stake_and_slashed, KeepStakes, run_stakes}

abbrev digest : List ℕ → ℕ
digest [] = 1
digest (b ∷ bs) = b + 256 * digest bs

-- Admin 1, submitter 2, and a stake of 1000 of the validator 7.
abbrev opened : State
opened = record {
  admin = some 1;
  paused_flag = none;
  submitter = update 2 (some true) (λ a. none);
  slash_record = λ h. none;
  slash_count = λ a. none;
  slashed_amount = λ a. none;
  jailed = λ a. none;
  staked_balance = update 7 (some (pos 1000)) (λ a. none);
  unjail_approval = λ a. none;
  bond_contract = none;
  slash_history = λ a. none;
  challenge_window = none;
  next_slash_id = none;
  pending_slash = λ id. none;
  commitment_revealed = λ id. none;
  tier_double_sign = none;
  tier_downtime = none;
  tier_invalid_block = none;
  max_slash_bps = none;
}

-- The evidence is the byte 5, with the salt 6.
abbrev commitment : ℕ
commitment = digest (5 ∷ 6 ∷ [])

abbrev disclosure : List (Env × Call)
disclosure =
    (at 10, submits 2 commitment 7 double_sign) ∷ (at 20, reveals 2 1 (5 ∷ []) (6 ∷ [])) ∷ []

abbrev entry : PendingSlash
entry = record {
  id = 1;
  actor = 7;
  amount = pos 100;
  deadline = 604810;
  status = is_pending;
  is_validator = true;
  evidence_hash = some commitment;
  offence = double_sign;
  submitter = some 2;
  penalty_bps = 1000;
  inspection_id = none;
  reason = none;
}

abbrev first_record : SlashEvidence
first_record = record {
  actor = 7;
  offence = double_sign;
  submitter = 2;
  submitted_at = 10;
  penalty_bps = 1000;
  slashed_amount = pos 0;
}

abbrev disclosed : State
disclosed = record opened {
  next_slash_id = some 1;
  pending_slash = update 1 (some entry) (λ id. none);
  slash_record = update commitment (some first_record) (λ h. none);
  commitment_revealed = update 1 (some true) (update 1 (some false) (λ id. none));
}

disclosed_test : run digest disclosure opened ≡ disclosed
unfolding run step submit_evidence reveal_evidence hash_commitment require_submitter is_submitter
    is_jailed get_tier_bps get_max_slash_bps get_staked_balance slash_amount next_slash_id
    get_challenge_window ◌+ℤ◌ ◌-ℤ◌ ◌*ℤ◌ ◌/ℤ◌
disclosed_test = refl

abbrev finalized : PendingSlash
finalized = record entry { status = is_finalized }

abbrev slashed : State
slashed = record disclosed {
  pending_slash = update 1 (some finalized) disclosed.pending_slash;
  staked_balance = update 7 (some (pos 900)) opened.staked_balance;
  slashed_amount = update 7 (some (pos 100)) opened.slashed_amount;
  slash_count = update 7 (some 1) opened.slash_count;
  jailed = update 7 (some true) opened.jailed;
  slash_record =
      update commitment
        (some (record first_record { submitted_at = 604810; slashed_amount = pos 100 }))
        disclosed.slash_record;
}

slashed_test : finalize_slash (at 604810) 1 1 disclosed ≡ ok slashed
unfolding finalize_slash require_slasher is_submitter slash_validator reduce_stake
    get_staked_balance get_total_slashed ◌+ℤ◌ ◌-ℤ◌
slashed_test = refl

finalize_slash-IsFinalized_test : IsFinalized (at 604810) 1 1 disclosed slashed
finalize_slash-IsFinalized_test =
    finalize_slash-IsFinalized (at 604810) 1 1 disclosed slashed slashed_test

step-Change_example :
    Change digest
      (at 604810)
      (finalizes 1 1)
      disclosed
      (step digest (at 604810) (finalizes 1 1) disclosed)
step-Change_example = step-Change digest (at 604810) disclosed (finalizes 1 1)

abbrev all_calls : List (Env × Call)
all_calls = disclosure ++ (at 604810, finalizes 1 1) ∷ []

run-HasEvidence_example : HasEvidence digest finalized
unfolding run step submit_evidence reveal_evidence hash_commitment require_submitter is_submitter
    is_jailed get_tier_bps get_max_slash_bps get_staked_balance slash_amount next_slash_id
    get_challenge_window finalize_slash require_slasher slash_validator reduce_stake
    get_total_slashed ◌+ℤ◌ ◌-ℤ◌ ◌*ℤ◌ ◌/ℤ◌
run-HasEvidence_example =
    run-HasEvidence digest all_calls opened 1 finalized (λ j. refl) refl refl refl

slashed-IsNumbered : IsNumbered slashed
unfolding IsNumbered
slashed-IsNumbered = λ id lt. rw (==_ne id 1 (λ e. omega (arith, e, lt))) refl

-- The finalised slash can be neither cancelled nor finalised again.
run_final_example :
    (run digest ((at 604900, cancels 1 1) ∷ (at 605000, finalizes 1 1) ∷ []) slashed).pending_slash
      1
    ≡ some finalized
run_final_example =
    run_final digest ((at 604900, cancels 1 1) ∷ (at 605000, finalizes 1 1) ∷ []) slashed 1
      finalized slashed-IsNumbered refl refl

run_stakes_example : stake_and_slashed 7 (run digest all_calls opened) ≡ stake_and_slashed 7 opened
unfolding KeepStakes keeps_stakes
run_stakes_example = run_stakes 7 digest all_calls opened (refl, (refl, (refl, tt)))
