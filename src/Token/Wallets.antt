-- ===== src/Token/Wallets.antt =====
-- A token for the tests: the state is the balance of each holder of the one token, and a transfer
-- that the sender cannot pay traps.
use shelterflex_contracts.Prelude.{
  ℕ, ◌≡◌, true, false, not, none, some, arith, ◌==◌, if◌then◌else◌, ◌+ℤ◌, ◌-ℤ◌, ltb_ℤ, eq_of_parts,
  ℤ, int_laws, update,
}
use shelterflex_contracts.Host.{Env}
use shelterflex_contracts.Token.{Transfer, IsToken}

-- The environment of a call at a time, which everybody but the contract itself has authorised.
abbrev pub at : ℕ → Env
at time = record {
  authorized = λ a. not (a == 50);
  reauthorized = λ a. false;
  timestamp = time;
  sequence = 1;
  current = 50;
  uploaded = λ hash. true;
}

abbrev pub Wallets : Type 0
Wallets = ℕ → ℤ

abbrev pub move : ℕ → ℕ → ℤ → Wallets → Wallets
move from to amount w =
    let paid = update from (w from -ℤ amount) w in update to (paid to +ℤ amount) paid

abbrev pub transfer : Transfer Wallets
transfer env token from to amount w =
    if ltb_ℤ (w from) amount then none else some (move from to amount w)

abbrev pub held : Wallets → ℕ → ℕ → ℤ
held w token a = w a

sub-add_ℤ : (a b : ℤ) → a -ℤ b +ℤ b ≡ a
sub-add_ℤ a b = eq_of_parts (a -ℤ b +ℤ b) a (omega int_laws)

pub transfer-IsToken : IsToken transfer held
transfer-IsToken = record {
  receives = λ env token from to amount before after e ne. ground arith;
  pays = λ env token from to amount before after e ne. ground arith;
  to_itself =
      λ env token from amount before after e. ground (arith, sub-add_ℤ (before from) amount);
}
