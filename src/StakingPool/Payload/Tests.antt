-- ===== src/StakingPool/Payload/Tests.antt =====
-- staking_pool/src/lib.rs: the payload at concrete receipts, with encoders that mark the end of each
-- field and a hash that keeps the payload whole.
use shelterflex_contracts.Prelude.{
  ℕ, ◌+◌, ◌*◌, ◌≡◌, refl, true, false, none, some, List, [], ◌∷◌, ◌++◌, arith, pos, length,
}
use shelterflex_contracts.Host.{Env, ok}
use shelterflex_contracts.StakingPool.Payload.{
  digits_from, timestamp_digits, amount_bytes, create_canonical_payload_v1, compute_metadata_hash,
  ReceiptInput, Codec,
}
use shelterflex_contracts.StakingPool.Payload.Digits.{value, AllDigits, digits_from_exact}
use shelterflex_contracts.StakingPool.Payload.Collision.{hash_collision}

abbrev codec : Codec
codec = record {
  xdr_symbol = λ s. s ++ 0 ∷ [];
  xdr_address = λ a. a ∷ 0 ∷ [];
  xdr_string = λ s. s ++ 0 ∷ [];
  xdr_map = λ m. length m ∷ 0 ∷ [];
  sha256 = λ bytes. bytes;
}

abbrev now : Env
now = record {
  authorized = λ a. true;
  reauthorized = λ a. false;
  timestamp = 7;
  sequence = 1;
  current = 50;
  uploaded = λ hash. true;
}

abbrev receipt : ReceiptInput
receipt = record {
  tx_type = b's' ∷ [];
  amount_usdc = pos 1;
  token = 9;
  user = 2;
  timestamp = none;
  deal_id = none;
  listing_id = none;
  metadata = none;
}

-- 5 tokens at time 123 and 35 tokens at time 12: `1235` ends both payloads.
hash_collision_example :
    compute_metadata_hash codec now
      (record receipt { timestamp = some (10 * 12 + 3); amount_usdc = pos 5 })
    ≡ compute_metadata_hash codec now
        (record receipt { timestamp = some 12; amount_usdc = pos (10 * 3 + 5) })
hash_collision_example =
    hash_collision codec now receipt 12 3 5 refl (omega arith) (omega arith) (omega arith)
      (omega arith) (omega arith) (omega arith)

payload_test :
    create_canonical_payload_v1 codec now
      (record receipt { timestamp = some 123; amount_usdc = pos 5 })
    ≡ ok (b's' ∷ 0 ∷ 9 ∷ 0 ∷ 2 ∷ 0 ∷ 0 ∷ 0 ∷ b'1' ∷ b'2' ∷ b'3' ∷ b'5' ∷ [])
unfolding create_canonical_payload_v1 timestamp_digits amount_bytes digits_from
payload_test = refl

digits_from_exact_test :
    (ds : List ℕ) × (digits_from 20 18446744073709551615 ≡ ok ds)
    × (value ds ≡ 18446744073709551615)
    × AllDigits ds
digits_from_exact_test = digits_from_exact 20 18446744073709551615 (omega arith)
