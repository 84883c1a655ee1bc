-- ===== src/StakingPool/Payload.antt =====
-- staking_pool/src/lib.rs: the receipt payload and its hash. A byte is a number; a text and a
-- symbol's text are lists of bytes; the XDR encoder and SHA-256 belong to the host.
use shelterflex_contracts.Prelude.{
  ℕ, zero, suc, ◌+◌, ◌/◌, ◌%◌, Bool, true, false, Option, none, some, List, [], ◌∷◌, ◌++◌, reverse,
  ◌==◌, if◌then◌else◌, ℤ, pos, negsuc, unwrap_or, bytes_eq,
}
use shelterflex_contracts.Host.{◌>>=◌, ◌>>◌, checked_i128, Outcome, Env, ok, trap}
use shelterflex_contracts.StakingPool.Types.{Error}
use shelterflex_contracts.StakingPool.Calls.{require_valid_amount}
pub mod Digits
pub mod Collision
mod Tests

pub record ReceiptInput : Type 0 where
  pub tx_type : List ℕ
  pub amount_usdc : ℤ
  pub token : ℕ
  pub user : ℕ
  pub timestamp : Option ℕ
  pub deal_id : Option (List ℕ)
  pub listing_id : Option (List ℕ)
  pub metadata : Option (List (List ℕ × List ℕ))

-- The host's encoders and hash.
pub record Codec : Type 0 where
  pub xdr_symbol : List ℕ → List ℕ
  pub xdr_address : ℕ → List ℕ
  pub xdr_string : List ℕ → List ℕ
  pub xdr_map : List (List ℕ × List ℕ) → List ℕ
  pub sha256 : List ℕ → List ℕ

-- `while n > 0 { digits[pos] = (n % 10) as u8 + b'0'; n /= 10; pos += 1; }` on an array with `cells`
-- cells left: the digits in the order in which they are written, the lowest first. A write behind
-- the array's end panics.
unfoldable pub digits_from : ℕ → ℕ → Outcome Error (List ℕ)
digits_from zero n = if n == 0 then ok [] else trap
digits_from (suc cells) n = elim (n == 0) [
  | true ↦ ok []
  | false ↦ digits_from cells (n / 10) >>= λ ds. ok ((n % 10 + b'0') ∷ ds)
]

-- The digits of the timestamp, with at least one of them.
unfoldable pub timestamp_digits : ℕ → Outcome Error (List ℕ)
timestamp_digits ts = if ts == 0 then ok (b'0' ∷ []) else digits_from 20 ts

-- The sign and the digits of the amount, as they are appended. `-amount` may overflow.
unfoldable pub amount_bytes : ℤ → Outcome Error (List ℕ)
amount_bytes (pos n) =
    if n == 0 then ok (b'0' ∷ []) else (digits_from 40 n >>= λ ds. ok (reverse ds))
amount_bytes (negsuc n) = do
  checked_i128 (pos (suc n))
  ds ← digits_from 40 (suc n)
  ok (b'-' ∷ reverse ds)

abbrev pub metadata_bytes : Codec → Option (List (List ℕ × List ℕ)) → List ℕ
metadata_bytes c none = []
metadata_bytes c (some m) = c.xdr_map m

-- `compute_metadata_hash` admits no amount of zero or less, so what `amount_bytes` does there is
-- not reached from it.
unfoldable pub create_canonical_payload_v1 : Codec → Env → ReceiptInput → Outcome Error (List ℕ)
create_canonical_payload_v1 c env input = do
  ts ← timestamp_digits (unwrap_or input.timestamp env.timestamp)
  amount ← amount_bytes input.amount_usdc
  ok (
      c.xdr_symbol input.tx_type
      ++ (c.xdr_address input.token
          ++ (c.xdr_address input.user
              ++ (c.xdr_string (unwrap_or input.deal_id [])
                  ++ (c.xdr_string (unwrap_or input.listing_id [])
                      ++ (reverse ts ++ (metadata_bytes c input.metadata ++ amount)))))))

unfoldable pub compute_metadata_hash : Codec → Env → ReceiptInput → Outcome Error (List ℕ)
unfolding require_valid_amount
compute_metadata_hash c env input = do
  require_valid_amount input.amount_usdc
  payload ← create_canonical_payload_v1 c env input
  ok (c.sha256 payload)

unfoldable pub verify_metadata_hash : Codec → Env → ReceiptInput → List ℕ → Outcome Error Bool
unfolding compute_metadata_hash
verify_metadata_hash c env input expected_hash = do
  computed_hash ← compute_metadata_hash c env input
  ok (bytes_eq computed_hash expected_hash)
