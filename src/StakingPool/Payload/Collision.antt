-- ===== src/StakingPool/Payload/Collision.antt =====
-- staking_pool/src/lib.rs: where the digits of the timestamp and of the amount meet.
use shelterflex_contracts.Prelude.{
  ℕ, zero, suc, ◌+◌, ◌*◌, ◌/◌, ◌%◌, ◌<◌, ◌≡◌, refl, sym, ap, ◌∙◌, inl, inr, true, false, none, some,
  List, [], ◌∷◌, append_assoc, reverse-cons, arith, ◌==◌, ==_ne, Bool-cases, pos,
}
use shelterflex_contracts.Host.{◌>>=◌, >>=-elim, Outcome, Env, ok}
use shelterflex_contracts.StakingPool.Payload.{
  digits_from, timestamp_digits, amount_bytes, create_canonical_payload_v1, compute_metadata_hash,
  ReceiptInput, Codec,
}
use shelterflex_contracts.StakingPool.Types.{Error}
use shelterflex_contracts.StakingPool.Payload.Digits.{digits_from_exact}

digits_of_zero : (cells n : ℕ) → (n == 0) ≡ true → digits_from cells n ≡ ok []
unfolding digits_from
digits_of_zero zero n z = rw z
digits_of_zero (suc cells) n z = rw (z, digits_from)

abbrev with_digit : ℕ → List ℕ → Outcome Error (List ℕ)
with_digit n ds = ok ((n % 10 + b'0') ∷ ds)

digits_from-suc :
    (cells n : ℕ)
    → (n == 0) ≡ false
    → digits_from (suc cells) n ≡ (digits_from cells (n / 10) >>= with_digit n)
unfolding digits_from
digits_from-suc cells n nz = rw (nz, digits_from)

no_cell : (n : ℕ) (ds : List ℕ) → (n == 0) ≡ false → digits_from zero n ≡ ok ds → ⊥
unfolding digits_from
no_cell n ds nz h = cc (rw nz at h)

-- More cells change nothing.
digits_from_more :
    (cells n : ℕ) (ds : List ℕ) → digits_from cells n ≡ ok ds → digits_from (suc cells) n ≡ ok ds
digits_from_more zero n ds h = elim (Bool-cases (n == 0)) [
  | inl z ↦ digits_of_zero 1 n z ∙ (sym (digits_of_zero 0 n z) ∙ h)
  | inr nz ↦ absurd (no_cell n ds nz h)
]
digits_from_more (suc cells) n ds h = elim (Bool-cases (n == 0)) [
  | inl z ↦ digits_of_zero (suc (suc cells)) n z ∙ (sym (digits_of_zero (suc cells) n z) ∙ h)
  | inr nz ↦
      >>=-elim (digits_from cells (n / 10)) (with_digit n) (sym (digits_from-suc cells n nz) ∙ h)
        λ es p q.
          digits_from-suc (suc cells) n nz
          ∙ ap (λ m. m >>= with_digit n) (digits_from_more cells (n / 10) es p)
          ∙ q
]

-- The digits of 10 * t + d, where d is a digit and t is not 0.
digits_from_shift :
    (cells t d : ℕ) (ds : List ℕ)
    → 0 < t
    → d < 10
    → digits_from cells t ≡ ok ds
    → digits_from (suc cells) (10 * t + d) ≡ ok ((d + b'0') ∷ ds)
digits_from_shift cells t d ds p q h =
    let e : (10 * t + d) / 10 ≡ t = omega arith in
    let r : (10 * t + d) % 10 ≡ d = omega arith in
    digits_from-suc cells (10 * t + d) (==_ne _ _ (omega arith)) ∙ rw (e, h, r)

digit_alone : (cells d : ℕ) → 0 < d → d < 10 → digits_from (suc cells) d ≡ ok ((d + b'0') ∷ [])
digit_alone cells d p q =
    let e : d / 10 ≡ 0 = omega arith in
    let r : d % 10 ≡ d = omega arith in
    digits_from-suc cells d (==_ne _ _ (omega arith)) ∙ rw (e, digits_of_zero cells 0 refl, r)

-- Two receipts that differ in the timestamp and the amount, and in nothing else, have the same
-- payload, and so the same hash, if they carry no metadata: the last digit of the one timestamp may
-- as well be the first digit of the other amount.
pub payload_collision :
    (c : Codec) (env : Env) (input : ReceiptInput) (t d m : ℕ)
    → input.metadata ≡ none
    → 0 < t
    → 10 * t + d < 18446744073709551616
    → 0 < d
    → d < 10
    → 0 < m
    → m < 10
    → create_canonical_payload_v1 c env
        (record input { timestamp = some (10 * t + d); amount_usdc = pos m })
      ≡ create_canonical_payload_v1 c env
          (record input { timestamp = some t; amount_usdc = pos (10 * d + m) })
unfolding create_canonical_payload_v1 timestamp_digits amount_bytes
payload_collision c env input t d m nometa tp fits dp dl mp ml =
    let (ds, e, _, _) = digits_from_exact 19 t (omega arith) in
    rw
      (
        nometa,
        ==_ne (10 * t + d) 0 (omega arith),
        digits_from_shift 19 t d ds tp dl e,
        ==_ne t 0 (omega arith),
        digits_from_more 19 t ds e,
        ==_ne m 0 (omega arith),
        digit_alone 39 m mp ml,
        ==_ne (10 * d + m) 0 (omega arith),
        digits_from_shift 39 d m ((d + b'0') ∷ []) dp ml (digit_alone 38 d dp dl),
      )
      (rw (reverse-cons (d + b'0') ds) (simp append_assoc))

-- Whatever the encoders and the hash, two receipts without metadata that are equal but for their
-- timestamps 10 t + d and t and their amounts m and 10 d + m, with t positive, d and m from 1 to 9
-- and 10 t + d a u64, have the same metadata hash.
pub hash_collision :
    (c : Codec) (env : Env) (input : ReceiptInput) (t d m : ℕ)
    → input.metadata ≡ none
    → 0 < t
    → 10 * t + d < 18446744073709551616
    → 0 < d
    → d < 10
    → 0 < m
    → m < 10
    → compute_metadata_hash c env
        (record input { timestamp = some (10 * t + d); amount_usdc = pos m })
      ≡ compute_metadata_hash c env
          (record input { timestamp = some t; amount_usdc = pos (10 * d + m) })
unfolding compute_metadata_hash
hash_collision c env input t d m nometa tp fits dp dl mp ml =
    ground (arith, payload_collision c env input t d m nometa tp fits dp dl mp ml)
