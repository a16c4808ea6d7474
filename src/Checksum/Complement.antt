-- ===== src/Checksum/Complement.antt =====
-- lib/checksum.c, finish_checksum: the folding of the carries and the complement.
use odp_libtrace.Prelude.{
  ℕ, suc, ◌+◌, ◌-◌, ◌/◌, ◌%◌, ◌^◌, ◌≤◌, ◌<◌, ◌≡◌, Option, some, arith, dec_lt, ◌∙◌, ap, sym,
}
use mathlib.Core.Option.{some-injective}
use odp_libtrace.Checksum.{fold_carry, finish_checksum}

-- A round of the loop, by the test.
fold_carry-done :
    (rounds sum : ℕ) → sum < 2 ^ 16 → fold_carry (suc rounds) sum ≡ some (2 ^ 16 - 1 - sum)
unfolding fold_carry
fold_carry-done rounds sum h = ground arith

fold_carry-more :
    (rounds sum : ℕ)
    → 2 ^ 16 ≤ sum
    → sum < 2 ^ 32
    → fold_carry (suc rounds) sum ≡ fold_carry rounds (sum % 2 ^ 16 + sum / 2 ^ 16)
unfolding fold_carry
fold_carry-more rounds sum h g = ground arith

-- What the loop leaves of a sum that it was given enough rounds for.
record Complements (sum : ℕ) (out : Option ℕ) : Type 0 where
  pub result : ℕ
  pub returns : out ≡ some result
  pub word : result < 2 ^ 16
  pub zero_sum : (sum + result) % 65535 ≡ 0
  pub proper : 0 < sum → result < 65535

one_round : (rounds sum : ℕ) → sum < 2 ^ 16 → Complements sum (fold_carry (suc rounds) sum)
one_round rounds sum h = record {
  result = 2 ^ 16 - 1 - sum;
  returns = fold_carry-done rounds sum h;
  word = omega arith;
  zero_sum = omega arith;
  proper = λ h. omega arith;
}

two_rounds :
    (rounds sum : ℕ) → sum < 2 ^ 17 - 1 → Complements sum (fold_carry (suc (suc rounds)) sum)
two_rounds rounds sum h = elim (dec_lt sum (2 ^ 16)) [
  | yes l ↦ one_round (suc rounds) sum l
  | no n ↦
      let r = one_round rounds (sum % 2 ^ 16 + sum / 2 ^ 16) (omega arith) in
      record {
        result = r.result;
        returns = fold_carry-more (suc rounds) sum (omega arith) (omega arith) ∙ r.returns;
        word = r.word;
        zero_sum = omega (arith, r.zero_sum);
        proper = λ h. r.proper (omega arith);
      }
]

three_rounds :
    (rounds sum : ℕ) → sum < 2 ^ 32 → Complements sum (fold_carry (suc (suc (suc rounds))) sum)
three_rounds rounds sum h = elim (dec_lt sum (2 ^ 16)) [
  | yes l ↦ one_round (suc (suc rounds)) sum l
  | no n ↦
      let r = two_rounds rounds (sum % 2 ^ 16 + sum / 2 ^ 16) (omega arith) in
      record {
        result = r.result;
        returns = fold_carry-more (suc (suc rounds)) sum (omega arith) (omega arith) ∙ r.returns;
        word = r.word;
        zero_sum = omega (arith, r.zero_sum);
        proper = λ h. r.proper (omega arith);
      }
]

-- Every 32-bit sum is folded within three rounds to a 16-bit word that brings the sum to 0
-- modulo 65535.
pub finish_checksum-complements :
    (sum : ℕ)
    → sum < 2 ^ 32
    → (r : ℕ) × (finish_checksum sum ≡ some r) × (r < 2 ^ 16) × ((sum + r) % 65535 ≡ 0)
unfolding finish_checksum
finish_checksum-complements sum h =
    let r = three_rounds 0 sum h in (r.result, r.returns, r.word, r.zero_sum)

-- A receiver that adds the checksum of a sum to that sum gets 0 for its own checksum, where the sum
-- is not 0.
pub finish_checksum-verifies :
    (sum r : ℕ)
    → 0 < sum
    → sum < 2 ^ 32 - 2 ^ 16
    → finish_checksum sum ≡ some r
    → finish_checksum (sum + r) ≡ some 0
unfolding finish_checksum
finish_checksum-verifies sum r pos h e =
    let c = three_rounds 0 sum (omega arith) in
    let same = some-injective _ _ (sym c.returns ∙ e) in
    let c' = three_rounds 0 (sum + r) (omega (arith, same, c.word)) in
    let final : c'.result ≡ 0 =
      omega (arith, same, c.zero_sum, c'.zero_sum, c'.proper (omega arith)) in
    c'.returns ∙ ap some final
