-- ===== src/Checksum/Verify.antt =====
-- lib/checksum.c: a checksum that is stored in the buffer it was computed from.
use odp_libtrace.Prelude.{
  ℕ, ◌+◌, ◌-◌, ◌*◌, ◌/◌, ◌%◌, ◌^◌, ◌≤◌, ◌<◌, ◌≡◌, ap, sym, ◌∙◌, List, [], ◌∷◌, ◌++◌, some, arith,
  length, length-append,
}
use mathlib.Core.Option.{some-injective}
use odp_libtrace.Checksum.{add_checksum, finish_checksum, checksum_buffer}
use odp_libtrace.Checksum.Sum.{Bytes, none, next, weigh_low, weigh_high, add_checksum-weigh}
use odp_libtrace.Checksum.Complement.{finish_checksum-complements, finish_checksum-verifies}

weigh_low-append :
    (pre post : List ℕ)
    → length pre % 2 ≡ 0
    → weigh_low (pre ++ post) ≡ weigh_low pre + weigh_low post
unfolding weigh_low weigh_high
weigh_low-append [] post even = omega arith
weigh_low-append (a ∷ []) post even = absurd (omega arith)
weigh_low-append (a ∷ b ∷ pre) post even = omega (arith, weigh_low-append pre post (omega arith))

weigh-bound :
    (bs : List ℕ)
    → Bytes bs
    → (weigh_low bs ≤ 65280 * length bs) × (weigh_high bs ≤ 65280 * length bs)
unfolding weigh_low weigh_high
weigh-bound [] by = (omega arith, omega arith)
weigh-bound (b ∷ bs) (next h by) = let (low, high) = weigh-bound bs by in (omega arith, omega arith)

Bytes-append : {xs ys : List ℕ} → Bytes xs → Bytes ys → Bytes (xs ++ ys)
Bytes-append none b = b
Bytes-append (next h a) b = next h (Bytes-append a b)

-- The sum of a buffer with a 16-bit word at an even place.
sum_with :
    (pre post : List ℕ) (low high : ℕ)
    → Bytes pre
    → Bytes post
    → low < 256
    → high < 256
    → length pre % 2 ≡ 0
    → length pre + 2 + length post < 2 ^ 16
    → let buffer = pre ++ (low ∷ high ∷ post) in
      add_checksum buffer (length buffer) ≡ weigh_low pre + (low + (256 * high + weigh_low post))
unfolding weigh_low weigh_high
sum_with pre post low high bp bq l h even short =
    add_checksum-weigh (pre ++ (low ∷ high ∷ post)) (Bytes-append bp (next l (next h bq)))
      (omega (arith, length-append pre (low ∷ high ∷ post)))
    ∙ weigh_low-append pre (low ∷ high ∷ post) even

-- A buffer of fewer than 2^16 bytes, not all of them 0, whose checksum is computed with a 16-bit
-- field at an even place set to 0 and then stored there, has the checksum 0.
pub checksum_buffer-verifies :
    (pre post : List ℕ) (r : ℕ)
    → Bytes pre
    → Bytes post
    → length pre % 2 ≡ 0
    → length pre + 2 + length post < 2 ^ 16
    → 0 < weigh_low pre + weigh_low post
    → checksum_buffer (pre ++ (0 ∷ 0 ∷ post)) (length (pre ++ (0 ∷ 0 ∷ post))) ≡ some r
    → checksum_buffer
        (pre ++ (r % 256 ∷ r / 256 ∷ post))
        (length (pre ++ (r % 256 ∷ r / 256 ∷ post)))
      ≡ some 0
unfolding checksum_buffer
checksum_buffer-verifies pre post r bp bq even short some_byte e =
    let sum = weigh_low pre + weigh_low post in
    let before : add_checksum (pre ++ (0 ∷ 0 ∷ post)) (length (pre ++ (0 ∷ 0 ∷ post))) ≡ sum =
      omega (arith, sum_with pre post 0 0 bp bq (omega arith) (omega arith) even short) in
    let small : sum < 2 ^ 32 - 2 ^ 16 =
      omega (arith, (weigh-bound pre bp).0, (weigh-bound post bq).0) in
    let (r', returns, word, _) = finish_checksum-complements sum (omega arith) in
    let finished : finish_checksum sum ≡ some r = sym (ap finish_checksum before) ∙ e in
    let same : r' ≡ r = some-injective r' r (sym returns ∙ finished) in
    let after : add_checksum (pre ++ (r % 256 ∷ r / 256 ∷ post))
          (length (pre ++ (r % 256 ∷ r / 256 ∷ post)))
        ≡ sum + r =
      omega (
        arith,
        sum_with pre post (r % 256) (r / 256) bp bq (omega arith) (omega arith) even short,
      ) in
    ap finish_checksum after ∙ finish_checksum-verifies sum r some_byte small finished
