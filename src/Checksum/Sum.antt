-- ===== src/Checksum/Sum.antt =====
-- lib/checksum.c, add_checksum: the sum of the 16-bit words.
use odp_libtrace.Prelude.{
  ℕ, zero, suc, ◌+◌, ◌*◌, ◌^◌, ◌<◌, ◌≡◌, refl, ap, List, [], ◌∷◌, arith, length,
}
use odp_libtrace.Checksum.{add_words, add_checksum}

-- Every byte is below 256.
pub data Bytes : List ℕ → Type 0 where
  none : Bytes []
  next : {b : ℕ} {bs : List ℕ} → b < 256 → Bytes bs → Bytes (b ∷ bs)

-- The bytes with their weights: 1 at an even place and 256 at an odd one.
unfoldable mutual
  pub weigh_low : List ℕ → ℕ
  weigh_low [] = 0
  weigh_low (b ∷ bs) = b + weigh_high bs

  pub weigh_high : List ℕ → ℕ
  weigh_high [] = 0
  weigh_high (b ∷ bs) = 256 * b + weigh_low bs

-- A step of the loop.
add_words-pair :
    (a b : ℕ) (bs : List ℕ) (count sum : ℕ)
    → a < 256
    → b < 256
    → sum + 65535 < 2 ^ 32
    → add_words (a ∷ b ∷ bs) (suc (suc count)) sum ≡ add_words bs count (sum + (a + 256 * b))
unfolding add_words
add_words-pair a b bs count sum h g s = ap (add_words bs count) (omega arith)

add_words-weigh :
    (bs : List ℕ) (count sum : ℕ)
    → Bytes bs
    → length bs ≡ count
    → sum + 32768 * count + 65535 < 2 ^ 32
    → add_words bs count sum ≡ sum + weigh_low bs
unfolding add_words weigh_low weigh_high
add_words-weigh [] zero sum by len room = omega arith
add_words-weigh (b ∷ []) (suc zero) sum (next h by) len room = omega arith
add_words-weigh (a ∷ b ∷ bs) (suc (suc count)) sum (next h (next g by)) len room = omega (
  arith,
  add_words-pair a b bs count sum h g (omega arith),
  add_words-weigh bs count (sum + (a + 256 * b)) by (omega arith) (omega arith),
)
add_words-weigh [] (suc count) sum by len room = absurd (omega arith)
add_words-weigh (b ∷ bs) zero sum by len room = absurd (omega arith)
add_words-weigh (b ∷ []) (suc (suc count)) sum by len room = absurd (omega arith)
add_words-weigh (b ∷ c ∷ bs) (suc zero) sum by len room = absurd (omega arith)

-- add_checksum of a buffer of at most 65535 bytes does not wrap round: it is the sum of the bytes,
-- those at the odd places times 256.
pub add_checksum-weigh :
    (buffer : List ℕ)
    → Bytes buffer
    → length buffer < 2 ^ 16
    → add_checksum buffer (length buffer) ≡ weigh_low buffer
unfolding add_checksum
add_checksum-weigh buffer by short =
    omega (arith, add_words-weigh buffer (length buffer) 0 by refl (omega arith))
