-- ===== src/Toeplitz/Key/Period.antt =====
-- lib/hash_toeplitz.c: the words of a key that repeats 16 bits repeat every 16 places.
use odp_libtrace.Prelude.{
  ℕ, zero, suc, ◌+◌, ◌*◌, ◌/◌, ◌%◌, ◌^◌, ◌<◌, ◌≡◌, refl, ap, sym, ◌∙◌, arith, List, [], ◌∷◌, get_or,
}
use odp_libtrace.Toeplitz.Blocks.{Periodic}
use odp_libtrace.Toeplitz.Key.{word, shift_left, expand, hash_expand_key, fill, create_bikey}

-- The bits of a key, from the first byte's highest on, and 0 behind them.
abbrev bit : List ℕ → ℕ → ℕ
bit [] q = 0
bit (a ∷ key) zero = a / 128 % 2
bit (a ∷ key) (suc zero) = a / 64 % 2
bit (a ∷ key) (suc (suc zero)) = a / 32 % 2
bit (a ∷ key) (suc (suc (suc zero))) = a / 16 % 2
bit (a ∷ key) (suc (suc (suc (suc zero)))) = a / 8 % 2
bit (a ∷ key) (suc (suc (suc (suc (suc zero))))) = a / 4 % 2
bit (a ∷ key) (suc (suc (suc (suc (suc (suc zero)))))) = a / 2 % 2
bit (a ∷ key) (suc (suc (suc (suc (suc (suc (suc zero))))))) = a % 2
bit (a ∷ key) (suc (suc (suc (suc (suc (suc (suc (suc q)))))))) = bit key q

bit-shift_left : (key : List ℕ) (q : ℕ) → bit (shift_left key) q ≡ bit key (suc q)
bit-shift_left [] q = refl
bit-shift_left (a ∷ []) zero = omega arith
bit-shift_left (a ∷ []) (suc zero) = omega arith
bit-shift_left (a ∷ []) (suc (suc zero)) = omega arith
bit-shift_left (a ∷ []) (suc (suc (suc zero))) = omega arith
bit-shift_left (a ∷ []) (suc (suc (suc (suc zero)))) = omega arith
bit-shift_left (a ∷ []) (suc (suc (suc (suc (suc zero))))) = omega arith
bit-shift_left (a ∷ []) (suc (suc (suc (suc (suc (suc zero)))))) = omega arith
bit-shift_left (a ∷ []) (suc (suc (suc (suc (suc (suc (suc zero))))))) = omega arith
bit-shift_left (a ∷ []) (suc (suc (suc (suc (suc (suc (suc (suc q)))))))) = refl
bit-shift_left (a ∷ b ∷ key) zero = omega arith
bit-shift_left (a ∷ b ∷ key) (suc zero) = omega arith
bit-shift_left (a ∷ b ∷ key) (suc (suc zero)) = omega arith
bit-shift_left (a ∷ b ∷ key) (suc (suc (suc zero))) = omega arith
bit-shift_left (a ∷ b ∷ key) (suc (suc (suc (suc zero)))) = omega arith
bit-shift_left (a ∷ b ∷ key) (suc (suc (suc (suc (suc zero))))) = omega arith
bit-shift_left (a ∷ b ∷ key) (suc (suc (suc (suc (suc (suc zero)))))) = omega arith
bit-shift_left (a ∷ b ∷ key) (suc (suc (suc (suc (suc (suc (suc zero))))))) = omega arith
bit-shift_left (a ∷ b ∷ key) (suc (suc (suc (suc (suc (suc (suc (suc q)))))))) =
    bit-shift_left (b ∷ key) q

-- The key that is expanded, after `i` rounds.
abbrev shifts : ℕ → List ℕ → List ℕ
shifts zero key = key
shifts (suc i) key = shifts i (shift_left key)

bit-shifts : (i : ℕ) (key : List ℕ) (q : ℕ) → bit (shifts i key) q ≡ bit key (i + q)
bit-shifts zero key q = ap (bit key) (omega arith)
bit-shifts (suc i) key q =
    bit-shifts i (shift_left key) q ∙ bit-shift_left key (i + q) ∙ ap (bit key) (omega arith)

get_or-expand : (n i : ℕ) (key : List ℕ) → i < n → get_or (expand n key) i 0 ≡ word (shifts i key)
get_or-expand zero i key h = absurd (omega arith)
get_or-expand (suc n) zero key h = refl
get_or-expand (suc n) (suc i) key h = get_or-expand n i (shift_left key) (omega arith)

abbrev Bytes : List ℕ → Type 0
Bytes [] = Unit {0}
Bytes (a ∷ key) = (a < 256) × Bytes key

shift_left-Bytes : (key : List ℕ) → Bytes key → Bytes (shift_left key)
shift_left-Bytes [] h = tt
shift_left-Bytes (a ∷ []) h = omega arith
shift_left-Bytes (a ∷ b ∷ key) h = (omega arith, shift_left-Bytes (b ∷ key) h.1)

shifts-Bytes : (i : ℕ) (key : List ℕ) → Bytes key → Bytes (shifts i key)
shifts-Bytes zero key h = h
shifts-Bytes (suc i) key h = shifts-Bytes i (shift_left key) (shift_left-Bytes key h)

fill-Bytes : (n bi_key : ℕ) → Bytes (fill n bi_key)
fill-Bytes zero bi_key = tt
fill-Bytes (suc n) bi_key = (omega arith, (omega arith, fill-Bytes n bi_key))

-- A byte is its eight bits.
eight : (key : List ℕ) → ℕ → ℕ
eight key q =
    bit key q * 128
    + bit key (q + 1) * 64
    + bit key (q + 2) * 32
    + bit key (q + 3) * 16
    + bit key (q + 4) * 8
    + bit key (q + 5) * 4
    + bit key (q + 6) * 2
    + bit key (q + 7)

bit-behind : (a : ℕ) (key : List ℕ) (q r : ℕ) → r ≡ q + 8 → bit (a ∷ key) r ≡ bit key q
bit-behind a key q r e =
    let at : r ≡ suc (suc (suc (suc (suc (suc (suc (suc q))))))) = omega (arith, e) in
    ap (bit (a ∷ key)) at

eight-behind : (a : ℕ) (key : List ℕ) (q : ℕ) → eight (a ∷ key) (q + 8) ≡ eight key q
unfolding eight
eight-behind a key q = omega (
  arith,
  bit-behind a key q (q + 8) refl,
  bit-behind a key (q + 1) (q + 8 + 1) (omega arith),
  bit-behind a key (q + 2) (q + 8 + 2) (omega arith),
  bit-behind a key (q + 3) (q + 8 + 3) (omega arith),
  bit-behind a key (q + 4) (q + 8 + 4) (omega arith),
  bit-behind a key (q + 5) (q + 8 + 5) (omega arith),
  bit-behind a key (q + 6) (q + 8 + 6) (omega arith),
  bit-behind a key (q + 7) (q + 8 + 7) (omega arith),
)

get_or-eight : (key : List ℕ) (j : ℕ) → Bytes key → get_or key j 0 ≡ eight key (8 * j)
unfolding eight
get_or-eight [] j h = refl
get_or-eight (a ∷ key) zero h = omega arith
get_or-eight (a ∷ key) (suc j) h =
    get_or-eight key j h.1 ∙ sym (eight-behind a key (8 * j)) ∙ ap (eight (a ∷ key)) (omega arith)

eight-agree :
    (k l : List ℕ) (q : ℕ) → ((r : ℕ) → r < q + 8 → bit k r ≡ bit l r) → eight k q ≡ eight l q
unfolding eight
eight-agree k l q h = omega (
  arith,
  h q (omega arith),
  h (q + 1) (omega arith),
  h (q + 2) (omega arith),
  h (q + 3) (omega arith),
  h (q + 4) (omega arith),
  h (q + 5) (omega arith),
  h (q + 6) (omega arith),
  h (q + 7) (omega arith),
)

-- A word is made of the first 32 bits.
word-agree :
    (k l : List ℕ) → Bytes k → Bytes l → ((q : ℕ) → q < 32 → bit k q ≡ bit l q) → word k ≡ word l
word-agree k l hk hl h = omega (
  arith,
  get_or-eight k 0 hk,
  get_or-eight k 1 hk,
  get_or-eight k 2 hk,
  get_or-eight k 3 hk,
  get_or-eight l 0 hl,
  get_or-eight l 1 hl,
  get_or-eight l 2 hl,
  get_or-eight l 3 hl,
  eight-agree k l 0 (λ r b. h r (omega arith)),
  eight-agree k l 8 (λ r b. h r (omega arith)),
  eight-agree k l 16 (λ r b. h r (omega arith)),
  eight-agree k l 24 (λ r b. h r (omega arith)),
)

bit-under :
    (a : ℕ) (xs ys : List ℕ) (q : ℕ)
    → ((r : ℕ) → r + 8 ≡ q → bit xs r ≡ bit ys r)
    → bit (a ∷ xs) q ≡ bit (a ∷ ys) q
bit-under a xs ys zero h = refl
bit-under a xs ys (suc zero) h = refl
bit-under a xs ys (suc (suc zero)) h = refl
bit-under a xs ys (suc (suc (suc zero))) h = refl
bit-under a xs ys (suc (suc (suc (suc zero)))) h = refl
bit-under a xs ys (suc (suc (suc (suc (suc zero))))) h = refl
bit-under a xs ys (suc (suc (suc (suc (suc (suc zero)))))) h = refl
bit-under a xs ys (suc (suc (suc (suc (suc (suc (suc zero))))))) h = refl
bit-under a xs ys (suc (suc (suc (suc (suc (suc (suc (suc q)))))))) h = h q (omega arith)

fill-longer : (n bi_key q : ℕ) → q < 16 * n → bit (fill n bi_key) q ≡ bit (fill (suc n) bi_key) q
fill-longer zero bi_key q h = absurd (omega arith)
fill-longer (suc n) bi_key q h =
    let b = bi_key / 2 ^ 8 % 2 ^ 8 in
    bit-under (bi_key % 2 ^ 8) (b ∷ fill n bi_key) (b ∷ fill (suc n) bi_key) q (λ r e.
      bit-under b (fill n bi_key) (fill (suc n) bi_key) r
        (λ t f. fill-longer n bi_key t (omega (arith, e, f, h))))

-- 16 bits behind a bit of the key stands the same.
fill-repeats :
    (n bi_key q : ℕ) → q < 16 * n → bit (fill (suc n) bi_key) (q + 16) ≡ bit (fill (suc n) bi_key) q
fill-repeats n bi_key q h =
    let b = bi_key / 2 ^ 8 % 2 ^ 8 in
    bit-behind (bi_key % 2 ^ 8) (b ∷ fill n bi_key) (q + 8) (q + 16) (omega arith)
    ∙ bit-behind b (fill n bi_key) q (q + 8) refl
    ∙ fill-longer n bi_key q h

-- The words of the key for both directions, as far as a hash looks, repeat every 16 places.
pub bikey-Periodic : (random : ℕ) → Periodic (hash_expand_key (create_bikey random))
unfolding hash_expand_key create_bikey
bikey-Periodic random i h =
    let key = fill 20 (random % 2 ^ 16) in
    let bytes = fill-Bytes 20 (random % 2 ^ 16) in
    get_or-expand 320 (i + 16) key (omega arith)
    ∙ word-agree (shifts (i + 16) key) (shifts i key) (shifts-Bytes (i + 16) key bytes)
        (shifts-Bytes i key bytes)
        (λ q b.
          let there : i + 16 + q ≡ i + q + 16 = omega arith in
          bit-shifts (i + 16) key q
          ∙ ap (bit key) there
          ∙ fill-repeats 19 (random % 2 ^ 16) (i + q) (omega arith)
          ∙ sym (bit-shifts i key q))
    ∙ sym (get_or-expand 320 i key (omega arith))
