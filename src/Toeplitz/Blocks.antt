-- ===== src/Toeplitz/Blocks.antt =====
-- lib/hash_toeplitz.c: with a key of which every 16 bits are the same, two blocks of as many bytes
-- may change places.
use Prim.Native.Nat.{bit_xor}
use odp_libtrace.Prelude.{
  ℕ, zero, suc, ◌+◌, ◌*◌, ◌≤◌, ◌<◌, ◌≡◌, refl, ap, ap₂, sym, ◌∙◌, arith, Bool, true, false, List,
  Ptr, get_or, if◌then◌else◌,
}
use odp_libtrace.Prelude.Bits.{bit_xor-swap}
use odp_libtrace.Protocols.Cursor.{Memory}
use odp_libtrace.Toeplitz.{get_bit, hash_bits, hash_bytes}

-- Words 16 places apart are the same, as far as a hash looks.
abbrev pub Periodic : List ℕ → Type 0
Periodic keys = (i : ℕ) → i + 16 < 288 → get_or keys (i + 16) 0 ≡ get_or keys i 0

-- The bytes at two addresses are the same.
abbrev pub Same : ℕ → Memory → Ptr → Memory → Ptr → Type 0
Same n m p m' p' = (j : ℕ) → j < n → m (p + j) ≡ m' (p' + j)

-- What a step may do to the result.
abbrev flip : Bool → ℕ → ℕ → ℕ
flip b key result = if b then bit_xor result key else result

flip-swap : (a b : Bool) (x y r : ℕ) → flip a x (flip b y r) ≡ flip b y (flip a x r)
flip-swap true true x y r = bit_xor-swap r y x
flip-swap true false x y r = refl
flip-swap false true x y r = refl
flip-swap false false x y r = refl

module _ (keys : List ℕ) where
  hash_bits-flip :
      (n bit byte i : ℕ) (b : Bool) (x r : ℕ)
      → hash_bits n bit keys byte i (flip b x r) ≡ flip b x (hash_bits n bit keys byte i r)
  hash_bits-flip zero bit byte i b x r = refl
  hash_bits-flip (suc n) bit byte i b x r =
      ap (hash_bits n (suc bit) keys byte (suc i))
        (flip-swap (get_bit byte bit) b (get_or keys i 0) x r)
      ∙ hash_bits-flip n (suc bit) byte (suc i) b x (flip (get_bit byte bit) (get_or keys i 0) r)

  hash_bytes-flip :
      (n : ℕ) (m : Memory) (p i : ℕ) (b : Bool) (x r : ℕ)
      → hash_bytes n m p keys i (flip b x r) ≡ flip b x (hash_bytes n m p keys i r)
  hash_bytes-flip zero m p i b x r = refl
  hash_bytes-flip (suc n) m p i b x r =
      ap (hash_bytes n m (p + 1) keys (i + 8)) (hash_bits-flip 8 0 (m p) i b x r)
      ∙ hash_bytes-flip n m (p + 1) (i + 8) b x (hash_bits 8 0 keys (m p) i r)

  bytes-bits :
      (n : ℕ) (m : Memory) (p i k bit byte j r : ℕ)
      → hash_bytes n m p keys i (hash_bits k bit keys byte j r)
        ≡ hash_bits k bit keys byte j (hash_bytes n m p keys i r)
  bytes-bits n m p i zero bit byte j r = refl
  bytes-bits n m p i (suc k) bit byte j r =
      bytes-bits n m p i k (suc bit) byte (suc j) (flip (get_bit byte bit) (get_or keys j 0) r)
      ∙ ap (hash_bits k (suc bit) keys byte (suc j))
          (hash_bytes-flip n m p i (get_bit byte bit) (get_or keys j 0) r)

  -- The order in which two stretches of bytes are added does not count.
  pub hash_bytes-swap :
      (a b : ℕ) (m : Memory) (p i : ℕ) (m' : Memory) (q j r : ℕ)
      → hash_bytes a m p keys i (hash_bytes b m' q keys j r)
        ≡ hash_bytes b m' q keys j (hash_bytes a m p keys i r)
  hash_bytes-swap a zero m p i m' q j r = refl
  hash_bytes-swap a (suc b) m p i m' q j r =
      hash_bytes-swap a b m p i m' (q + 1) (j + 8) (hash_bits 8 0 keys (m' q) j r)
      ∙ ap (hash_bytes b m' (q + 1) keys (j + 8)) (bytes-bits a m p i 8 0 (m' q) j r)

  pub hash_bytes-Same :
      (n : ℕ) (m : Memory) (p : Ptr) (m' : Memory) (p' : Ptr) (i r : ℕ)
      → Same n m p m' p'
      → hash_bytes n m p keys i r ≡ hash_bytes n m' p' keys i r
  hash_bytes-Same zero m p m' p' i r same = refl
  hash_bytes-Same (suc n) m p m' p' i r same =
      ap (λ byte. hash_bytes n m (p + 1) keys (i + 8) (hash_bits 8 0 keys byte i r))
        (ap m (omega arith) ∙ same 0 (omega arith) ∙ ap m' (omega arith))
      ∙ hash_bytes-Same n m (p + 1) m' (p' + 1) (i + 8) (hash_bits 8 0 keys (m' p') i r)
          (λ j h. ap m (omega arith) ∙ same (suc j) (omega arith) ∙ ap m' (omega arith))

  pub hash_bytes-append :
      (a b : ℕ) (m : Memory) (p i r : ℕ)
      → hash_bytes (a + b) m p keys i r
        ≡ hash_bytes b m (p + a) keys (i + 8 * a) (hash_bytes a m p keys i r)
  hash_bytes-append zero b m p i r =
      let same : 0 + b ≡ b = omega arith in
      ap (λ n. hash_bytes n m p keys i r) same
      ∙ ap₂ (λ q k. hash_bytes b m q keys k r) (omega arith) (omega arith)
  hash_bytes-append (suc a) b m p i r =
      let same : suc a + b ≡ suc (a + b) = omega arith in
      ap (λ n. hash_bytes n m p keys i r) same
      ∙ hash_bytes-append a b m (p + 1) (i + 8) (hash_bits 8 0 keys (m p) i r)
      ∙ ap₂ (λ q k. hash_bytes b m q keys k (hash_bytes (suc a) m p keys i r)) (omega arith)
          (omega arith)

module _ (keys : List ℕ) (periodic : Periodic keys) where
  hash_bits-Periodic :
      (n bit byte i r : ℕ)
      → i + n + 16 ≤ 288
      → hash_bits n bit keys byte (i + 16) r ≡ hash_bits n bit keys byte i r
  hash_bits-Periodic zero bit byte i r h = refl
  hash_bits-Periodic (suc n) bit byte i r h =
      ap
        (λ k.
          hash_bits n (suc bit) keys byte k (flip (get_bit byte bit) (get_or keys (i + 16) 0) r))
        (omega arith)
      ∙ hash_bits-Periodic n (suc bit) byte (suc i)
          (flip (get_bit byte bit) (get_or keys (i + 16) 0) r) (omega arith)
      ∙ ap (λ key. hash_bits n (suc bit) keys byte (suc i) (flip (get_bit byte bit) key r))
          (periodic i (omega arith))

  hash_bytes-Periodic :
      (n : ℕ) (m : Memory) (p i r : ℕ)
      → i + 8 * n + 16 ≤ 288
      → hash_bytes n m p keys (i + 16) r ≡ hash_bytes n m p keys i r
  hash_bytes-Periodic zero m p i r h = refl
  hash_bytes-Periodic (suc n) m p i r h =
      ap (λ k. hash_bytes n m (p + 1) keys k (hash_bits 8 0 keys (m p) (i + 16) r)) (omega arith)
      ∙ hash_bytes-Periodic n m (p + 1) (i + 8) (hash_bits 8 0 keys (m p) (i + 16) r) (omega arith)
      ∙ ap (hash_bytes n m (p + 1) keys (i + 8)) (hash_bits-Periodic 8 0 (m p) i r (omega arith))

  hash_bytes-periods :
      (k n : ℕ) (m : Memory) (p i r : ℕ)
      → i + 8 * n + 16 * k ≤ 288
      → hash_bytes n m p keys (i + 16 * k) r ≡ hash_bytes n m p keys i r
  hash_bytes-periods zero n m p i r h = ap (λ j. hash_bytes n m p keys j r) (omega arith)
  hash_bytes-periods (suc k) n m p i r h =
      ap (λ j. hash_bytes n m p keys j r) (omega arith)
      ∙ hash_bytes-Periodic n m p (i + 16 * k) r (omega arith)
      ∙ hash_bytes-periods k n m p i r (omega arith)

  both :
      (k : ℕ) (m : Memory) (p i r : ℕ)
      → i + 32 * k ≤ 288
      → hash_bytes (2 * k + 2 * k) m p keys i r
        ≡ hash_bytes (2 * k) m (p + 2 * k) keys i (hash_bytes (2 * k) m p keys i r)
  both k m p i r h =
      let first = hash_bytes (2 * k) m p keys i r in
      hash_bytes-append keys (2 * k) (2 * k) m p i r
      ∙ ap (λ j. hash_bytes (2 * k) m (p + 2 * k) keys j first) (omega arith)
      ∙ hash_bytes-periods k (2 * k) m (p + 2 * k) i first (omega arith)

  -- Two blocks of `2 * k` bytes that change places leave the hash as it is.
  pub hash_bytes-exchanged :
      (k : ℕ) (m : Memory) (p : Ptr) (m' : Memory) (p' : Ptr) (i r : ℕ)
      → i + 32 * k ≤ 288
      → Same (2 * k) m p m' (p' + 2 * k)
      → Same (2 * k) m (p + 2 * k) m' p'
      → hash_bytes (2 * k + 2 * k) m p keys i r ≡ hash_bytes (2 * k + 2 * k) m' p' keys i r
  hash_bytes-exchanged k m p m' p' i r h first second =
      both k m p i r h
      ∙ hash_bytes-Same keys (2 * k) m (p + 2 * k) m' p' i (hash_bytes (2 * k) m p keys i r) second
      ∙ ap (hash_bytes (2 * k) m' p' keys i)
          (hash_bytes-Same keys (2 * k) m p m' (p' + 2 * k) i r first)
      ∙ hash_bytes-swap keys (2 * k) (2 * k) m' p' i m' (p' + 2 * k) i r
      ∙ sym (both k m' p' i r h)
