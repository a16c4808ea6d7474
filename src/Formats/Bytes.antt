-- ===== src/Formats/Bytes.antt =====
-- Words in files: lib/byteswap.c, and words as the bytes that a little-endian host reads and writes.
-- Files are those of libwandio, behind an interface.
use odp_libtrace.Prelude.{
  ℕ, ◌+◌, ◌*◌, ◌/◌, ◌%◌, ◌^◌, ◌≡◌, List, [], ◌∷◌, ◌++◌, Option, some, get_or, take, drop, length,
}

unfoldable pub byteswap16 : ℕ → ℕ
byteswap16 num = num % 2 ^ 8 * 2 ^ 8 + num / 2 ^ 8 % 2 ^ 8

unfoldable pub byteswap32 : ℕ → ℕ
byteswap32 num =
    num % 2 ^ 8 * 2 ^ 24
    + num / 2 ^ 8 % 2 ^ 8 * 2 ^ 16
    + num / 2 ^ 16 % 2 ^ 8 * 2 ^ 8
    + num / 2 ^ 24 % 2 ^ 8

-- The bytes of a word, and the word at a place in a buffer.
abbrev pub u16 : ℕ → List ℕ
u16 n = (n % 2 ^ 8) ∷ (n / 2 ^ 8 % 2 ^ 8) ∷ []

abbrev pub u32 : ℕ → List ℕ
u32 n = (n % 2 ^ 8) ∷ (n / 2 ^ 8 % 2 ^ 8) ∷ (n / 2 ^ 16 % 2 ^ 8) ∷ (n / 2 ^ 24 % 2 ^ 8) ∷ []

unfoldable pub u16_at : List ℕ → ℕ → ℕ
u16_at bs i = get_or bs i 0 + get_or bs (i + 1) 0 * 2 ^ 8

unfoldable pub u32_at : List ℕ → ℕ → ℕ
u32_at bs i =
    get_or bs i 0
    + get_or bs (i + 1) 0 * 2 ^ 8
    + get_or bs (i + 2) 0 * 2 ^ 16
    + get_or bs (i + 3) 0 * 2 ^ 24

-- libwandio. `read` gives the bytes that it read, fewer than asked for only at the end of the file, or
-- `none` on an error; `write` the number of bytes written.
pub record Wandio (In Out : Type 0) : Type 0 where
  pub read : In → ℕ → Option (List ℕ) × In
  pub write : Out → List ℕ → ℕ × Out

-- What it does while there is no error: a file that is read has bytes left, one that is written has
-- bytes so far.
pub record IsWandio {In Out : Type 0} (io : Wandio In Out) : Type 0 where
  pub left : In → List ℕ
  pub read_bytes : (f : In) (n : ℕ) → (io.read f n).0 ≡ some (take n (left f))
  pub read_left : (f : In) (n : ℕ) → left (io.read f n).1 ≡ drop n (left f)
  pub content : Out → List ℕ
  pub write_count : (f : Out) (bs : List ℕ) → (io.write f bs).0 ≡ length bs
  pub write_content : (f : Out) (bs : List ℕ) → content (io.write f bs).1 ≡ content f ++ bs
