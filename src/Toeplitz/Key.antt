-- ===== src/Toeplitz/Key.antt =====
-- lib/hash_toeplitz.c: the key, as the list of its 40 bytes, and the words that it is expanded to.
pub mod Period
use odp_libtrace.Prelude.{
  ℕ, zero, suc, ◌+◌, ◌*◌, ◌/◌, ◌%◌, ◌^◌, List, [], ◌∷◌, get_or, Bool, if◌then◌else◌,
}
use odp_libtrace.Toeplitz.{Config}

-- `*((uint32_t *) key_cpy)`
abbrev pub word : List ℕ → ℕ
word key =
    get_or key 0 0 + get_or key 1 0 * 2 ^ 8 + get_or key 2 0 * 2 ^ 16 + get_or key 3 0 * 2 ^ 24

-- The loop over `j` and the line behind it: every byte takes the top bit of the next.
abbrev pub shift_left : List ℕ → List ℕ
shift_left [] = []
shift_left (a ∷ []) = (a * 2 % 256) ∷ []
shift_left (a ∷ b ∷ key) = (a * 2 % 256 + b / 128 % 2) ∷ shift_left (b ∷ key)

-- The outer loop, over `n` words.
abbrev pub expand : ℕ → List ℕ → List ℕ
expand zero key = []
expand (suc n) key = word key ∷ expand n (shift_left key)

unfoldable pub hash_expand_key : List ℕ → List ℕ
hash_expand_key key = expand 320 key

-- The loop of `toeplitz_create_bikey`, over `n` copies of `bi_key`.
abbrev pub fill : ℕ → (bi_key : ℕ) → List ℕ
fill zero bi_key = []
fill (suc n) bi_key = (bi_key % 2 ^ 8) ∷ (bi_key / 2 ^ 8 % 2 ^ 8) ∷ fill n bi_key

-- `toeplitz_create_bikey` for the number that the random generator gives, cut to 16 bits.
unfoldable pub create_bikey : (random : ℕ) → List ℕ
create_bikey random = fill 20 (random % 2 ^ 16)

-- `toeplitz_init_config`; `bytes` is the key of `toeplitz_create_unikey`, 40 random bytes.
unfoldable pub init_config :
    Config → (bidirectional : Bool) → (random : ℕ) → (bytes : List ℕ) → Config
init_config conf bidirectional random bytes = record conf {
  key_cache = hash_expand_key (if bidirectional then create_bikey random else bytes);
}
