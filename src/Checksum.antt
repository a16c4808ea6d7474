-- ===== src/Checksum.antt =====
-- lib/checksum.c: the Internet checksum. A buffer is the list of its bytes; the code reads it as
-- 16-bit words in the order of the host, taken to be little-endian.
pub mod Sum
pub mod Complement
pub mod Verify
mod Tests
use odp_libtrace.Prelude.{
  ℕ, zero, suc, ◌+◌, ◌-◌, ◌*◌, ◌/◌, ◌%◌, ◌^◌, List, [], ◌∷◌, Option, none, some, ◌==◌,
  if◌then◌else◌, drop, get_or, add32,
}

-- The loop of `add_checksum`, on the bytes from `buff` on and on `count`.
pub add_words : List ℕ → ℕ → ℕ → ℕ
add_words buff zero sum = sum
add_words buff (suc zero) sum = add32 sum (get_or buff 0 0)
add_words buff (suc (suc count)) sum =
    add_words (drop 2 buff) count (add32 sum (get_or buff 0 0 + 256 * get_or buff 1 0))

pub add_checksum : List ℕ → ℕ → ℕ
add_checksum buffer length = add_words buffer length 0

-- The loop of `finish_checksum`, `none` when the rounds are used up.
pub fold_carry : ℕ → ℕ → Option ℕ
fold_carry zero sum = none
fold_carry (suc rounds) sum =
    let rest = fold_carry rounds (add32 (sum % 2 ^ 16) (sum / 2 ^ 16)) in
    if sum / 2 ^ 16 == 0 then some ((2 ^ 32 - 1 - sum) % 2 ^ 16) else rest

pub finish_checksum : ℕ → Option ℕ
finish_checksum sum = fold_carry 3 sum

pub checksum_buffer : List ℕ → ℕ → Option ℕ
checksum_buffer buffer length = finish_checksum (add_checksum buffer length)

-- `htons` on a little-endian host.
pub htons : ℕ → ℕ
htons x = x % 256 * 256 + x / 256 % 256

-- The bytes of a 16-bit variable.
pub bytes16 : ℕ → List ℕ
bytes16 x = x % 256 ∷ x / 256 % 256 ∷ []

-- The fields of `libtrace_ip_t` that the checksum reads: the addresses as bytes, `ip_len` as it
-- stands in memory, `ip_hl` in words.
pub record Ip : Type 0 where
  pub ip_src : List ℕ
  pub ip_dst : List ℕ
  pub ip_p : ℕ
  pub ip_len : ℕ
  pub ip_hl : ℕ

pub ipv4_pseudo_checksum : Ip → ℕ
ipv4_pseudo_checksum ip =
    let s1 = add32 0 (add_checksum ip.ip_src 4) in
    let s2 = add32 s1 (add_checksum ip.ip_dst 4) in
    let s3 = add32 s2 (add_checksum (bytes16 (htons ip.ip_p)) 2) in
    add32 s3 (add_checksum (bytes16 (htons ((htons ip.ip_len + 2 ^ 32 - ip.ip_hl * 4) % 2 ^ 16))) 2)

-- The fields of `libtrace_ip6_t` that the checksum reads.
pub record Ip6 : Type 0 where
  pub ip6_src : List ℕ
  pub ip6_dst : List ℕ
  pub plen : ℕ
  pub nxt : ℕ

pub ipv6_pseudo_checksum : Ip6 → ℕ
ipv6_pseudo_checksum ip =
    let s1 = add32 0 (add_checksum ip.ip6_src 16) in
    let s2 = add32 s1 (add_checksum ip.ip6_dst 16) in
    let s3 = add32 s2 (add_checksum (bytes16 ip.plen) 2) in
    add32 s3 (add_checksum (bytes16 (htons ip.nxt)) 2)
