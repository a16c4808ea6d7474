-- ===== src/Checksum/Tests.antt =====
-- Checksums of concrete buffers, and the theorems at them.
use odp_libtrace.Prelude.{ℕ, ◌<◌, ◌≡◌, refl, arith, List, [], ◌∷◌, some, ◌+◌, ◌*◌, ◌%◌, ◌/◌}
use odp_libtrace.Checksum.{
  add_words, add_checksum, fold_carry, finish_checksum, checksum_buffer, Ip, htons, bytes16,
  ipv4_pseudo_checksum,
}
use odp_libtrace.Checksum.Sum.{Bytes, none, next, weigh_low}
use odp_libtrace.Checksum.Verify.{checksum_buffer-verifies}

-- An IPv4 header whose checksum field is zero.
abbrev header : List ℕ
header =
    0x45 ∷ 0 ∷ 0 ∷ 0x73 ∷ 0 ∷ 0 ∷ 0x40 ∷ 0 ∷ 0x40 ∷ 0x11 ∷ 0 ∷ 0 ∷ 0xc0 ∷ 0xa8 ∷ 0 ∷ 1 ∷ 0xc0 ∷ 0xa8
    ∷ 0 ∷ 0xc7 ∷ []

checksum_header : checksum_buffer header 20 ≡ some 0x61b8
unfolding checksum_buffer finish_checksum fold_carry add_checksum add_words
checksum_header = refl

abbrev ip : Ip
ip = record {
  ip_src = 10 ∷ 0 ∷ 0 ∷ 1 ∷ [];
  ip_dst = 10 ∷ 0 ∷ 0 ∷ 2 ∷ [];
  ip_p = 6;
  ip_len = 40 * 256;
  ip_hl = 5;
}

pseudo4 : ipv4_pseudo_checksum ip ≡ 10 + 256 + 10 + 512 + 6 * 256 + 20 * 256
unfolding ipv4_pseudo_checksum add_checksum add_words htons bytes16
pseudo4 = refl

abbrev three : List ℕ
three = 1 ∷ 2 ∷ 255 ∷ []

three-Bytes : Bytes three
three-Bytes = next (omega arith) (next (omega arith) (next (omega arith) none))

finish_large : finish_checksum 0x2479c ≡ some 0xb861
unfolding finish_checksum fold_carry
finish_large = refl

checksum_split : checksum_buffer (1 ∷ 2 ∷ 0 ∷ 0 ∷ 255 ∷ []) 5 ≡ some 64767
unfolding checksum_buffer finish_checksum fold_carry add_checksum add_words
checksum_split = refl

some_byte : 0 < weigh_low (1 ∷ 2 ∷ []) + weigh_low (255 ∷ [])
unfolding weigh_low
some_byte = omega arith

checksum_buffer-verifies_example :
    checksum_buffer (1 ∷ 2 ∷ 64767 % 256 ∷ 64767 / 256 ∷ 255 ∷ []) 5 ≡ some 0
checksum_buffer-verifies_example =
    checksum_buffer-verifies (1 ∷ 2 ∷ []) (255 ∷ []) 64767
      (next (omega arith) (next (omega arith) none)) (next (omega arith) none) (omega arith)
      (omega arith) some_byte checksum_split
