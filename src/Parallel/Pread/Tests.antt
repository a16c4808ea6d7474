-- ===== src/Parallel/Pread/Tests.antt =====
-- Numbers for packets, of which those from 10 on are taken, and no more than 99 of each.
use odp_libtrace.Prelude.{ℕ, ◌+◌, ◌≡◌, refl, true, false, leb, min, [], ◌∷◌, some}
use odp_libtrace.Parallel.Filter.{Filter, filter_from, filter_packets}
use odp_libtrace.Parallel.Pread.{
  Format, ends, reads, Reader, got, finish, apply, read_batches, pread_packet_wrapper,
}
use odp_libtrace.Parallel.Pread.Batches.{Agrees, pread_packet_wrapper-Agrees}

abbrev from_ten : Filter ℕ
from_ten = record { attach = λ p. p; applies = λ p. leb 10 p; fin = λ p. 0 }

abbrev reader : Reader ℕ
reader = record {
  is_err = false;
  started = true;
  has_pread = true;
  filter = some from_ten;
  snap = some (λ p. min p 99);
}

abbrev batches : Format ℕ ℕ
batches = reads (1 ∷ 2 ∷ []) (reads (3 ∷ 12 ∷ 150 ∷ []) (reads (14 ∷ []) (ends 0)))

abbrev order : ℕ → ℕ
order p = 1000 + p

second_batch :
    pread_packet_wrapper reader 0 order (λ p. true) (0 ∷ 0 ∷ 0 ∷ []) 5 batches
    ≡ got 2 (1012 ∷ 1099 ∷ 0 ∷ []) 8 (reads (14 ∷ []) (ends 0))
unfolding pread_packet_wrapper read_batches apply finish filter_packets filter_from
second_batch = refl

pread_packet_wrapper-Agrees_example :
    Agrees
      (finish reader 0 order)
      (got 2 (12 ∷ 150 ∷ []) 8 (reads (14 ∷ []) (ends 0)))
      (pread_packet_wrapper reader 0 order (λ p. true) (0 ∷ 0 ∷ 0 ∷ []) 5 batches)
pread_packet_wrapper-Agrees_example =
    pread_packet_wrapper-Agrees reader 0 order from_ten (λ p. true) (0 ∷ 0 ∷ 0 ∷ []) 5 batches refl
      refl refl refl refl
