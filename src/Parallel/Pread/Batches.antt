-- ===== src/Parallel/Pread/Batches.antt =====
-- lib/trace_parallel.c: which batch trace_pread_packet_wrapper returns.
use odp_libtrace.Prelude.{
  ℕ, zero, suc, ◌+◌, ◌-◌, ◌≡◌, refl, ap, sym, arith, Bool, true, false, not, ◌||◌, ◌==◌,
  if◌then◌else◌, List, [], ◌∷◌, ◌++◌, some, length, map, take, drop, Bool-cases, inl, inr,
  length-map,
}
use mathlib.Core.Path.{subst}
use odp_libtrace.Parallel.Filter.{Filter}
use odp_libtrace.Parallel.Filter.Partition.{taken, filter_packets-Partitions}
use odp_libtrace.Parallel.Pread.{
  Format, ends, reads, Reader, Got, got, returned, error, finish, apply, read_batches,
  pread_packet_wrapper, all,
}

module _ {P E : Type 0} (f : Filter P) where
  -- The first batch of which the filter takes a packet, with what it takes, the number of packets that
  -- it refused so far, and what the format has left; or the result behind all batches.
  abbrev pub first_taken : ℕ → Format P E → Got P E
  first_taken filtered (ends code) = returned code [] filtered
  first_taken filtered (reads batch format) =
      let rest = first_taken (filtered + length batch) format in
      let kept = taken f batch in
      if length kept == 0
      then rest
      else got (length kept) kept (filtered + (length batch - length kept)) format

-- A result that agrees with that, up to what stands in the array behind the packets returned.
pub data Agrees {P E : Type 0} (finish_one : P → P) : Got P E → Got P E → Type 0 where
  agree_got :
      {n filtered : ℕ} {kept packets : List P} {format : Format P E}
      → take n packets ≡ map finish_one kept
      → Agrees finish_one (got n kept filtered format) (got n packets filtered format)
  agree_returned :
      {code : E} {filtered : ℕ} {packets : List P}
      → Agrees finish_one (returned code [] filtered) (returned code packets filtered)

take-front : {P : Type 0} (xs ys : List P) {n : ℕ} → n ≡ length xs → take n (xs ++ ys) ≡ xs
take-front [] ys {n = zero} e = refl
take-front [] ys {n = suc n} e = absurd (omega (arith, e))
take-front (x ∷ xs) ys {n = zero} e = absurd (omega (arith, e))
take-front (x ∷ xs) ys {n = suc n} e = ap (λ l. x ∷ l) (take-front xs ys (omega (arith, e)))

module _ {P E : Type 0} (lt : Reader P) (none_there : P) (set_order : P → P) (f : Filter P) where
  read_batches-Agrees :
      (format : Format P E) (packets : List P) (filtered : ℕ)
      → lt.filter ≡ some f
      → Agrees
          (finish lt none_there set_order)
          (first_taken f filtered format)
          (read_batches lt none_there set_order packets filtered format)
  unfolding read_batches apply
  read_batches-Agrees (ends code) packets filtered filters = agree_returned
  read_batches-Agrees (reads batch format) packets filtered filters =
      let rest : List P = drop (length batch) packets in
      let parts = filter_packets-Partitions f none_there batch rest in
      let kept : apply lt none_there set_order (batch ++ rest) (length batch)
          ≡ (length (taken f batch), taken f batch ++ (parts.0 ++ rest)) =
        rw (apply, filters) parts.1 in
      elim (Bool-cases (length (taken f batch) == 0)) [
        | inl z ↦
            let count : filtered + (length batch - length (taken f batch))
                ≡ filtered + length batch =
              ground arith in
            rw (read_batches, kept, z, count) (read_batches-Agrees format _ _ filters)
        | inr z ↦
            let kept_packets = taken f batch in
            let cut = take-front kept_packets (parts.0 ++ rest) refl in
            let finish_one = finish lt none_there set_order in
            let front : take (length kept_packets) (
                  map finish_one (take (length kept_packets) (kept_packets ++ (parts.0 ++ rest)))
                  ++ drop (length kept_packets) (kept_packets ++ (parts.0 ++ rest)))
                ≡ map finish_one kept_packets =
              rw (cut) (
                take-front (map finish_one kept_packets) _
                  (sym (length-map kept_packets finish_one))) in
            rw (read_batches, kept, z) (agree_got front)
      ]

  -- With a filter, and on a trace that is started and has no error, whose format reads in parallel, and
  -- with an array of valid packets, a read skips the batches of which the filter takes nothing. It
  -- returns the first of the others: the packets that are taken, in their order, each cut to the snap
  -- length and given its order, their number, which is not 0, and the number of packets that the
  -- filter refused so far; or, behind all batches, what the format returns. What the format has
  -- behind that batch is left for the next read.
  pub pread_packet_wrapper-Agrees :
      (valid : P → Bool) (packets : List P) (filtered : ℕ) (format : Format P E)
      → lt.is_err ≡ false
      → lt.started ≡ true
      → lt.has_pread ≡ true
      → all valid packets ≡ true
      → lt.filter ≡ some f
      → Agrees
          (finish lt none_there set_order)
          (first_taken f filtered format)
          (pread_packet_wrapper lt none_there set_order valid packets filtered format)
  unfolding pread_packet_wrapper
  pread_packet_wrapper-Agrees valid packets filtered format fine started parallel ok filters =
      let goes_on : (lt.is_err || not lt.started || not lt.has_pread || not (all valid packets))
          ≡ false =
        rw (fine, started, parallel, ok) in
      subst
        (λ b.
          Agrees (finish lt none_there set_order) (first_taken f filtered format)
            (if b then error else read_batches lt none_there set_order packets filtered format))
        (sym goes_on) (read_batches-Agrees format packets filtered filters)
