-- ===== src/Parallel/Filter/Partition.antt =====
-- lib/trace_parallel.c: what filter_packets does with an array.
use odp_libtrace.Prelude.{
  ℕ, zero, suc, ◌+◌, ◌≡◌, refl, ap, sym, arith, true, false, List, [], ◌∷◌, ◌++◌, length, get_or,
  set, Bool-cases, inl, inr, length-append,
}
use mathlib.Core.List.{append_assoc, append-nil, Perm}
use mathlib.Core.List.Perm
use mathlib.Core.Path.{subst}
use odp_libtrace.Parallel.Filter.Swap.{
  get_or-between, set-between, rotate, rotate-Perm, length-rotate, swap_lem,
}
use odp_libtrace.Parallel.Filter.{Filter, filter_from, filter_packets}

module _ {P : Type 0} (filter : Filter P) where
  -- The packets that the filter takes, and those that it does not, emptied.
  abbrev pub taken : List P → List P
  taken [] = []
  taken (p ∷ ps) = elim (filter.applies (filter.attach p)) [
    | true ↦ filter.attach p ∷ taken ps
    | false ↦ taken ps
  ]

  abbrev pub refused : List P → List P
  refused [] = []
  refused (p ∷ ps) = elim (filter.applies (filter.attach p)) [
    | true ↦ refused ps
    | false ↦ filter.fin (filter.attach p) ∷ refused ps
  ]

module _ {P : Type 0} (filter : Filter P) (d : P) where
  filter_from-done :
      (i offset : ℕ) (packets : List P)
      → filter_from filter d 0 i offset packets ≡ (offset, packets)
  unfolding filter_from
  filter_from-done i offset packets = refl

  -- One round, with what the array and the filter say.
  filter_from-takes :
      (n i offset : ℕ) (packets : List P) {p : P}
      → get_or packets i d ≡ p
      → filter.applies (filter.attach p) ≡ true
      → let attached = set packets i (filter.attach p) in
        filter_from filter d (suc n) i offset packets
        ≡ filter_from filter d n
            (i + 1)
            (offset + 1)
            (set (set attached offset (filter.attach p)) i (get_or attached offset d))
  unfolding filter_from
  filter_from-takes n i offset packets got =
      subst
        (λ p.
          filter.applies (filter.attach p) ≡ true
          → filter_from filter d (suc n) i offset packets
            ≡ filter_from filter d n (i + 1) (offset + 1) (
                set (set (set packets i (filter.attach p)) offset (filter.attach p)) i
                  (get_or (set packets i (filter.attach p)) offset d)))
        got (λ t. rw (filter_from, t) refl)

  filter_from-refuses :
      (n i offset : ℕ) (packets : List P) {p : P}
      → get_or packets i d ≡ p
      → filter.applies (filter.attach p) ≡ false
      → filter_from filter d (suc n) i offset packets
        ≡ filter_from filter d n
            (i + 1)
            offset
            (set (set packets i (filter.attach p)) i (filter.fin (filter.attach p)))
  unfolding filter_from
  filter_from-refuses n i offset packets got =
      subst
        (λ p.
          filter.applies (filter.attach p) ≡ false
          → filter_from filter d (suc n) i offset packets
            ≡ filter_from filter d n (i + 1) offset
                (set (set packets i (filter.attach p)) i (filter.fin (filter.attach p))))
        got (λ t. rw (filter_from, t) refl)

  filter_from-Partitions :
      (n i offset : ℕ) (packets front back later rest : List P)
      → length later ≡ n
      → i ≡ length front + length back
      → offset ≡ length front
      → packets ≡ front ++ (back ++ (later ++ rest))
      → (left : List P) × (filter_from filter d n i offset packets
          ≡ (offset + length (taken filter later), (front ++ taken filter later) ++ (left ++ rest)))
        × Perm left (back ++ refused filter later)
  filter_from-Partitions zero i offset packets front back [] rest el ei eo e =
      let same : offset + 0 ≡ offset = omega arith in
      (
        back,
        rw (filter_from-done i offset packets, append-nil front, same, e),
        rw (append-nil back) (Perm.refl back),
      )
  filter_from-Partitions (suc n) i offset packets front back [] rest el ei eo e =
      absurd (omega (arith, el))
  filter_from-Partitions zero i offset packets front back (p ∷ later) rest el ei eo e =
      absurd (omega (arith, el))
  filter_from-Partitions (suc n) i offset packets front back (p ∷ later) rest el ei eo e =
      let q = filter.attach p in
      let got : get_or packets i d ≡ p =
        rw (e, ei) (get_or-between front back p (later ++ rest) d) in
      let attached : set packets i q ≡ front ++ (back ++ (q ∷ (later ++ rest))) =
        rw (e, ei) (set-between front back p (later ++ rest) q) in
      elim (Bool-cases (filter.applies q)) [
        | inl t ↦
            let r =
              filter_from-Partitions n (i + 1) (offset + 1)
                (set (set (set packets i q) offset q) i (get_or (set packets i q) offset d))
                (front ++ (q ∷ [])) (rotate back) later rest (omega (arith, el))
                (omega (arith, ei, length-append front (q ∷ []), length-rotate back))
                (omega (arith, eo, length-append front (q ∷ [])))
                (rw (attached, eo, ei) (swap_lem front back q (later ++ rest) d)) in
            let count : offset + suc (length (taken filter later))
                ≡ offset + 1 + length (taken filter later) =
              omega arith in
            (
              r.0,
              rw (
                filter_from-takes n i offset packets got t,
                r.1,
                taken,
                t,
                count,
                append_assoc front (q ∷ []) (taken filter later),
              ),
              rw (refused, t)
                  (Perm.trans r.2 (Perm.append_right (refused filter later) (rotate-Perm back))),
            )
        | inr t ↦
            let f = filter.fin q in
            let r =
              filter_from-Partitions n (i + 1) offset (set (set packets i q) i (filter.fin q)) front
                (back ++ (f ∷ [])) later rest (omega (arith, el))
                (omega (arith, ei, length-append back (f ∷ []))) eo
                (rw (attached, ei, set-between front back q (later ++ rest) f)
                  (ap (λ l. front ++ l) (sym (append_assoc back (f ∷ []) (later ++ rest))))) in
            (
              r.0,
              rw (filter_from-refuses n i offset packets got t, r.1, taken, t),
              rw (refused, t, sym (append_assoc back (f ∷ []) (refused filter later))) r.2,
            )
      ]

  -- The packets of a batch that the filter takes come to the front of the array, in their order, and
  -- their number is returned. Behind them are all the others, emptied, in some order, and what stands
  -- behind the batch in the array stays as it is.
  pub filter_packets-Partitions :
      (packets rest : List P)
      → (left : List P) × (filter_packets filter d (packets ++ rest) (length packets)
          ≡ (length (taken filter packets), taken filter packets ++ (left ++ rest)))
        × Perm left (refused filter packets)
  unfolding filter_packets
  filter_packets-Partitions packets rest =
      let r =
        filter_from-Partitions (length packets) 0 0 (packets ++ rest) [] [] packets rest refl refl
          refl refl in
      let count : 0 + length (taken filter packets) ≡ length (taken filter packets) = omega arith in
      (r.0, rw (r.1, count) refl, r.2)
