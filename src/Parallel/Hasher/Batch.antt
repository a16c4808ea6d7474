-- ===== src/Parallel/Hasher/Batch.antt =====
-- lib/trace_parallel.c: what a read takes behind the first packet of a batch.
use odp_libtrace.Prelude.{
  ℕ, zero, suc, ◌≡◌, ◌⊎◌, inl, inr, refl, ap, List, [], ◌∷◌, ◌++◌, none, some,
}
use odp_libtrace.Parallel.{Item, packet, tick, message, eof, failure}
use odp_libtrace.Parallel.Hasher.{Input, read_more, Ending, at_eof, at_error}

-- How the loop is to end, by the packet of the failed read.
pub data IsLast {P : Type 0} : Item P → Ending → Type 0 where
  last_eof : IsLast eof at_eof
  last_failure : IsLast failure at_error

module _ {P : Type 0} where
  -- Packets and ticks, and no ticks at all.
  abbrev pub Plain : List (Item P) → Type 0
  Plain [] = Unit {0}
  Plain (packet p ∷ xs) = Plain xs
  Plain (tick n ∷ xs) = Plain xs
  Plain (_ ∷ xs) = ⊥

  abbrev pub NoTicks : List (Item P) → Type 0
  NoTicks [] = Unit {0}
  NoTicks (packet p ∷ xs) = NoTicks xs
  NoTicks (_ ∷ xs) = ⊥

  -- A batch behind a first packet: it takes packets from the front, and keeps what it meets of the
  -- failed read.
  pub record Takes (queue : List (Item P)) (last : Item P) (out : List (Item P) × Input P)
      : Type 0 where
    pub rest : List (Item P)
    pub plain : NoTicks rest
    pub whole : out.0 ++ rest ≡ queue
    pub clean : NoTicks out.0
    pub left :
        (out.1 ≡ record { rbuffer = rest ++ (last ∷ []); format_data = none })
        ⊎ ((rest ≡ []) × (out.1 ≡ record { rbuffer = []; format_data = some last }))

  pub read_more-Takes :
      (n available : ℕ) (p : P) (queue : List (Item P)) {last : Item P} {ending : Ending}
      → NoTicks queue
      → IsLast last ending
      → Takes queue last (read_more n available (packet p) (queue ++ (last ∷ [])))
  unfolding read_more
  read_more-Takes zero available p queue nt l = record {
    rest = queue;
    plain = nt;
    whole = refl;
    clean = tt;
    left = inl refl;
  }
  read_more-Takes (suc n) zero p queue nt l = record {
    rest = queue;
    plain = nt;
    whole = refl;
    clean = tt;
    left = inl refl;
  }
  read_more-Takes (suc n) (suc available) p [] nt last_eof = record {
    rest = [];
    plain = tt;
    whole = refl;
    clean = tt;
    left = inr (refl, refl);
  }
  read_more-Takes (suc n) (suc available) p [] nt last_failure = record {
    rest = [];
    plain = tt;
    whole = refl;
    clean = tt;
    left = inr (refl, refl);
  }
  read_more-Takes (suc n) (suc available) p (packet q ∷ queue) nt l =
      let more = read_more-Takes n available p queue nt l in
      record {
        rest = more.rest;
        plain = more.plain;
        whole = ap (λ xs. packet q ∷ xs) more.whole;
        clean = more.clean;
        left = more.left;
      }
  read_more-Takes (suc n) (suc available) p (tick k ∷ queue) nt l = absurd nt
  read_more-Takes (suc n) (suc available) p (message ∷ queue) nt l = absurd nt
  read_more-Takes (suc n) (suc available) p (eof ∷ queue) nt l = absurd nt
  read_more-Takes (suc n) (suc available) p (failure ∷ queue) nt l = absurd nt
