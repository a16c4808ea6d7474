-- ===== src/Parallel/Dispatch/Layout.antt =====
-- lib/trace_parallel.c, dispatch_packets: how the array of a batch is laid out, and what a move does to
-- it.
use odp_libtrace.Prelude.{
  ℕ, zero, suc, ◌+◌, ◌≡◌, refl, ap, sym, ◌∙◌, arith, List, [], ◌∷◌, ◌++◌, map, Option, none, some,
  get_or, set, length, replicate, length-append, length-map, length-replicate,
}
use mathlib.Core.List.{append_assoc}
use odp_libtrace.Parallel.{Item}
use odp_libtrace.Parallel.Dispatch.{Batch, move_full}

module _ {A : Type 0} where
  set-behind :
      (xs ys : List A) (n k : ℕ) (v : A) → n ≡ length xs + k → set (xs ++ ys) n v ≡ xs ++ set ys k v
  set-behind [] ys n k v e = ap (λ i. set ys i v) (omega (arith, e))
  set-behind (x ∷ xs) ys zero k v e = absurd (omega (arith, e))
  set-behind (x ∷ xs) ys (suc n) k v e = ap (λ l. x ∷ l) (set-behind xs ys n k v (omega (arith, e)))

  get_or-behind :
      (xs : List A) (y : A) (ys : List A) (n : ℕ) (d : A)
      → n ≡ length xs
      → get_or (xs ++ (y ∷ ys)) n d ≡ y
  get_or-behind [] y ys zero d e = refl
  get_or-behind [] y ys (suc n) d e = absurd (omega (arith, e))
  get_or-behind (x ∷ xs) y ys zero d e = absurd (omega (arith, e))
  get_or-behind (x ∷ xs) y ys (suc n) d e = get_or-behind xs y ys n d (omega (arith, e))

  replicate-cons :
      (n : ℕ) (a : A) (ys : List A) → replicate n a ++ (a ∷ ys) ≡ a ∷ (replicate n a ++ ys)
  replicate-cons zero a ys = refl
  replicate-cons (suc n) a ys = ap (λ l. a ∷ l) (replicate-cons n a ys)

module _ {P : Type 0} where
  -- Packets that were given back, slots that are NULL, and packets that are to be sent.
  abbrev pub layout : List (Item P) → ℕ → List (Item P) → List (Option (Item P))
  layout kept gap todo = map some kept ++ (replicate gap none ++ map some todo)

  pub record IsLaidOut (b : Batch P) (kept : List (Item P)) (gap : ℕ) (todo : List (Item P))
      : Type 0 where
    pub packets : b.packets ≡ layout kept gap todo
    pub empty : b.empty ≡ length kept
    pub offset : b.offset ≡ length kept + gap

  -- A write at the first slot that is to be sent.
  set-todo :
      (kept : List (Item P)) (gap n : ℕ) (a v : Option (Item P)) (rest : List (Option (Item P)))
      → n ≡ length kept + gap
      → set (map some kept ++ (replicate gap none ++ (a ∷ rest))) n v
        ≡ map some kept ++ (replicate gap none ++ (v ∷ rest))
  set-todo kept gap n a v rest e =
      let absent : Option (Item P) = none in
      set-behind (map some kept) (replicate gap none ++ (a ∷ rest)) n gap v
        (omega (arith, e, length-map kept some))
      ∙ ap (λ l. map some kept ++ l)
          (set-behind (replicate gap none) (a ∷ rest) gap 0 v
            (omega (arith, length-replicate gap absent)))

  -- A write at the first NULL slot.
  set-empty :
      (kept : List (Item P)) (n : ℕ) (a v : Option (Item P)) (rest : List (Option (Item P)))
      → n ≡ length kept
      → set (map some kept ++ (a ∷ rest)) n v ≡ map some kept ++ (v ∷ rest)
  set-empty kept n a v rest e =
      set-behind (map some kept) (a ∷ rest) n 0 v (omega (arith, e, length-map kept some))

  map-snoc :
      (kept : List (Item P)) (x : Item P) (rest : List (Option (Item P)))
      → map some kept ++ (some x ∷ rest) ≡ map some (kept ++ (x ∷ [])) ++ rest
  map-snoc [] x rest = refl
  map-snoc (k ∷ kept) x rest = ap (λ l. some k ∷ l) (map-snoc kept x rest)

  pub todo-slot :
      (b : Batch P) (kept : List (Item P)) (gap : ℕ) (x : Item P) (todo : List (Item P))
      → IsLaidOut b kept gap (x ∷ todo)
      → get_or b.packets b.offset none ≡ some x
  todo-slot b kept gap x todo h =
      let absent : Option (Item P) = none in
      ap (λ l. get_or l b.offset none)
        (h.packets
          ∙ sym (append_assoc (map some kept) (replicate gap none) (some x ∷ map some todo)))
      ∙ get_or-behind (map some kept ++ replicate gap none) (some x) (map some todo) b.offset none (
          omega (
            arith,
            h.offset,
            length-append (map some kept) (replicate gap absent),
            length-map kept some,
            length-replicate gap absent,
          ))

  pub move_full-none :
      (b : Batch P) (kept : List (Item P)) (gap : ℕ) (x : Item P) (todo : List (Item P))
      → IsLaidOut b kept gap (x ∷ todo)
      → IsLaidOut (move_full b none) kept (suc gap) todo
  unfolding move_full
  move_full-none b kept gap x todo h = record {
    packets =
        ap (λ l. set l b.offset none) h.packets
        ∙ set-todo kept gap b.offset (some x) none (map some todo) h.offset
        ∙ ap (λ l. map some kept ++ l) (replicate-cons gap none (map some todo));
    empty = h.empty;
    offset = omega (arith, h.offset);
  }

  -- The three writes where slots are NULL before the packet.
  moved :
      (b : Batch P) (kept : List (Item P)) (gap : ℕ) (x y : Item P) (todo : List (Item P))
      → IsLaidOut b kept (suc gap) (x ∷ todo)
      → set (set (set b.packets b.offset (some y)) b.empty (some y)) b.offset none
        ≡ layout (kept ++ (y ∷ [])) (suc gap) todo
  moved b kept gap x y todo h =
      let T = map some todo in
      let behind = replicate gap none ++ (some y ∷ T) in
      ap (λ l. set (set (set l b.offset (some y)) b.empty (some y)) b.offset none) h.packets
      ∙ ap (λ l. set (set l b.empty (some y)) b.offset none)
          (set-todo kept (suc gap) b.offset (some x) (some y) T h.offset)
      ∙ ap (λ l. set l b.offset none) (set-empty kept b.empty none (some y) behind h.empty)
      ∙ ap (λ l. set l b.offset none) (map-snoc kept y behind)
      ∙ set-todo (kept ++ (y ∷ [])) gap b.offset (some y) none T
          (omega (arith, h.offset, length-append kept (y ∷ [])))
      ∙ ap (λ l. map some (kept ++ (y ∷ [])) ++ l) (replicate-cons gap none T)

  move_full-packets :
      (b : Batch P) (kept : List (Item P)) (gap : ℕ) (x y : Item P) (todo : List (Item P))
      → IsLaidOut b kept gap (x ∷ todo)
      → (move_full b (some y)).packets ≡ layout (kept ++ (y ∷ [])) gap todo
  unfolding move_full
  move_full-packets b kept zero x y todo h =
      let written =
        ap (λ l. set l b.offset (some y)) h.packets
        ∙ set-todo kept 0 b.offset (some x) (some y) (map some todo) h.offset
        ∙ map-snoc kept y (map some todo) in
      ground (arith, h.empty, h.offset, written)
  move_full-packets b kept (suc gap) x y todo h =
      ground (arith, h.empty, h.offset, moved b kept gap x y todo h)

  pub move_full-some :
      (b : Batch P) (kept : List (Item P)) (gap : ℕ) (x y : Item P) (todo : List (Item P))
      → IsLaidOut b kept gap (x ∷ todo)
      → IsLaidOut (move_full b (some y)) (kept ++ (y ∷ [])) gap todo
  unfolding move_full
  move_full-some b kept gap x y todo h = record {
    packets = move_full-packets b kept gap x y todo h;
    empty = omega (arith, h.empty, length-append kept (y ∷ []));
    offset = omega (arith, h.offset, length-append kept (y ∷ []));
  }
