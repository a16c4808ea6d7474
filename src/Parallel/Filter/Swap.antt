-- ===== src/Parallel/Filter/Swap.antt =====
-- lib/trace_parallel.c: how filter_packets swaps two elements of an array.
use odp_libtrace.Prelude.{
  suc, ◌+◌, ◌≡◌, refl, ap, sym, arith, List, [], ◌∷◌, ◌++◌, length, get_or, set, length-append,
}
use mathlib.Core.List.{append_assoc, append-nil, Perm, perm_middle}
use mathlib.Core.List.Perm
use mathlib.Core.Path.{subst}

module _ {P : Type 0} where
  get_or-append :
      (xs : List P) (y : P) (ys : List P) (d : P) → get_or (xs ++ (y ∷ ys)) (length xs) d ≡ y
  get_or-append [] y ys d = refl
  get_or-append (x ∷ xs) y ys d = get_or-append xs y ys d

  set-append :
      (xs : List P) (y : P) (ys : List P) (v : P)
      → set (xs ++ (y ∷ ys)) (length xs) v ≡ xs ++ (v ∷ ys)
  set-append [] y ys v = refl
  set-append (x ∷ xs) y ys v = ap (λ l. x ∷ l) (set-append xs y ys v)

  pub get_or-between :
      (front back : List P) (y : P) (ys : List P) (d : P)
      → get_or (front ++ (back ++ (y ∷ ys))) (length front + length back) d ≡ y
  get_or-between front back y ys d =
      rw (sym (append_assoc front back (y ∷ ys)), sym (length-append front back))
        (get_or-append (front ++ back) y ys d)

  pub set-between :
      (front back : List P) (y : P) (ys : List P) (v : P)
      → set (front ++ (back ++ (y ∷ ys))) (length front + length back) v
        ≡ front ++ (back ++ (v ∷ ys))
  set-between front back y ys v =
      rw
        (
          sym (append_assoc front back (y ∷ ys)),
          sym (append_assoc front back (v ∷ ys)),
          sym (length-append front back),
        )
        (set-append (front ++ back) y ys v)

  -- A packet that is taken changes places with the first that is not.
  pub rotate : List P → List P
  rotate [] = []
  rotate (b ∷ bs) = bs ++ (b ∷ [])

  pub rotate-Perm : (bs : List P) → Perm (rotate bs) bs
  unfolding rotate
  rotate-Perm [] = Perm.refl []
  rotate-Perm (b ∷ bs) =
      subst (λ l. Perm (bs ++ (b ∷ [])) (b ∷ l)) (append-nil bs) (perm_middle bs [])

  pub length-rotate : (bs : List P) → length (rotate bs) ≡ length bs
  unfolding rotate
  length-rotate [] = refl
  length-rotate (b ∷ bs) = omega (arith, length-append bs (b ∷ []))

  pub swap_lem :
      (front back : List P) (p : P) (later : List P) (d : P)
      → let packets = front ++ (back ++ (p ∷ later)) in
        set
          (set packets (length front) p)
          (length front + length back)
          (get_or packets (length front) d)
        ≡ (front ++ (p ∷ [])) ++ (rotate back ++ later)
  unfolding rotate
  swap_lem front [] p later d =
      let at : length front + 0 ≡ length front = omega arith in
      rw (get_or-append front p later d, set-append front p later p, at, set-append front p later p)
        (sym (append_assoc front (p ∷ []) later))
  swap_lem front (b ∷ bs) p later d =
      let at : length front + suc (length bs) ≡ length (front ++ (p ∷ [])) + length bs =
        omega (arith, length-append front (p ∷ [])) in
      rw
        (
          get_or-append front b (bs ++ (p ∷ later)) d,
          set-append front b (bs ++ (p ∷ later)) p,
          sym (append_assoc front (p ∷ []) (bs ++ (p ∷ later))),
          at,
          set-between (front ++ (p ∷ [])) bs p later b,
        )
        (ap (λ l. (front ++ (p ∷ [])) ++ l) (sym (append_assoc bs (b ∷ []) later)))
