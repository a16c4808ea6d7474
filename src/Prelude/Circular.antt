-- ===== src/Prelude/Circular.antt =====
-- A stretch of a circular array: `n` slots of `buf` from position `h` on, taken modulo `size`.
-- The position is kept unreduced, so that the slot at offset `k` is `(h + k) % size`.
use Prim.Native.Nat.{ℕ, zero, suc, ◌+◌, ◌-◌, ◌%◌, ◌^◌, ◌≤◌, ◌<◌}
use mathlib.Core.Path.{◌≡◌, refl, sym, ap, ap₂, ◌∙◌}
use mathlib.Core.Logic.{◌≢◌}
use mathlib.Core.List.{List, [], ◌∷◌, ◌++◌}
use native.Mathlib.Nat.{le_trans, add-zero, mod-add-mod, mod-lt, mod-eq_of_lt, mod-eq-sub-mod}
use native.Mathlib.Numerals.{add-one}
use native.Mathlib.Decide.{dec_lt}
use native.Mathlib.Omega.{arith}
use odp_libtrace.Prelude.Lists.{length, get_or, set, replicate, get_or-set_self, get_or-set_ne}

-- Fewer than `size` steps on, another slot is reached.
ne_of_lt_mod : (size r d : ℕ) → r < size → 0 < d → d < size → r ≢ (r + d) % size
ne_of_lt_mod size r d hr pos lt = elim (dec_lt (r + d) size) [
  | yes p ↦ omega (arith, mod-eq_of_lt p)
  | no p ↦ omega (
    arith,
    mod-eq-sub-mod {n = r + d} {m = size} (omega arith),
    mod-eq_of_lt {n = r + d - size} {m = size} (omega arith),
  )
]

mod-add-ne : (size h d : ℕ) → 0 < d → d < size → h % size ≢ (h + d) % size
mod-add-ne size h d pos lt =
    rw (← mod-add-mod h size d) (ne_of_lt_mod size (h % size) d (mod-lt h (omega arith)) pos lt)

abbrev pub span : List ℕ → ℕ → ℕ → ℕ → List ℕ
span buf size h zero = []
span buf size h (suc n) = get_or buf (h % size) 0 ∷ span buf size (suc h) n

pub length-span : (buf : List ℕ) (size h n : ℕ) → length (span buf size h n) ≡ n
length-span buf size h zero = refl
length-span buf size h (suc n) = ap suc (length-span buf size (suc h) n)

-- A write outside a stretch is not seen in it.
span-set_outside :
    (buf : List ℕ) (size h n d v : ℕ)
    → d + n ≤ size
    → 0 < d
    → span (set buf (h % size) v) size (h + d) n ≡ span buf size (h + d) n
span-set_outside buf size h zero d v lt pos = refl
span-set_outside buf size h (suc n) d v lt pos =
    ap₂ ◌∷◌ (get_or-set_ne buf v 0 (mod-add-ne size h d pos (omega arith)))
      (rw next (span-set_outside buf size h n (suc d) v (omega arith) (omega arith)))
  where
    next : suc (h + d) ≡ h + suc d
    next = omega arith

-- A write at offset `i` of a stretch replaces its item `i`.
pub span-set :
    (buf : List ℕ) (size h n i v : ℕ)
    → i < n
    → n ≤ size
    → size ≤ length buf
    → span (set buf ((h + i) % size) v) size h n ≡ set (span buf size h n) i v
span-set buf size h zero i v lt le room = elim lt [ ]
span-set buf size h (suc n) zero v lt le room =
    ap (λ k. span (set buf (k % size) v) size h (suc n)) (add-zero h)
    ∙ ap₂ ◌∷◌ (get_or-set_self buf (h % size) v 0 (le_trans (mod-lt h (omega arith)) room)) rest
  where
    rest : span (set buf (h % size) v) size (suc h) n ≡ span buf size (suc h) n
    rest = rw (← add-one h) (span-set_outside buf size h n 1 v (omega arith) (omega arith))
span-set buf size h (suc n) (suc i) v lt le room =
    ap₂ ◌∷◌
      (get_or-set_ne buf v 0 (λ e. mod-add-ne size h (suc i) (omega arith) (omega arith) (sym e)))
      (ap (λ k. span (set buf (k % size) v) size (suc h) n) next
        ∙ span-set buf size (suc h) n i v (omega arith) (omega arith) room)
  where
    next : h + suc i ≡ suc h + i
    next = omega arith

-- A stretch depends on its position modulo `size` only.
pub span_of_mod-eq :
    (buf : List ℕ) (size h g n : ℕ) → h % size ≡ g % size → span buf size h n ≡ span buf size g n
span_of_mod-eq buf size h g zero e = refl
span_of_mod-eq buf size h g (suc n) e =
    ap₂ ◌∷◌ (ap (λ k. get_or buf k 0) e) (span_of_mod-eq buf size (suc h) (suc g) n next)
  where
    next : suc h % size ≡ suc g % size
    next = rw (← add-one h, ← add-one g, ← mod-add-mod h size 1, ← mod-add-mod g size 1, e)

-- The last item of a stretch.
pub span-suc :
    (buf : List ℕ) (size h n : ℕ)
    → span buf size h (suc n) ≡ span buf size h n ++ (get_or buf ((h + n) % size) 0 ∷ [])
span-suc buf size h zero = rw add-zero
span-suc buf size h (suc n) =
    ap (λ l. get_or buf (h % size) 0 ∷ l) (rw next (span-suc buf size (suc h) n))
  where
    next : h + suc n ≡ suc h + n
    next = omega arith

-- All slots of an unset array are unset.
pub get_or-replicate : (n i : ℕ) → get_or {A = ℕ} (replicate n 0) i 0 ≡ 0
get_or-replicate zero i = refl
get_or-replicate (suc n) zero = refl
get_or-replicate (suc n) (suc i) = get_or-replicate n i

pub span-replicate : (m size h n : ℕ) → span (replicate m 0) size h n ≡ replicate n 0
span-replicate m size h zero = refl
span-replicate m size h (suc n) =
    ap₂ ◌∷◌ (get_or-replicate m (h % size)) (span-replicate m size (suc h) n)

-- Moving once round: the slot that leaves a full stretch at the front, overwritten, comes back as
-- its last one.
pub span-set_shift :
    (buf : List ℕ) (size h n v : ℕ)
    → suc n ≡ size
    → size ≤ length buf
    → h < size
    → span (set buf h v) size ((h + 1) % size) (suc n) ≡ span buf size (suc h) n ++ (v ∷ [])
span-set_shift buf size h n v e room lt =
    span_of_mod-eq (set buf h v) size ((h + 1) % size) (suc h) (suc n) turn
    ∙ (span-suc (set buf h v) size (suc h) n ∙ ap₂ (λ xs x. xs ++ (x ∷ [])) front last)
  where
    turn : (h + 1) % size % size ≡ suc h % size
    turn = rw (mod-eq_of_lt (mod-lt (h + 1) {m = size} (omega arith)), add-one)

    round : (suc h + n) % size ≡ h
    round =
        ap (λ k. k % size) (omega arith)
        ∙ (mod-eq-sub-mod {n = h + size} {m = size} (omega arith)
            ∙ (ap (λ k. k % size) (omega arith) ∙ mod-eq_of_lt lt))

    last : get_or (set buf h v) ((suc h + n) % size) 0 ≡ v
    last = rw round (get_or-set_self buf h v 0 (omega arith))

    front : span (set buf h v) size (suc h) n ≡ span buf size (suc h) n
    front =
        ap (λ k. span (set buf k v) size (suc h) n) (sym (mod-eq_of_lt lt))
        ∙ rw (← add-one h) (span-set_outside buf size h n 1 v (omega arith) (omega arith))

set-append_last :
    (xs : List ℕ) (n x v : ℕ) → n ≡ length xs → set (xs ++ (x ∷ [])) n v ≡ xs ++ (v ∷ [])
set-append_last [] zero x v e = refl
set-append_last [] (suc n) x v e = absurd (omega arith)
set-append_last (y ∷ xs) zero x v e = absurd (omega arith)
set-append_last (y ∷ xs) (suc n) x v e = ap (λ l. y ∷ l) (set-append_last xs n x v (omega arith))

-- Writing just behind a stretch makes it longer by one item.
pub span-set_last :
    (buf : List ℕ) (size h n v : ℕ)
    → suc n ≤ size
    → size ≤ length buf
    → span (set buf ((h + n) % size) v) size h (suc n) ≡ span buf size h n ++ (v ∷ [])
span-set_last buf size h n v le room =
    span-set buf size h (suc n) n v (omega arith) le room
    ∙ (ap (λ l. set l n v) (span-suc buf size h n)
        ∙ set-append_last (span buf size h n) n (get_or buf ((h + n) % size) 0) v
            (omega (arith, length-span buf size h n)))

-- Taking the first item off a stretch.
pub span-next :
    (buf : List ℕ) (size h n : ℕ)
    → h < size
    → size < 2 ^ 64
    → span buf size h (suc n) ≡ get_or buf h 0 ∷ span buf size ((h + 1) % 2 ^ 64 % size) n
span-next buf size h n lt small =
    ap₂ ◌∷◌ (ap (λ k. get_or buf k 0) (mod-eq_of_lt lt))
      (span_of_mod-eq buf size (suc h) ((h + 1) % 2 ^ 64 % size) n turn)
  where
    turn : suc h % size ≡ (h + 1) % 2 ^ 64 % size % size
    turn =
        rw (mod-eq_of_lt (mod-lt ((h + 1) % 2 ^ 64) {m = size} (omega arith)))
          (ap (λ k. k % size) (omega arith))

-- A write behind a stretch is not seen in it.
pub span-set_behind :
    (buf : List ℕ) (size h n d v : ℕ)
    → n ≤ d
    → d < size
    → span (set buf ((h + d) % size) v) size h n ≡ span buf size h n
span-set_behind buf size h zero d v le lt = refl
span-set_behind buf size h (suc n) zero v le lt = elim le [ ]
span-set_behind buf size h (suc n) (suc d) v le lt =
    ap₂ ◌∷◌ (get_or-set_ne buf v 0 (λ e. mod-add-ne size h (suc d) (omega arith) lt (sym e))) (
      ap (λ k. span (set buf (k % size) v) size (suc h) n) next
      ∙ span-set_behind buf size (suc h) n d v (omega arith) (omega arith))
  where
    next : h + suc d ≡ suc h + d
    next = omega arith
