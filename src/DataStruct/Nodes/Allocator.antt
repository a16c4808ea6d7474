-- ===== src/DataStruct/Nodes/Allocator.antt =====
-- An allocator for tests: the first address above all that were ever written.
use odp_libtrace.Prelude.{◌+◌, ◌≤◌, ◌≡◌, ◌≢◌, refl, arith, [], ◌∷◌, none, Ptr, null, max}
use odp_libtrace.DataStruct.Nodes.{Heap, read}

module _ {A : Type 0} where
  abbrev pub next_free : Heap A → Ptr
  next_free [] = 1
  next_free ((p, c) ∷ h) = max (p + 1) (next_free h)

  read-above : (h : Heap A) (a : Ptr) → next_free h ≤ a → read h a ≡ none
  read-above [] a le = refl
  read-above ((p, c) ∷ h) a le = ground (arith, read-above h a (omega arith))

  next_free-positive : (h : Heap A) → 1 ≤ next_free h
  next_free-positive [] = omega arith
  next_free-positive ((p, c) ∷ h) = omega (arith, next_free-positive h)

  pub next_free-unused : (h : Heap A) → (next_free h ≢ null) × (read h (next_free h) ≡ none)
  next_free-unused h =
      (ground (arith, next_free-positive h), read-above h (next_free h) (omega arith))
