-- ===== src/DataStruct/Nodes/Sequence.antt =====
-- What deque.c and linked_list.c promise: the calls on a sequence of items.
use odp_libtrace.Prelude.{
  ℕ, ◌+◌, ◌≤◌, ◌<◌, ◌^◌, ◌≡◌, refl, ap, ◌∙◌, arith, List, [], ◌∷◌, ◌++◌, Option, none, some, Ptr,
  length, ◌⊎◌, inl, inr,
}
use odp_libtrace.DataStruct.Nodes.{Heap}
use odp_libtrace.DataStruct.Nodes.Chain.{items}

-- A client's call, and what it sees.
pub data Call (A : Type 0) : Type 0 where
  push_back : A → Call A
  push_front : A → Call A
  pop_front : Call A
  pop_tail : Call A
  peek_front : Call A
  peek_tail : Call A
  get_size : Call A

pub data Reply (A : Type 0) : Type 0 where
  done : Reply A
  got : Option A → Reply A
  size : ℕ → Reply A

module _ {A : Type 0} where
  -- A sequence without its last item, and that item.
  unfoldable pub unsnoc : List A → Option (List A × A)
  unsnoc [] = none
  unsnoc (x ∷ l) = elim (unsnoc l) [ none ↦ some ([], x) | some (k, y) ↦ some (x ∷ k, y) ]

  pub unsnoc_lem : (l : List A) (x : A) → unsnoc (l ++ (x ∷ [])) ≡ some (l, x)
  unfolding unsnoc
  unsnoc_lem [] x = refl
  unsnoc_lem (y ∷ l) x = rw (unsnoc_lem l x) refl

  pub snoc_view : (xs : List A) → (xs ≡ []) ⊎ ((ys : List A) × (z : A) × (xs ≡ ys ++ (z ∷ [])))
  snoc_view [] = inl refl
  snoc_view (x ∷ xs) = elim (snoc_view xs) [
    | inl e ↦ inr ([], x, ap (λ l. x ∷ l) e)
    | inr (ys, z, e) ↦ inr (x ∷ ys, z, ap (λ l. x ∷ l) e)
  ]

  abbrev pub taken : List A → Option (List A × A) → Reply A × List A
  taken l none = (got none, l)
  taken l (some (k, y)) = (got (some y), k)

  abbrev pub shown : List A → Option (List A × A) → Reply A × List A
  shown l none = (got none, l)
  shown l (some (k, y)) = (got (some y), l)

  unfoldable pub spec : Call A → List A → Reply A × List A
  spec (push_back d) l = (done, l ++ (d ∷ []))
  spec (push_front d) l = (done, d ∷ l)
  spec pop_front [] = (got none, [])
  spec pop_front (x ∷ l) = (got (some x), l)
  spec pop_tail l = taken l (unsnoc l)
  spec peek_front [] = (got none, [])
  spec peek_front (x ∷ l) = (got (some x), x ∷ l)
  spec peek_tail l = shown l (unsnoc l)
  spec get_size l = (size (length l), l)

  unfoldable pub spec_run : List A → List (Call A) → List (Reply A)
  spec_run l [] = []
  spec_run l (c ∷ cs) = (spec c l).0 ∷ spec_run (spec c l).1 cs

-- An implementation with states `S`, and a run of it; `none` where it fails.
module _ {A S : Type 0} (step : Call A → Heap A → S → Option (Reply A × Heap A × S)) where
  unfoldable pub run : Heap A → S → List (Call A) → Option (List (Reply A))
  run h s [] = some []
  run h s (c ∷ cs) = elim (step c h s) [
    | none ↦ none
    | some (r, g, t) ↦ elim (run g t cs) [ none ↦ none | some rs ↦ some (r ∷ rs) ]
  ]

  run-nil : (h : Heap A) (s : S) → run h s [] ≡ some []
  unfolding run
  run-nil h s = refl

  run-cons :
      (c : Call A) (h : Heap A) (s : S) (cs : List (Call A)) (r : Reply A) (g : Heap A) (t : S)
      (rs : List (Reply A))
      → step c h s ≡ some (r, g, t)
      → run g t cs ≡ some rs
      → run h s (c ∷ cs) ≡ some (r ∷ rs)
  unfolding run
  run-cons c h s cs r g t rs e f = ground (arith, e, f)

  module _ (Holds : Heap A → S → List (Ptr × A) → Type 0) where
    -- A call does to the nodes `xs` what the sequence of their items promises.
    pub record Refines (c : Call A) (h : Heap A) (s : S) (xs : List (Ptr × A)) : Type 0 where
      pub heap : Heap A
      pub state : S
      pub nodes : List (Ptr × A)
      pub returns : step c h s ≡ some ((spec c (items xs)).0, heap, state)
      pub holds : Holds heap state nodes
      pub seen : items nodes ≡ (spec c (items xs)).1
      pub grows : length nodes ≤ length xs + 1

    pub run-spec_run :
        ((c : Call A) (h : Heap A) (s : S) (xs : List (Ptr × A))
          → Holds h s xs
          → length xs + 1 < 2 ^ 64
          → Refines c h s xs)
        → (h : Heap A) (s : S) (xs : List (Ptr × A)) (cs : List (Call A)) → Holds h s xs
        → length xs + length cs < 2 ^ 64
        → run h s cs ≡ some (spec_run (items xs) cs)
    unfolding spec_run
    run-spec_run refines h s xs [] ok room = run-nil h s
    run-spec_run refines h s xs (c ∷ cs) ok room =
        let r = refines c h s xs ok (omega arith) in
        let rest =
          run-spec_run refines r.heap r.state r.nodes cs r.holds (omega (arith, r.grows)) in
        run-cons c h s cs _ r.heap r.state _ r.returns rest
        ∙ ap (λ l. some ((spec c (items xs)).0 ∷ spec_run l cs)) r.seen
