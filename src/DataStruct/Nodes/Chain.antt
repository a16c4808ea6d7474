-- ===== src/DataStruct/Nodes/Chain.antt =====
-- Chains of doubly linked nodes, and what a write does to them.
use odp_libtrace.Prelude.{
  Bool, true, false, List, [], ◌∷◌, ◌++◌, ◌||◌, Option, none, some, ◌==◌, Ptr, null, ◌≡◌, ◌≢◌, refl,
  ◌∙◌, arith, Bool-cases, inl, inr,
}
use odp_libtrace.DataStruct.Nodes.{Node, node, Heap, read, write}

pub eq_swap : (a b : Ptr) → (a == b) ≡ false → (b == a) ≡ false
eq_swap a b e = ground arith

module _ {A : Type 0} where
  abbrev pub has : Ptr → List (Ptr × A) → Bool
  has a [] = false
  has a ((p, _) ∷ xs) = (a == p) || has a xs

  -- The first node, or NULL, and the last, or `prev`.
  abbrev pub first : List (Ptr × A) → Ptr
  first [] = null
  first ((p, _) ∷ xs) = p

  abbrev pub final : Ptr → List (Ptr × A) → Ptr
  final prev [] = prev
  final prev ((p, _) ∷ xs) = final p xs

  -- The nodes are distinct, none is NULL, each points to the one behind it and to the one before
  -- it, the last to NULL and the first to `prev`.
  abbrev pub Linked : Heap A → Ptr → List (Ptr × A) → Type 0
  Linked h prev [] = Unit
  Linked h prev ((p, x) ∷ xs) =
      (p ≢ null) × (read h p ≡ some (node (first xs) prev x)) × (has p xs ≡ false) × Linked h p xs

  abbrev pub items : List (Ptr × A) → List A
  items [] = []
  items ((_, x) ∷ xs) = x ∷ items xs

  pub items-append : (xs ys : List (Ptr × A)) → items (xs ++ ys) ≡ items xs ++ items ys
  items-append [] ys = refl
  items-append ((p, x) ∷ xs) ys = rw (items-append xs ys)

  pub Linked-frame :
      (g h : Heap A) (prev : Ptr) (xs : List (Ptr × A))
      → ((a : Ptr) → has a xs ≡ true → read g a ≡ read h a)
      → Linked h prev xs
      → Linked g prev xs
  Linked-frame g h prev [] same l = tt
  Linked-frame g h prev ((p, x) ∷ xs) same (n, r, d, l) =
      (n, ground (arith, same p), d, Linked-frame g h p xs (λ a i. same a (ground arith)) l)

  -- A write elsewhere.
  pub Linked-write :
      (h : Heap A) (prev : Ptr) (xs : List (Ptr × A)) (a : Ptr) (c : Option (Node A))
      → has a xs ≡ false
      → Linked h prev xs
      → Linked (write h a c) prev xs
  Linked-write h prev xs a c out l = Linked-frame (write h a c) h prev xs (λ b i. ground arith) l

  pub not-has_of_none :
      (h : Heap A) (prev : Ptr) (xs : List (Ptr × A)) (a : Ptr)
      → read h a ≡ none
      → Linked h prev xs
      → has a xs ≡ false
  not-has_of_none h prev [] a e l = refl
  not-has_of_none h prev ((p, x) ∷ xs) a e (n, r, d, l) =
      ground (arith, not-has_of_none h p xs a e l)

  -- The first node gets another predecessor.
  pub Linked-set_prev :
      (h : Heap A) (prev q p : Ptr) (x : A) (xs : List (Ptr × A))
      → Linked h prev ((p, x) ∷ xs)
      → Linked (write h p (some (node (first xs) q x))) q ((p, x) ∷ xs)
  Linked-set_prev h prev q p x xs (n, r, d, l) =
      (n, ground arith, d, Linked-write h p xs p (some (node (first xs) q x)) d l)

  pub final-has :
      (prev : Ptr) (p : Ptr) (x : A) (xs : List (Ptr × A))
      → has (final prev ((p, x) ∷ xs)) ((p, x) ∷ xs) ≡ true
  final-has prev p x [] = ground arith
  final-has prev p x ((q, y) ∷ xs) = ground (arith, final-has p q y xs)

  outside-extend :
      (a z : Ptr) (d : A) (xs : List (Ptr × A))
      → has a xs ≡ false
      → (a == z) ≡ false
      → has a (xs ++ ((z, d) ∷ [])) ≡ false
  outside-extend a z d [] out e = ground arith
  outside-extend a z d ((q, y) ∷ xs) out e =
      ground (arith, outside-extend a z d xs (ground arith) e)

  outside-shorten :
      (a z : Ptr) (d : A) (xs : List (Ptr × A))
      → has a (xs ++ ((z, d) ∷ [])) ≡ false
      → (has a xs ≡ false) × ((a == z) ≡ false)
  outside-shorten a z d [] out = (refl, ground arith)
  outside-shorten a z d ((q, y) ∷ xs) out =
      let (o, e) = outside-shorten a z d xs (ground arith) in (ground arith, e)

  pub apart_of_has :
      (t p : Ptr) (xs : List (Ptr × A)) → has t xs ≡ true → has p xs ≡ false → (p == t) ≡ false
  apart_of_has t p [] i o = cc
  apart_of_has t p ((q, y) ∷ xs) i o = elim (Bool-cases (t == q)) [
    | inl e ↦ ground arith
    | inr n ↦ apart_of_has t p xs (ground arith) (ground arith)
  ]

  outside-cons :
      (z p : Ptr) (x : A) (xs : List (Ptr × A))
      → (z == p) ≡ false
      → has z xs ≡ false
      → has z ((p, x) ∷ xs) ≡ false
  outside-cons z p x xs e o = rw (e, o) refl

  pub outside_head :
      (z p : Ptr) (x : A) (xs : List (Ptr × A))
      → has z ((p, x) ∷ xs) ≡ false
      → ((z == p) ≡ false) × (has z xs ≡ false)
  outside_head z p x xs o = (ground arith, ground arith)

  pub read-write :
      (h : Heap A) (t p : Ptr) (c : Option (Node A))
      → (p == t) ≡ false
      → read (write h t c) p ≡ read h p
  read-write h t p c e = rw e refl

  -- A node behind the last.
  pub record Extended (h : Heap A) (prev new : Ptr) (d : A) (xs : List (Ptr × A)) : Type 0 where
    pub last : Node A
    pub found : read h (final prev xs) ≡ some last
    pub exists : final prev xs ≢ null
    pub linked :
        Linked
          (write
            (write h (final prev xs) (some (record last { next = new })))
            new
            (some (node null (final prev xs) d)))
          prev
          (xs ++ ((new, d) ∷ []))

  pub Linked-extend :
      (h : Heap A) (prev new : Ptr) (d : A) (p : Ptr) (x : A) (xs : List (Ptr × A))
      → new ≢ null
      → has new ((p, x) ∷ xs) ≡ false
      → Linked h prev ((p, x) ∷ xs)
      → Extended h prev new d ((p, x) ∷ xs)
  Linked-extend h prev new d p x [] n out l = record {
    last = node null prev x;
    found = ground arith;
    exists = l.0;
    linked = (l.0, ground arith, ground arith, (n, ground arith, refl, tt));
  }
  Linked-extend h prev new d p x ((q, y) ∷ xs) n out (pn, r, fresh, l) =
      let (ne, o) = outside_head new p x ((q, y) ∷ xs) out in
      let e = Linked-extend h p new d q y xs n o l in
      let other = eq_swap new p ne in
      let g = write h (final p ((q, y) ∷ xs)) (some (record e.last { next = new })) in
      record {
        last = e.last;
        found = e.found;
        exists = e.exists;
        linked = (
          pn,
          read-write g new p (some (node null (final p ((q, y) ∷ xs)) d)) other
              ∙ (read-write h _ p (some (record e.last { next = new }))
                    (apart_of_has _ p ((q, y) ∷ xs) (final-has p q y xs) fresh)
                  ∙ r),
          outside-extend p new d ((q, y) ∷ xs) fresh other,
          e.linked,
        );
      }

  -- The chain without its last node.
  pub record Shortened (h : Heap A) (prev : Ptr) (z : Ptr) (d : A) (xs : List (Ptr × A))
      : Type 0 where
    pub last : Node A
    pub found : read h (final prev xs) ≡ some last
    pub exists : final prev xs ≢ null
    pub apart : has z xs ≡ false
    pub linked : Linked (write h (final prev xs) (some (record last { next = null }))) prev xs

  pub read-last :
      (h : Heap A) (prev : Ptr) (z : Ptr) (d : A) (xs : List (Ptr × A))
      → Linked h prev (xs ++ ((z, d) ∷ []))
      → (z ≢ null) × (read h z ≡ some (node null (final prev xs) d))
  read-last h prev z d [] l = (l.0, l.1)
  read-last h prev z d ((p, x) ∷ xs) l = read-last h p z d xs l.3

  pub Linked-shorten :
      (h : Heap A) (prev : Ptr) (z : Ptr) (d : A) (p : Ptr) (x : A) (xs : List (Ptr × A))
      → Linked h prev (((p, x) ∷ xs) ++ ((z, d) ∷ []))
      → Shortened h prev z d ((p, x) ∷ xs)
  Linked-shorten h prev z d p x [] (pn, r, out, l) =
      let (_, e) = outside-shorten p z d [] out in
      record {
        last = node z prev x;
        found = r;
        exists = pn;
        apart = ground arith;
        linked = (pn, ground arith, refl, tt);
      }
  Linked-shorten h prev z d p x ((q, y) ∷ xs) (pn, r, out, l) =
      let e = Linked-shorten h p z d q y xs l in
      let (o, ne) = outside-shorten p z d ((q, y) ∷ xs) out in
      record {
        last = e.last;
        found = e.found;
        exists = e.exists;
        apart = outside-cons z p x ((q, y) ∷ xs) (eq_swap p z ne) e.apart;
        linked = (
          pn,
          read-write h _ p _ (apart_of_has _ p ((q, y) ∷ xs) (final-has p q y xs) o) ∙ r,
          o,
          e.linked,
        );
      }

  pub final-exists :
      (h : Heap A) (prev p : Ptr) (x : A) (xs : List (Ptr × A))
      → Linked h prev ((p, x) ∷ xs)
      → final p xs ≢ null
  final-exists h prev p x [] l = l.0
  final-exists h prev p x ((q, y) ∷ xs) l = final-exists h p q y xs l.3
