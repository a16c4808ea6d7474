-- ===== src/DataStruct/Vector/Refine.antt =====
-- lib/data-struct/vector.c: runs of calls of push_back, get, remove_front, empty and get_size against
-- the list of the elements.
use odp_libtrace.Prelude.{
  ℕ, ◌+◌, ◌≤◌, ◌<◌, ◌^◌, ◌≡◌, refl, ap, ap₂, sym, ◌∙◌, arith, Bool, true, false, List, [], ◌∷◌,
  ◌++◌, Option, some, drop, ◌⊎◌, inl, inr, length, length-append, length-take, get_elem?,
}
use odp_libtrace.DataStruct.Vector.{Vector, init, push_back, get, get_size, remove_front, empty}
use odp_libtrace.DataStruct.Vector.Lists.{
  contents, IsValid, get_lem, push_back_lem, remove_front_lem,
}

-- A client's call, and what it sees.
pub data Call (A : Type 0) : Type 0 where
  push : A → Call A
  lookup : ℕ → Call A
  drop_front : Call A
  clear : Call A
  count : Call A

pub data Reply (A : Type 0) : Type 0 where
  done : Reply A
  found : Option (Option A) → Reply A
  dropped : Bool → Reply A
  counted : ℕ → Reply A

module _ {A : Type 0} where
  unfoldable pub step : Call A → Vector A → Reply A × Vector A
  step (push d) v = (done, push_back v d)
  step (lookup i) v = (found (get v i), v)
  step drop_front v = let (b, v') = remove_front v in (dropped b, v')
  step clear v = (done, empty v)
  step count v = (counted (get_size v), v)

  abbrev pub is_some : List (Option A) → Bool
  is_some [] = false
  is_some (x ∷ l) = true

  -- The calls on a list.
  unfoldable pub spec : Call A → List (Option A) → Reply A × List (Option A)
  spec (push d) l = (done, l ++ (some d ∷ []))
  spec (lookup i) l = (found (get_elem? l i), l)
  spec drop_front l = (dropped (is_some l), drop 1 l)
  spec clear l = (done, [])
  spec count l = (counted (length l), l)

  unfoldable pub run : Vector A → List (Call A) → List (Reply A)
  run v [] = []
  run v (c ∷ cs) = let (r, v') = step c v in r ∷ run v' cs

  unfoldable pub spec_run : List (Option A) → List (Call A) → List (Reply A)
  spec_run l [] = []
  spec_run l (c ∷ cs) = let (r, l') = spec c l in r ∷ spec_run l' cs

  record Refines (c : Call A) (v : Vector A) : Type 0 where
    pub reply : (step c v).0 ≡ (spec c (contents v)).0
    pub state : contents (step c v).1 ≡ (spec c (contents v)).1
    pub valid : IsValid (step c v).1

  length-contents : (v : Vector A) → IsValid v → length (contents v) ≡ v.size
  unfolding contents
  length-contents v ok = omega (arith, length-take v.size v.elements, ok.fits, ok.allocated)

  remove_front-reply : (v : Vector A) → IsValid v → (remove_front v).0 ≡ is_some (contents v)
  unfolding remove_front
  remove_front-reply v ok = ground (arith, length-contents v ok, some_of_length (contents v))
    where
      some_of_length : (l : List (Option A)) → (is_some l ≡ true) ⊎ (length l ≡ 0)
      some_of_length [] = inr refl
      some_of_length (x ∷ l) = inl refl

  step-Refines : (c : Call A) (v : Vector A) → IsValid v → v.size < 2 ^ 63 → Refines c v
  unfolding step spec get_size empty contents
  step-Refines (push d) v ok room =
      let (valid, e) = push_back_lem v d ok room in
      record { reply = refl; state = e; valid = valid }
  step-Refines (lookup i) v ok room = record {
    reply = ap found (get_lem v i ok);
    state = refl;
    valid = ok;
  }
  step-Refines drop_front v ok room =
      let (valid, e) = remove_front_lem v ok in
      record { reply = ap dropped (remove_front-reply v ok); state = e; valid = valid }
  step-Refines clear v ok room = record {
    reply = refl;
    state = refl;
    valid = record {
      room = ok.room;
      fits = omega arith;
      small = ok.small;
      allocated = ok.allocated;
    };
  }
  step-Refines count v ok room = record {
    reply = ap counted (sym (length-contents v ok));
    state = refl;
    valid = ok;
  }

  spec-grows : (c : Call A) (l : List (Option A)) → length (spec c l).1 ≤ length l + 1
  unfolding spec
  spec-grows (push d) l = omega (arith, length-append l (some d ∷ []))
  spec-grows (lookup i) l = omega arith
  spec-grows drop_front [] = omega arith
  spec-grows drop_front (x ∷ l) = omega arith
  spec-grows clear l = omega arith
  spec-grows count l = omega arith

  -- No run of these calls tells a valid vector from the list of its elements, if there are fewer than
  -- 2^63 elements and calls together.
  run-spec_run :
      (v : Vector A) (cs : List (Call A))
      → IsValid v
      → v.size + length cs < 2 ^ 63
      → run v cs ≡ spec_run (contents v) cs
  unfolding run spec_run
  run-spec_run v [] ok room = refl
  run-spec_run v (c ∷ cs) ok room =
      let r = step-Refines c v ok (omega arith) in
      let v' = (step c v).1 in
      let grows : v'.size ≤ v.size + 1 = omega (
        arith,
        length-contents v ok,
        length-contents v' r.valid,
        ap length r.state,
        spec-grows c (contents v),
      ) in
      let rest = run-spec_run v' cs r.valid (omega arith) in
      ap₂ (λ a b. a ∷ b) r.reply (rest ∙ ap (λ l. spec_run l cs) r.state)

  init-IsValid : IsValid (init {A = A})
  unfolding init
  init-IsValid = record {
    room = omega arith;
    fits = omega arith;
    small = omega arith;
    allocated = refl;
  }

  -- No run of fewer than 2^63 calls of push_back, get, remove_front, empty and get_size tells a new
  -- vector from an empty list.
  pub vector_refines : (cs : List (Call A)) → length cs < 2 ^ 63 → run init cs ≡ spec_run [] cs
  unfolding init contents
  vector_refines cs few = run-spec_run init cs init-IsValid (omega arith)
