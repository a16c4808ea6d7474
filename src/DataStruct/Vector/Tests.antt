-- ===== src/DataStruct/Vector/Tests.antt =====
-- Vectors of numbers, and the theorems at them.
use odp_libtrace.Prelude.{List, ℕ, ◌≡◌, refl, arith, [], ◌∷◌, none, some}
use odp_libtrace.DataStruct.Vector.{
  Vector, init, push_back, get, realloc, empty, zeroed, get_size, apply_from, apply_function,
}
use odp_libtrace.DataStruct.Vector.Lists.{IsValid}
use odp_libtrace.DataStruct.Vector.Refine.{
  Call, push, lookup, drop_front, count, run, spec_run, vector_refines,
}

-- A full vector, and one that has to grow twice to be put behind it.
abbrev two : Vector ℕ
two = record { max_size = 2; size = 2; elements = some 5 ∷ some 3 ∷ [] }

abbrev five : Vector ℕ
five = record { max_size = 5; size = 5; elements = some 1 ∷ some 2 ∷ some 3 ∷ some 4 ∷ some 9 ∷ [] }

two-IsValid : IsValid two
two-IsValid = omega arith

five-IsValid : IsValid five
five-IsValid = omega arith

push_full :
    push_back two 7
    ≡ record { max_size = 4; size = 3; elements = some 5 ∷ some 3 ∷ some 7 ∷ none ∷ [] }
unfolding push_back realloc
push_full = refl

calls :
    (get_size (init {A = ℕ}) ≡ 0)
    × (empty two ≡ record { max_size = 2; size = 0; elements = some 5 ∷ some 3 ∷ [] })
    × (get (zeroed {A = ℕ}) 0 ≡ none)
    × (apply_function two (λ d. none)
        ≡ record { max_size = 2; size = 2; elements = none ∷ none ∷ [] })
unfolding get_size init empty get zeroed apply_function apply_from
calls = (refl, refl, refl, refl)

abbrev calls_of_client : List (Call ℕ)
calls_of_client = push 4 ∷ push 5 ∷ drop_front ∷ lookup 0 ∷ lookup 1 ∷ count ∷ []

vector_refines_example : run init calls_of_client ≡ spec_run [] calls_of_client
vector_refines_example = vector_refines calls_of_client (omega arith)
