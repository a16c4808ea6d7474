-- ===== src/DataStruct/Vector.antt =====
-- lib/data-struct/vector.c: a growing array. An element of `element_size` bytes is one cell, `none`
-- where it was never written; no other thread runs while a call holds the lock.
mod Cells
mod Growth
pub mod Lists
pub mod Refine
pub mod Sort
mod Tests
use odp_libtrace.Prelude.{
  ℕ, zero, suc, ◌+◌, ◌-◌, ◌*◌, ◌%◌, ◌^◌, List, [], ◌∷◌, ◌++◌, Option, none, some, Bool, true, false,
  leb, ltb, ◌==◌, if◌then◌else◌, length, get_or, set, take, drop, replicate, min, sub64,
}

-- `libtrace_vector_t`; `elements` is the block that malloc and realloc return, `max_size` cells.
pub record Vector (A : Type 0) : Type 0 where
  pub max_size : ℕ
  pub size : ℕ
  pub elements : List (Option A)

-- The loop of `append` that doubles `max_size`, `none` when the rounds are used up.
pub grow : ℕ → ℕ → ℕ → ℕ → Option ℕ
grow zero max_size size more = none
grow (suc rounds) max_size size more =
    let rest = grow rounds (max_size * 2 % 2 ^ 64) size more in
    if ltb (sub64 max_size size) more then rest else some max_size

module _ {A : Type 0} where
  unfoldable pub init : Vector A
  init = record { max_size = 128; size = 0; elements = replicate 128 none }

  -- `libtrace_zero_vector`; `libtrace_vector_destroy` leaves the same state.
  pub zeroed : Vector A
  zeroed = record { max_size = 0; size = 0; elements = [] }

  -- `realloc` of a block keeps the cells that fit and adds cells that were never written.
  pub realloc : List (Option A) → ℕ → List (Option A)
  realloc elements n = take n elements ++ replicate (n - length elements) none

  -- `memcpy` of cells to the place `i` of a block.
  pub store : List (Option A) → ℕ → List (Option A) → List (Option A)
  store elements i [] = elements
  store elements i (d ∷ ds) = store (set elements i d) (suc i) ds

  unfoldable pub push_back : Vector A → A → Vector A
  push_back v d =
      let max_size = if leb v.max_size v.size then v.max_size * 2 % 2 ^ 64 else v.max_size in
      let elements = if leb v.max_size v.size then realloc v.elements max_size else v.elements in
      record {
        max_size = max_size;
        size = (v.size + 1) % 2 ^ 64;
        elements = set elements v.size (some d);
      }

  unfoldable pub get_size : Vector A → ℕ
  get_size v = v.size

  -- `none` where the function returns 0.
  unfoldable pub get : Vector A → ℕ → Option (Option A)
  get v location = if leb v.size location then none else some (get_or v.elements location none)

  -- The loop of `remove_front`, `n` cells from `i` on.
  pub shift_down : ℕ → ℕ → List (Option A) → List (Option A)
  shift_down zero i elements = elements
  shift_down (suc n) i elements =
      shift_down n (suc i) (set elements i (get_or elements (suc i) none))

  unfoldable pub remove_front : Vector A → Bool × Vector A
  remove_front v =
      if v.size == 0
      then (false, v)
      else (true, record v { size = v.size - 1; elements = shift_down (v.size - 1) 0 v.elements })

  -- The second branch of `append`, once the loop has given `max_size`.
  pub join : Vector A → Vector A → Option ℕ → Option (Vector A × Vector A)
  join dest src none = none
  join dest src (some max_size) =
      let elements =
        if dest.max_size == max_size then dest.elements else realloc dest.elements max_size in
      some (
        record {
          max_size = max_size;
          size = (dest.size + src.size) % 2 ^ 64;
          elements = store elements dest.size (take src.size src.elements);
        },
        record src { size = 0 },
      )

  -- The vectors after the call; `none` where the loop has not ended.
  pub append : Vector A → Vector A → Option (Vector A × Vector A)
  append dest src =
      if src.size == 0
      then some (dest, src)
      else if dest.size == 0
      then some (src, dest)
      else join dest src (grow 64 dest.max_size dest.size src.size)

  unfoldable pub empty : Vector A → Vector A
  empty v = record v { size = 0 }

  -- `libtrace_vector_apply_function`, the loop over `n` cells from `i` on.
  pub apply_from : ℕ → ℕ → (Option A → Option A) → List (Option A) → List (Option A)
  apply_from zero i fn elements = elements
  apply_from (suc n) i fn elements =
      apply_from n (suc i) fn (set elements i (fn (get_or elements i none)))

  pub apply_function : Vector A → (Option A → Option A) → Vector A
  apply_function v fn = record v { elements = apply_from v.size 0 fn v.elements }

  -- `libtrace_vector_qsort`; `sort` is the libc's `qsort` with the comparison, on the elements that it
  -- is told of. Their number is `element_size`, as the code passes it.
  pub vector_qsort : (List (Option A) → List (Option A)) → (element_size : ℕ) → Vector A → Vector A
  vector_qsort sort element_size v = record v {
    elements = sort (take element_size v.elements) ++ drop element_size v.elements;
  }
