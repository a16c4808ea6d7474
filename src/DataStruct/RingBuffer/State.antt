-- ===== src/DataStruct/RingBuffer/State.antt =====
-- What a call on a shared ring buffer comes to while no other thread runs.
use odp_libtrace.Prelude.{ℕ, List, Bool, Ptr}

-- `libtrace_ringbuffer_t`. A lock is `true` while it is held. The condition variables and their
-- locks carry no data: a notification changes nothing that a caller sees.
pub record Ring : Type 0 where
  pub start : ℕ
  pub size : ℕ
  pub mode : ℕ
  pub elements : List Ptr
  pub wlock : Bool
  pub rlock : Bool
  pub end : ℕ

-- `blocks` is a call that sleeps or spins until another thread changes the ring it left behind,
-- `aborts` a failed assertion; the loops of the bulk calls run on fuel.
pub data Wait (A : Type 0) : Type 0 where
  done : A → Ring → Wait A
  blocks : Ring → Wait A
  aborts : Wait A
  out_of_fuel : Wait A

module _ {A B : Type 0} where
  abbrev pub and_then : Wait A → (A → Ring → Wait B) → Wait B
  and_then (done a r) k = k a r
  and_then (blocks r) k = blocks r
  and_then aborts k = aborts
  and_then out_of_fuel k = out_of_fuel

-- A call that returns meets `P`, one that blocks leaves a ring that meets `Q`, and there is no other
-- outcome.
abbrev pub Outcome : {A : Type 0} → (A → Ring → Type 0) → (Ring → Type 0) → Wait A → Type 0
Outcome P Q (done a r) = P a r
Outcome P Q (blocks r) = Q r
Outcome P Q aborts = ⊥
Outcome P Q out_of_fuel = ⊥

-- The call returns, and meets `P`.
abbrev pub Returns : {A : Type 0} → (A → Ring → Type 0) → Wait A → Type 0
Returns P = Outcome P (λ _. ⊥)
