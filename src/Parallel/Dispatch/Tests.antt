-- ===== src/Parallel/Dispatch/Tests.antt =====
-- A batch of numbers; the callback keeps the even ones.
use odp_libtrace.Prelude.{
  ℕ, ◌%◌, ◌≡◌, refl, Bool, true, false, ◌==◌, if◌then◌else◌, [], ◌∷◌, Option, none, some,
}
use odp_libtrace.Parallel.{packet, tick}
use odp_libtrace.Parallel.Dispatch.{
  Batch, read_message, dispatch_packets, dispatch_from, dispatch_packet, move_full,
}
use odp_libtrace.Parallel.Dispatch.Layout.{IsLaidOut}
use odp_libtrace.Parallel.Dispatch.Compact.{Dispatches, dispatch_packets-Dispatches}

abbrev keep_even : ℕ → Option ℕ
keep_even p = if p % 2 == 0 then none else some p

abbrev never : ℕ → Bool
never n = false

abbrev odd_first : Batch ℕ
odd_first = record {
  packets = some (packet 1) ∷ none ∷ some (packet 4) ∷ some (packet 5) ∷ some (tick 8) ∷ [];
  empty = 1;
  offset = 2;
}

odd_first-moved : (dispatch_packets keep_even never false 5 odd_first).1 ≡ record {
  packets = some (packet 1) ∷ some (packet 5) ∷ some (tick 8) ∷ none ∷ none ∷ [];
  empty = 3;
  offset = 5;
}
unfolding dispatch_packets dispatch_from dispatch_packet move_full
odd_first-moved = refl

odd_first-IsLaidOut : IsLaidOut odd_first (packet 1 ∷ []) 1 (packet 4 ∷ packet 5 ∷ tick 8 ∷ [])
odd_first-IsLaidOut = record { packets = refl; empty = refl; offset = refl }

-- A message comes at the fourth slot.
abbrev at_third : ℕ → Bool
at_third n = n == 3

odd_first-stops : (dispatch_packets keep_even at_third true 5 odd_first).0 ≡ read_message
unfolding dispatch_packets dispatch_from dispatch_packet move_full
odd_first-stops = refl

dispatch_packets-Dispatches_example :
    Dispatches keep_even at_third true 2
      (packet 1 ∷ [])
      (packet 4 ∷ packet 5 ∷ tick 8 ∷ [])
      (dispatch_packets keep_even at_third true 5 odd_first)
dispatch_packets-Dispatches_example =
    dispatch_packets-Dispatches keep_even at_third true odd_first 5 (packet 1 ∷ []) 1
      (packet 4 ∷ packet 5 ∷ tick 8 ∷ []) odd_first-IsLaidOut tt refl
