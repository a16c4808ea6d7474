-- ===== src/DataStruct/MessageQueue/Sums.antt =====
-- lib/data-struct/message_queue.c: sums over the threads, by where each stands.
use odp_libtrace.Prelude.{
  ℕ, zero, suc, ◌+◌, ◌≤◌, ◌<◌, ◌≡◌, arith, List, [], ◌∷◌, get_or, set, length,
}
use odp_libtrace.DataStruct.MessageQueue.{
  Pc, idle, put_written, get_taken, try_tested, try_locked, try_taken,
}

-- Messages that are in the pipe and not counted yet, or counted as gone and not read yet.
abbrev pub pending : Pc → ℕ
pending idle = 0
pending put_written = 1
pending get_taken = 1
pending try_tested = 0
pending try_locked = 0
pending try_taken = 1

-- Threads that hold the lock, and those of them that are about to read.
abbrev pub holds : Pc → ℕ
holds try_locked = 1
holds try_taken = 1
holds _ = 0

abbrev pub fetches : Pc → ℕ
fetches try_taken = 1
fetches _ = 0

unfoldable pub total : (Pc → ℕ) → List Pc → ℕ
total w [] = 0
total w (pc ∷ pcs) = w pc + total w pcs

pub total-set :
    (w : Pc → ℕ) (pcs : List Pc) (i : ℕ) (pc : Pc)
    → i < length pcs
    → total w (set pcs i pc) + w (get_or pcs i idle) ≡ total w pcs + w pc
unfolding total
total-set w [] i pc h = absurd (omega arith)
total-set w (p ∷ pcs) zero pc h = omega arith
total-set w (p ∷ pcs) (suc i) pc h = omega (arith, total-set w pcs i pc (omega arith))

pub total-ge :
    (w : Pc → ℕ) (pcs : List Pc) (i : ℕ) → i < length pcs → w (get_or pcs i idle) ≤ total w pcs
unfolding total
total-ge w [] i h = absurd (omega arith)
total-ge w (p ∷ pcs) zero h = omega arith
total-ge w (p ∷ pcs) (suc i) h = omega (arith, total-ge w pcs i (omega arith))

pub total-le : (w : Pc → ℕ) (pcs : List Pc) → ((pc : Pc) → w pc ≤ 1) → total w pcs ≤ length pcs
unfolding total
total-le w [] h = omega arith
total-le w (p ∷ pcs) h = omega (arith, h p, total-le w pcs h)

pub pending-le : (pc : Pc) → pending pc ≤ 1
pending-le pc = ground arith

pub fetches-le : (pcs : List Pc) → total fetches pcs ≤ total holds pcs
unfolding total
fetches-le [] = omega arith
fetches-le (pc ∷ pcs) = ground (arith, fetches-le pcs)
