-- ===== src/DataStruct/MessageQueue/Safety.antt =====
-- lib/data-struct/message_queue.c: what holds at every moment, whatever the threads do.
use odp_libtrace.Prelude.{
  ℕ, zero, suc, ◌+◌, ◌^◌, ◌<◌, ◌≡◌, refl, arith, false, List, [], ◌∷◌, ◌++◌, length, replicate,
  length-replicate, add32,
}
use odp_libtrace.DataStruct.MessageQueue.{
  Pc, idle, try_taken, System, at, Step, write, count, take, read, test, lock, found, fetch,
  give_up, Reach, here, next,
}
use odp_libtrace.DataStruct.MessageQueue.Sums.{
  pending, holds, fetches, total, total-ge, total-le, pending-le,
}
use odp_libtrace.DataStruct.MessageQueue.Invariant.{
  Inv, write-Inv, count-Inv, take-Inv, read-Inv, test-Inv, lock-Inv, found-Inv, fetch-Inv,
  give_up-Inv,
}

Step-Inv :
    {M : Type 0} {capacity : ℕ} {s t : System M}
    → Step capacity s t
    → Inv capacity s
    → Inv capacity t
Step-Inv {s} (write i m h pc room) inv = write-Inv s inv i m h pc room
Step-Inv {s} (count i h pc free) inv = count-Inv s inv i h pc free
Step-Inv {s} (take i h pc free) inv = take-Inv s inv i h pc free
Step-Inv {s} (read i m rest h pc e) inv = read-Inv s inv i m rest h pc e
Step-Inv {s} (test i h pc some_left) inv = test-Inv s inv i h pc
Step-Inv {s} (lock i h pc free) inv = lock-Inv s inv i h pc free
Step-Inv {s} (found i h pc some_left) inv = found-Inv s inv i h pc some_left
Step-Inv {s} (fetch i m rest h pc e) inv = fetch-Inv s inv i m rest h pc e
Step-Inv {s} (give_up i h pc none_left) inv = give_up-Inv s inv i h pc

-- `libtrace_message_queue_init`, with `n` threads outside the calls.
unfoldable pub init : {M : Type 0} → (n : ℕ) → System M
init n = record {
  pipe = [];
  message_count = 0;
  spin = false;
  threads = replicate n idle;
  sent = [];
  received = [];
}

total-replicate : (w : Pc → ℕ) (n : ℕ) → w idle ≡ 0 → total w (replicate n idle) ≡ 0
unfolding total
total-replicate w zero e = refl
total-replicate w (suc n) e = omega (arith, e, total-replicate w n e)

init-Inv : {M : Type 0} (capacity n : ℕ) → capacity + n < 2 ^ 31 → Inv capacity (init {M = M} n)
unfolding init
init-Inv capacity n small =
    let nothing = total-replicate pending n refl in
    record {
      small = omega (arith, small, length-replicate n idle);
      fits = omega arith;
      word = omega arith;
      adds_up = ground (arith, nothing);
      one_holder = total-replicate holds n refl;
      counted = λ h. omega arith;
      in_order = refl;
    }

Reach-Inv :
    {M : Type 0} {capacity : ℕ} {s t : System M}
    → Reach capacity s t
    → Inv capacity s
    → Inv capacity t
Reach-Inv here inv = inv
Reach-Inv (next r st) inv = Step-Inv st (Reach-Inv r inv)

non-empty : {M : Type 0} (xs : List M) → 0 < length xs → (m : M) × (rest : List M) × (xs ≡ m ∷ rest)
non-empty [] h = absurd (omega arith)
non-empty (m ∷ rest) h = (m, rest, refl)

-- Whatever the threads do, a thread that found the count above 0 in try_get, and has taken it down,
-- finds a message in the pipe: its read, which is made with the lock held, does not wait. The capacity
-- of the pipe and the number of threads together are below 2^31.
pub try_get_ready :
    {M : Type 0} (capacity n : ℕ) {s : System M} (i : ℕ)
    → capacity + n < 2 ^ 31
    → Reach capacity (init n) s
    → i < length s.threads
    → at s i ≡ try_taken
    → (m : M) × (rest : List M) × (s.pipe ≡ m ∷ rest)
try_get_ready capacity n {s} i small r h pc =
    let inv = Reach-Inv r (init-Inv capacity n small) in
    let few = total-le pending s.threads pending-le in
    non-empty s.pipe
      (ground (arith, inv, pc, total-ge fetches s.threads i h, total-ge pending s.threads i h, few))

-- Whatever the threads do, what was written is what was read, in order, followed by what is in the
-- pipe; and the count and the number of threads that have written and not counted yet, or taken the
-- count down and not read yet, add up in 32 bits to the number of messages in the pipe. The capacity of
-- the pipe and the number of threads together are below 2^31.
pub messages_in_order :
    {M : Type 0} (capacity n : ℕ) {s : System M}
    → capacity + n < 2 ^ 31
    → Reach capacity (init n) s
    → (s.sent ≡ s.received ++ s.pipe)
      × (add32 s.message_count (total pending s.threads) ≡ length s.pipe)
messages_in_order capacity n small r =
    let inv = Reach-Inv r (init-Inv capacity n small) in (inv.in_order, inv.adds_up)
