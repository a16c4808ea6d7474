-- ===== src/DataStruct/MessageQueue.antt =====
-- lib/data-struct/message_queue.c: messages between threads, over a pipe, with a count of those that
-- wait. Any number of threads put and get, interleaved at each access to what they share: the pipe,
-- whose reads and writes are atomic, and the count, which is changed under a spin lock.
pub mod Sums
pub mod Invariant
pub mod Safety
mod Tests
use odp_libtrace.Prelude.{
  ℕ, ◌+◌, ◌-◌, ◌%◌, ◌^◌, ◌<◌, ◌≡◌, Bool, true, false, not, ◌&&◌, ◌==◌, ltb, List, [], ◌∷◌, ◌++◌,
  get_or, set, length, add32, sub32,
}

-- Where a thread stands: outside the calls; in put, with its message written; in get, with the count
-- taken down; in try_get, having found the count above 0 without the lock, with the lock held, and
-- with the count taken down too.
pub data Pc : Type 0 where
  idle : Pc
  put_written : Pc
  get_taken : Pc
  try_tested : Pc
  try_locked : Pc
  try_taken : Pc

-- `libtrace_message_queue_t` with the threads that use it, and what was written and read so far, in
-- order. `message_count`, an `int`, is its 32-bit pattern; `spin` says whether the lock is held.
pub record System (M : Type 0) : Type 0 where
  pub pipe : List M
  pub message_count : ℕ
  pub spin : Bool
  pub threads : List Pc
  pub sent : List M
  pub received : List M

-- `message_count > 0`
abbrev pub is_positive : ℕ → Bool
is_positive n = not (n == 0) && ltb n (2 ^ 31)

-- The two tests of try_get, without the lock and with it.
abbrev pub first_test : ℕ → Bool
first_test n = is_positive n

abbrev pub second_test : ℕ → Bool
second_test n = is_positive n

module _ {M : Type 0} where
  abbrev pub at : System M → ℕ → Pc
  at s i = get_or s.threads i idle

  abbrev pub goes : System M → ℕ → Pc → List Pc
  goes s i pc = set s.threads i pc

  -- `write` of a message, and `++mq->message_count`
  unfoldable pub put_write : System M → ℕ → M → System M
  put_write s i m = record s {
    pipe = s.pipe ++ (m ∷ []);
    sent = s.sent ++ (m ∷ []);
    threads = goes s i put_written;
  }

  unfoldable pub put_count : System M → ℕ → System M
  put_count s i = record s { message_count = add32 s.message_count 1; threads = goes s i idle }

  -- `mq->message_count--` in get, and the `read` that follows
  unfoldable pub get_take : System M → ℕ → System M
  get_take s i = record s { message_count = sub32 s.message_count 1; threads = goes s i get_taken }

  unfoldable pub get_read : System M → ℕ → M → List M → System M
  get_read s i m rest = record s {
    pipe = rest;
    received = s.received ++ (m ∷ []);
    threads = goes s i idle;
  }

  -- try_get: the first test, the lock, `--mq->message_count`, the `read`, and the way out with no message
  unfoldable pub try_test : System M → ℕ → System M
  try_test s i = record s { threads = goes s i try_tested }

  unfoldable pub try_lock : System M → ℕ → System M
  try_lock s i = record s { spin = true; threads = goes s i try_locked }

  unfoldable pub try_take : System M → ℕ → System M
  try_take s i = record s { message_count = sub32 s.message_count 1; threads = goes s i try_taken }

  unfoldable pub try_read : System M → ℕ → M → List M → System M
  try_read s i m rest = record s {
    pipe = rest;
    received = s.received ++ (m ∷ []);
    spin = false;
    threads = goes s i idle;
  }

  unfoldable pub try_fail : System M → ℕ → System M
  try_fail s i = record s { spin = false; threads = goes s i idle }

-- A step of one thread. The first test of try_get reads the count without the lock; where it fails,
-- the call returns and nothing has changed. The lock is taken in a step of its own, and the count is
-- tested again behind it. A write waits while the pipe, with room for `capacity` messages, is full, a
-- read while it is empty, and the lock while it is held.
pub data Step {M : Type 0} (capacity : ℕ) (s : System M) : System M → Type 0 where
  write :
      (i : ℕ) (m : M)
      → i < length s.threads
      → at s i ≡ idle
      → length s.pipe < capacity
      → Step capacity s (put_write s i m)
  count :
      (i : ℕ)
      → i < length s.threads
      → at s i ≡ put_written
      → s.spin ≡ false
      → Step capacity s (put_count s i)
  take :
      (i : ℕ)
      → i < length s.threads
      → at s i ≡ idle
      → s.spin ≡ false
      → Step capacity s (get_take s i)
  read :
      (i : ℕ) (m : M) (rest : List M)
      → i < length s.threads
      → at s i ≡ get_taken
      → s.pipe ≡ m ∷ rest
      → Step capacity s (get_read s i m rest)
  test :
      (i : ℕ)
      → i < length s.threads
      → at s i ≡ idle
      → first_test s.message_count ≡ true
      → Step capacity s (try_test s i)
  lock :
      (i : ℕ)
      → i < length s.threads
      → at s i ≡ try_tested
      → s.spin ≡ false
      → Step capacity s (try_lock s i)
  found :
      (i : ℕ)
      → i < length s.threads
      → at s i ≡ try_locked
      → second_test s.message_count ≡ true
      → Step capacity s (try_take s i)
  fetch :
      (i : ℕ) (m : M) (rest : List M)
      → i < length s.threads
      → at s i ≡ try_taken
      → s.pipe ≡ m ∷ rest
      → Step capacity s (try_read s i m rest)
  give_up :
      (i : ℕ)
      → i < length s.threads
      → at s i ≡ try_locked
      → second_test s.message_count ≡ false
      → Step capacity s (try_fail s i)

pub data Reach {M : Type 0} (capacity : ℕ) (s : System M) : System M → Type 0 where
  here : Reach capacity s s
  next : {t u : System M} → Reach capacity s t → Step capacity t u → Reach capacity s u
