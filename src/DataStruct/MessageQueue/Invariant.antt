-- ===== src/DataStruct/MessageQueue/Invariant.antt =====
-- lib/data-struct/message_queue.c: what the count says of the pipe, and that every step keeps it.
use odp_libtrace.Prelude.{
  ℕ, ◌+◌, ◌^◌, ◌≤◌, ◌<◌, ◌≡◌, ap, sym, ◌∙◌, arith, true, false, if◌then◌else◌, List, [], ◌∷◌, ◌++◌,
  length, length-set, length-append, add32,
}
use mathlib.Core.List.{append_assoc}
use odp_libtrace.DataStruct.MessageQueue.{
  Pc, idle, put_written, get_taken, try_tested, try_locked, try_taken, System, is_positive, at,
  goes, put_write, put_count, get_take, get_read, try_test, try_lock, try_take, try_read, try_fail,
}
use odp_libtrace.DataStruct.MessageQueue.Sums.{
  pending, holds, fetches, total, total-set, total-ge, total-le, pending-le, fetches-le,
}

-- The count and the messages that are pending add up to the length of the pipe; the lock is held by
-- one thread or free; and the count is not negative while a thread is about to read with the lock.
pub record Inv {M : Type 0} (capacity : ℕ) (s : System M) : Type 0 where
  pub small : capacity + length s.threads < 2 ^ 31
  pub fits : length s.pipe ≤ capacity
  pub word : s.message_count < 2 ^ 32
  pub adds_up : add32 s.message_count (total pending s.threads) ≡ length s.pipe
  pub one_holder : total holds s.threads ≡ (if s.spin then 1 else 0)
  pub counted : 0 < total fetches s.threads → s.message_count < 2 ^ 31
  pub in_order : s.sent ≡ s.received ++ s.pipe

module _ {M : Type 0} {capacity : ℕ} (s : System M) (inv : Inv capacity s) where
  -- What a step of thread `i` to another place does to the sums.
  record Moves (i : ℕ) (pc : Pc) : Type 0 where
    pendings : total pending (goes s i pc) + pending (at s i) ≡ total pending s.threads + pending pc
    holders : total holds (goes s i pc) + holds (at s i) ≡ total holds s.threads + holds pc
    fetchers : total fetches (goes s i pc) + fetches (at s i) ≡ total fetches s.threads + fetches pc
    few : total pending s.threads ≤ length s.threads
    among : total fetches s.threads ≤ total holds s.threads
    as_many : length (goes s i pc) ≡ length s.threads

  moves : (i : ℕ) (pc : Pc) → i < length s.threads → Moves i pc
  moves i pc h = record {
    pendings = total-set pending s.threads i pc h;
    holders = total-set holds s.threads i pc h;
    fetchers = total-set fetches s.threads i pc h;
    few = total-le pending s.threads pending-le;
    among = fetches-le s.threads;
    as_many = length-set s.threads i pc;
  }

  pub write-Inv :
      (i : ℕ) (m : M)
      → i < length s.threads
      → at s i ≡ idle
      → length s.pipe < capacity
      → Inv capacity (put_write s i m)
  unfolding put_write
  write-Inv i m h pc room =
      let f = moves i put_written h in
      record {
        small = omega (arith, inv.small, f.as_many);
        fits = omega (arith, room, length-append s.pipe (m ∷ []));
        word = inv.word;
        adds_up = ground (arith, f, inv, pc, room, length-append s.pipe (m ∷ []));
        one_holder = ground (arith, f, inv, pc, room, length-append s.pipe (m ∷ []));
        counted = ground (arith, f, inv, pc, room, length-append s.pipe (m ∷ []));
        in_order = ap (λ l. l ++ (m ∷ [])) inv.in_order ∙ append_assoc s.received s.pipe (m ∷ []);
      }

  pub count-Inv :
      (i : ℕ)
      → i < length s.threads
      → at s i ≡ put_written
      → s.spin ≡ false
      → Inv capacity (put_count s i)
  unfolding put_count
  count-Inv i h pc free =
      let f = moves i idle h in
      record {
        small = omega (arith, inv.small, f.as_many);
        fits = inv.fits;
        word = omega arith;
        adds_up = ground (arith, f, inv, pc, free);
        one_holder = ground (arith, f, inv, pc, free);
        counted = ground (arith, f, inv, pc, free);
        in_order = inv.in_order;
      }

  pub take-Inv :
      (i : ℕ) → i < length s.threads → at s i ≡ idle → s.spin ≡ false → Inv capacity (get_take s i)
  unfolding get_take
  take-Inv i h pc free =
      let f = moves i get_taken h in
      record {
        small = omega (arith, inv.small, f.as_many);
        fits = inv.fits;
        word = omega arith;
        adds_up = ground (arith, f, inv, pc, free);
        one_holder = ground (arith, f, inv, pc, free);
        counted = ground (arith, f, inv, pc, free);
        in_order = inv.in_order;
      }

  pub read-Inv :
      (i : ℕ) (m : M) (rest : List M)
      → i < length s.threads
      → at s i ≡ get_taken
      → s.pipe ≡ m ∷ rest
      → Inv capacity (get_read s i m rest)
  unfolding get_read
  read-Inv i m rest h pc e =
      let f = moves i idle h in
      record {
        small = omega (arith, inv.small, f.as_many);
        fits = omega (arith, inv.fits, ap length e);
        word = inv.word;
        adds_up = ground (arith, f, inv, pc, ap length e);
        one_holder = ground (arith, f, inv, pc, ap length e);
        counted = ground (arith, f, inv, pc, ap length e);
        in_order =
            inv.in_order
            ∙ (ap (λ l. s.received ++ l) e ∙ sym (append_assoc s.received (m ∷ []) rest));
      }

  pub test-Inv : (i : ℕ) → i < length s.threads → at s i ≡ idle → Inv capacity (try_test s i)
  unfolding try_test
  test-Inv i h pc =
      let f = moves i try_tested h in
      record {
        small = omega (arith, inv.small, f.as_many);
        fits = inv.fits;
        word = inv.word;
        adds_up = ground (arith, f, inv, pc);
        one_holder = ground (arith, f, inv, pc);
        counted = ground (arith, f, inv, pc);
        in_order = inv.in_order;
      }

  pub lock-Inv :
      (i : ℕ)
      → i < length s.threads
      → at s i ≡ try_tested
      → s.spin ≡ false
      → Inv capacity (try_lock s i)
  unfolding try_lock
  lock-Inv i h pc free =
      let f = moves i try_locked h in
      record {
        small = omega (arith, inv.small, f.as_many);
        fits = inv.fits;
        word = inv.word;
        adds_up = ground (arith, f, inv, pc, free);
        one_holder = ground (arith, f, inv, pc, free);
        counted = ground (arith, f, inv, pc, free);
        in_order = inv.in_order;
      }

  pub found-Inv :
      (i : ℕ)
      → i < length s.threads
      → at s i ≡ try_locked
      → is_positive s.message_count ≡ true
      → Inv capacity (try_take s i)
  unfolding try_take
  found-Inv i h pc some_left =
      let f = moves i try_taken h in
      record {
        small = omega (arith, inv.small, f.as_many);
        fits = inv.fits;
        word = omega arith;
        adds_up = ground (arith, f, inv, pc, some_left);
        one_holder = ground (arith, f, inv, pc, some_left);
        counted = ground (arith, f, inv, pc, some_left);
        in_order = inv.in_order;
      }

  pub fetch-Inv :
      (i : ℕ) (m : M) (rest : List M)
      → i < length s.threads
      → at s i ≡ try_taken
      → s.pipe ≡ m ∷ rest
      → Inv capacity (try_read s i m rest)
  unfolding try_read
  fetch-Inv i m rest h pc e =
      let f = moves i idle h in
      record {
        small = omega (arith, inv.small, f.as_many);
        fits = omega (arith, inv.fits, ap length e);
        word = inv.word;
        adds_up = ground (arith, f, inv, pc, ap length e, total-ge holds s.threads i h);
        one_holder = ground (arith, f, inv, pc, ap length e, total-ge holds s.threads i h);
        counted = ground (arith, f, inv, pc, ap length e, total-ge holds s.threads i h);
        in_order =
            inv.in_order
            ∙ (ap (λ l. s.received ++ l) e ∙ sym (append_assoc s.received (m ∷ []) rest));
      }

  pub give_up-Inv :
      (i : ℕ) → i < length s.threads → at s i ≡ try_locked → Inv capacity (try_fail s i)
  unfolding try_fail
  give_up-Inv i h pc =
      let f = moves i idle h in
      record {
        small = omega (arith, inv.small, f.as_many);
        fits = inv.fits;
        word = inv.word;
        adds_up = ground (arith, f, inv, pc, total-ge holds s.threads i h);
        one_holder = ground (arith, f, inv, pc, total-ge holds s.threads i h);
        counted = ground (arith, f, inv, pc, total-ge holds s.threads i h);
        in_order = inv.in_order;
      }
