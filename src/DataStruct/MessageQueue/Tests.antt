-- ===== src/DataStruct/MessageQueue/Tests.antt =====
-- Two threads: one puts a number, the other tries to get one.
use odp_libtrace.Prelude.{ℕ, ◌≡◌, refl, arith, true, false, List, [], ◌∷◌, ◌++◌, length, add32}
use odp_libtrace.DataStruct.MessageQueue.{
  idle, try_taken, System, put_write, put_count, try_test, try_lock, try_take, try_read, try_fail,
  write, count, test, lock, found, fetch, give_up, Reach, here, next,
}
use odp_libtrace.DataStruct.MessageQueue.Sums.{pending, total}
use odp_libtrace.DataStruct.MessageQueue.Safety.{init, try_get_ready, messages_in_order}

abbrev waiting : System ℕ
waiting = record {
  pipe = 5 ∷ [];
  message_count = 0;
  spin = true;
  threads = idle ∷ try_taken ∷ [];
  sent = 5 ∷ [];
  received = [];
}

waiting-Reach : Reach 100 (init 2) waiting
unfolding init put_write put_count try_test try_lock try_take
waiting-Reach =
    let written = next here (write 0 5 (omega arith) refl (omega arith)) in
    let counted = next written (count 0 (omega arith) refl refl) in
    let tested = next counted (test 1 (omega arith) refl refl) in
    let locked = next tested (lock 1 (omega arith) refl refl) in
    next locked (found 1 (omega arith) refl refl)

-- Two threads find the count above 0, and one takes the message: the other gives up with the lock.
abbrev late : System ℕ
late = record {
  pipe = [];
  message_count = 0;
  spin = false;
  threads = idle ∷ idle ∷ [];
  sent = 5 ∷ [];
  received = 5 ∷ [];
}

late-Reach : Reach 100 (init 2) late
unfolding init put_write put_count try_test try_lock try_take try_read try_fail
late-Reach =
    let written = next here (write 0 5 (omega arith) refl (omega arith)) in
    let counted = next written (count 0 (omega arith) refl refl) in
    let tested =
      next (next counted (test 1 (omega arith) refl refl)) (test 0 (omega arith) refl refl) in
    let locked = next tested (lock 1 (omega arith) refl refl) in
    let taken = next locked (found 1 (omega arith) refl refl) in
    let fetched = next taken (fetch 1 5 [] (omega arith) refl refl) in
    let second = next fetched (lock 0 (omega arith) refl refl) in
    next second (give_up 0 (omega arith) refl refl)

try_get_ready_example : (m : ℕ) × (rest : List ℕ) × (waiting.pipe ≡ m ∷ rest)
try_get_ready_example = try_get_ready 100 2 1 (omega arith) waiting-Reach (omega arith) refl

messages_in_order_example :
    (waiting.sent ≡ waiting.received ++ waiting.pipe)
    × (add32 waiting.message_count (total pending waiting.threads) ≡ length waiting.pipe)
messages_in_order_example = messages_in_order 100 2 (omega arith) waiting-Reach
