-- ===== src/Parallel/Hasher/Stopping.antt =====
-- lib/trace_parallel.c: a packet thread that messages to stop or to pause may reach, such as the one that
-- another packet thread sends when it ends with an error.
use mathlib.Core.Path.{subst}
use odp_libtrace.Prelude.{
  ℕ, zero, suc, ◌+◌, ◌≤◌, ◌<◌, ◌≡◌, ◌⊎◌, inl, inr, refl, ap, List, [], ◌∷◌, ◌++◌, none, some,
  length, get_or, Bool, true, false, not, ◌&&◌, if◌then◌else◌,
}
use odp_libtrace.Parallel.{Item, packet, tick, message, eof, failure, is_error, is_tick}
use odp_libtrace.Parallel.Hasher.{
  Input, pread, Pread, batch, error_of, waits, Ending, at_eof, pauses, asserts, dispatch_all,
  perpkt_loop, hasher_entry, handle_read, take_messages, Message, do_pause, do_stop, other,
}
use odp_libtrace.Parallel.Hasher.Batch.{IsLast}
use odp_libtrace.Parallel.Hasher.Routing.{stream}
use odp_libtrace.Parallel.Hasher.Delivery.{hasher-Delivers}

take_messages-ends :
    (messages : List Message)
    → (take_messages messages ≡ none)
      ⊎ (ending : Ending) × (take_messages messages ≡ some ending)
        × ((ending ≡ at_eof) ⊎ (ending ≡ pauses))
unfolding take_messages
take_messages-ends [] = inl refl
take_messages-ends (do_pause ∷ messages) = inr (pauses, refl, inr refl)
take_messages-ends (do_stop ∷ messages) = inr (at_eof, refl, inl refl)
take_messages-ends (other ∷ messages) = take_messages-ends messages

abbrev no_messages : ℕ → List Message
no_messages n = []

module _ {P : Type 0} where
  -- A run that is another one, or a beginning of it that stops or pauses.
  pub data Cut (out whole : List (Item P) × Ending) : Type 0 where
    same : out ≡ whole → Cut out whole
    begins :
        (rest : List (Item P))
        → out.0 ++ rest ≡ whole.0
        → (out.1 ≡ at_eof) ⊎ (out.1 ≡ pauses)
        → Cut out whole

  keep-Cut :
      (stop : Bool) (x : Item P) (out whole : List (Item P) × Ending)
      → Cut out whole
      → Cut
          (if stop then ([], asserts) else (x ∷ out.0, out.1))
          (if stop then ([], asserts) else (x ∷ whole.0, whole.1))
  keep-Cut true x out whole c = same refl
  keep-Cut false x out whole (same e) = same (ap (λ r. (x ∷ r.0, r.1)) e)
  keep-Cut false x out whole (begins rest e how) = begins rest (ap (λ ys. x ∷ ys) e) how

  dispatch_all-Cut :
      (xs : List (Item P)) (out whole : List (Item P) × Ending)
      → Cut out whole
      → Cut (dispatch_all xs out.0 out.1) (dispatch_all xs whole.0 whole.1)
  unfolding dispatch_all
  dispatch_all-Cut [] out whole c = c
  dispatch_all-Cut (x ∷ xs) out whole c =
      keep-Cut (is_error x && not (is_tick x)) x (dispatch_all xs out.0 out.1)
        (dispatch_all xs whole.0 whole.1) (dispatch_all-Cut xs out whole c)

  handle_read-Cut :
      (read : Pread P) (out whole : List (Item P) × Ending)
      → Cut out whole
      → Cut (handle_read read out) (handle_read read whole)
  unfolding handle_read
  handle_read-Cut (batch xs) out whole c = dispatch_all-Cut xs out whole c
  handle_read-Cut (error_of message) out whole c = c
  handle_read-Cut (error_of eof) out whole c = same refl
  handle_read-Cut (error_of (packet p)) out whole c = same refl
  handle_read-Cut (error_of (tick n)) out whole c = same refl
  handle_read-Cut (error_of failure) out whole c = same refl
  handle_read-Cut waits out whole c = same refl

  perpkt_loop-Cut :
      (fuel burst : ℕ) (arrives : ℕ → List Message) (available : ℕ → ℕ) (input : Input P)
      → Cut
          (perpkt_loop fuel burst arrives available input)
          (perpkt_loop fuel burst no_messages available input)
  unfolding perpkt_loop take_messages
  perpkt_loop-Cut zero burst arrives available input = same refl
  perpkt_loop-Cut (suc fuel) burst arrives available input =
      let read = pread burst (available fuel) input in
      let later = perpkt_loop-Cut fuel burst arrives available read.1 in
      elim (take_messages-ends (arrives fuel)) [
        | inl e ↦ rw (perpkt_loop, e) (handle_read-Cut read.0 _ _ later)
        | inr (ending, e, how) ↦ rw (perpkt_loop, e) (begins _ refl how)
      ]

-- If no ticks are asked for, or packets are read one at a time, then whatever messages reach a packet
-- thread, and also those to stop and to pause, it hands to the callbacks the packets and ticks of its
-- number in order, as the hasher deals them out: all of them, and then it ends as the failed read says;
-- or a beginning of them, and then it stops or pauses.
pub hasher-Cut :
    {P : Type 0} (order hasher : P → ℕ) (threads tick_count : ℕ) (ps : List P) {last : Item P}
    {ending : Ending} (i fuel burst : ℕ) (arrives : ℕ → List Message) (available : ℕ → ℕ)
    → IsLast last ending
    → i < threads
    → 0 < burst
    → (tick_count ≡ 0) ⊎ (burst ≡ 1)
    → length (stream order hasher threads tick_count i ps) + 2 ≤ fuel
    → Cut
        (perpkt_loop fuel burst arrives available (record {
          rbuffer = get_or (hasher_entry order hasher threads tick_count ps last) i [];
          format_data = none;
        }))
        (stream order hasher threads tick_count i ps, ending)
hasher-Cut order hasher threads tick_count ps {last} i fuel burst arrives available l h some_room
      which enough =
    subst (Cut _)
      (hasher-Delivers order hasher threads tick_count ps i fuel burst no_messages available
        (λ n. tt) l h some_room which enough)
      (perpkt_loop-Cut fuel burst arrives available (record {
        rbuffer = get_or (hasher_entry order hasher threads tick_count ps last) i [];
        format_data = none;
      }))
