-- ===== src/Parallel/States/Counts.antt =====
-- lib/trace_parallel.c, thread_change_state: the counts are those of the threads, and the trace is
-- finished once all of its packet threads are.
use odp_libtrace.Prelude.{
  ℕ, zero, suc, ◌+◌, ◌^◌, ◌≤◌, ◌<◌, ◌≡◌, refl, sym, ◌∙◌, arith, ◌==◌, if◌then◌else◌, List, [], ◌∷◌,
  get_or, set, length, length-set, length-replicate, replicate, add32, sub32, ℕ_discrete,
  get_or-set_self, get_or-set_ne,
}
use mathlib.Core.Path.{subst}
use odp_libtrace.Parallel.States.{
  state_finished, Trace, thread_running, thread_finished, check_finished, thread_change_state,
  started,
}

-- How many threads are in a state.
abbrev pub number : ℕ → List ℕ → ℕ
number s [] = 0
number s (x ∷ xs) = (if x == s then 1 else 0) + number s xs

number-le : (s : ℕ) (xs : List ℕ) → number s xs ≤ length xs
number-le s [] = omega arith
number-le s (x ∷ xs) = ground (arith, number-le s xs)

number-set :
    (s : ℕ) (xs : List ℕ) (i new : ℕ)
    → i < length xs
    → number s (set xs i new) + (if get_or xs i 0 == s then 1 else 0)
      ≡ number s xs + (if new == s then 1 else 0)
number-set s [] i new h = absurd (omega arith)
number-set s (x ∷ xs) zero new h = ground arith
number-set s (x ∷ xs) (suc i) new h = ground (arith, number-set s xs i new (omega arith))

number-replicate : (s n : ℕ) → number s (replicate n 0) ≡ (if 0 == s then n else 0)
number-replicate s zero = ground arith
number-replicate s (suc n) = ground (arith, number-replicate s n)

-- Every count is the number of threads in its state.
pub record Counted (trace : Trace) : Type 0 where
  pub four : length trace.perpkt_thread_states ≡ 4
  pub few : length trace.threads < 2 ^ 31
  pub counts : (s : ℕ) → s < 4 → get_or trace.perpkt_thread_states s 0 ≡ number s trace.threads
  pub states : (i : ℕ) → get_or trace.threads i 0 < 4

number-pos : (xs : List ℕ) (i : ℕ) → i < length xs → 0 < number (get_or xs i 0) xs
number-pos [] i h = absurd (omega arith)
number-pos (x ∷ xs) zero h = ground arith
number-pos (x ∷ xs) (suc i) h = ground (arith, number-pos xs i (omega arith))

get_or-set :
    (xs : List ℕ) (i j v : ℕ)
    → i < length xs
    → get_or (set xs i v) j 0 ≡ (if i == j then v else get_or xs j 0)
get_or-set xs i j v h = elim (ℕ_discrete i j) [
  | yes e ↦ ground (arith, e, get_or-set_self xs i v 0 h)
  | no ne ↦ ground (arith, ne, get_or-set_ne xs {i = i} {j = j} v 0 ne)
]

module _ (counts : List ℕ) (four : length counts ≡ 4) (prev new : ℕ) (p : prev < 4)
    (n : new < 4) where
  less : List ℕ
  less = set counts prev (sub32 (get_or counts prev 0) 1)

  more : List ℕ
  unfolding less
  more = set less new (add32 (get_or less new 0) 1)

  get_or-more :
      (s : ℕ)
      → 0 < get_or counts prev 0
      → get_or counts prev 0 < 2 ^ 31
      → get_or counts new 0 < 2 ^ 31
      → get_or more s 0 + (if prev == s then 1 else 0)
        ≡ get_or counts s 0 + (if new == s then 1 else 0)
  unfolding more less
  get_or-more s pos small small' =
      let first = sub32 (get_or counts prev 0) 1 in
      let second = add32 (get_or less new 0) 1 in
      ground (
        arith,
        get_or-set counts prev s first (omega (arith, four, p)),
        get_or-set counts prev new first (omega (arith, four, p)),
        get_or-set less new s second (omega (arith, length-set counts prev first, four, n)),
      )

  length-more : length more ≡ 4
  unfolding more less
  length-more =
      length-set less new (add32 (get_or less new 0) 1)
      ∙ length-set counts prev (sub32 (get_or counts prev 0) 1)
      ∙ four

-- Where no state is changed to finished, nothing but the counts and the threads changes.
abbrev pub AllFinished : Trace → Type 0
AllFinished trace = number thread_finished trace.threads ≡ length trace.threads

-- A change of state keeps the counts, and finishes the trace if all of its packet threads are finished
-- then, and not otherwise.
pub record Changed (old new : Trace) : Type 0 where
  pub counted : Counted new
  pub as_many : length new.threads ≡ length old.threads
  pub finishes : AllFinished new → new.state ≡ state_finished
  pub stays : ¬ AllFinished new → new.state ≡ old.state

check_finished-Changed :
    (old trace : Trace)
    → Counted trace
    → trace.state ≡ old.state
    → length trace.threads ≡ length old.threads
    → Changed old (check_finished trace)
unfolding check_finished
check_finished-Changed old trace h same size =
    let counted = h.counts thread_finished (omega arith) in
    elim (ℕ_discrete (get_or trace.perpkt_thread_states thread_finished 0) (length trace.threads)) [
      | yes e ↦
          let done : check_finished trace ≡ record trace { state = state_finished } =
            ground (arith, e) in
          subst (λ t. Changed old t) (sym done)
            (record {
              counted = record { four = h.four; few = h.few; counts = h.counts; states = h.states };
              as_many = size;
              finishes = λ all. refl;
              stays = λ some_left. absurd (some_left (sym counted ∙ e));
            })
      | no ne ↦
          let going : check_finished trace ≡ trace = ground (arith, ne) in
          subst (λ t. Changed old t) (sym going)
            (record {
              counted = h;
              as_many = size;
              finishes = λ all. absurd (ne (counted ∙ all));
              stays = λ some_left. same;
            })
    ]

-- From counts that are right, a change of the state of a packet thread keeps them right, and it
-- finishes the trace if all packet threads are finished then, and leaves its state otherwise.
pub thread_change_state-Changed :
    (trace : Trace) (i new_state : ℕ)
    → Counted trace
    → i < length trace.threads
    → new_state < 4
    → Changed trace (thread_change_state trace i new_state)
unfolding thread_change_state more less
thread_change_state-Changed trace i new h there small =
    let counts = trace.perpkt_thread_states in
    let prev = get_or trace.threads i 0 in
    let after : Trace = record trace {
      threads = set trace.threads i new;
      perpkt_thread_states = more counts h.four prev new (h.states i) small;
    } in
    check_finished-Changed trace after
      (record {
        four = length-more counts h.four prev new (h.states i) small;
        few = omega (arith, h.few, length-set trace.threads i new);
        counts = λ s le. omega (
          arith,
          get_or-more counts h.four prev new (h.states i) small s
              (omega (arith, h.counts prev (h.states i), number-pos trace.threads i there))
              (omega (arith, h.counts prev (h.states i), number-le prev trace.threads, h.few))
              (omega (arith, h.counts new small, number-le new trace.threads, h.few)),
          h.counts s le,
          number-set s trace.threads i new there,
        );
        states = λ j. ground (arith, get_or-set trace.threads i j new there, h.states j, small);
      })
      refl (length-set trace.threads i new)

-- A run of changes: each thread that changes its state, with the new one.
unfoldable pub run : Trace → List (ℕ × ℕ) → Trace
run trace [] = trace
run trace ((i, new_state) ∷ cs) = run (thread_change_state trace i new_state) cs

abbrev pub Threads : ℕ → List (ℕ × ℕ) → Type 0
Threads n [] = Unit {0}
Threads n ((i, new_state) ∷ cs) = (i < n) × (new_state < 4) × Threads n cs

run-Counted :
    (trace : Trace) (cs : List (ℕ × ℕ))
    → Counted trace
    → (AllFinished trace → trace.state ≡ state_finished)
    → Threads (length trace.threads) cs
    → Counted (run trace cs) × (AllFinished (run trace cs) → (run trace cs).state ≡ state_finished)
unfolding run
run-Counted trace [] h f ts = (h, f)
run-Counted trace ((i, new_state) ∷ cs) h f (there, small, ts) =
    let c = thread_change_state-Changed trace i new_state h there small in
    run-Counted (thread_change_state trace i new_state) cs c.counted c.finishes
      (subst (λ n. Threads n cs) (sym c.as_many) ts)

start-count : (n s : ℕ) → get_or (n ∷ 0 ∷ 0 ∷ 0 ∷ []) s 0 ≡ (if 0 == s then n else 0)
start-count n zero = ground arith
start-count n (suc zero) = ground arith
start-count n (suc (suc zero)) = ground arith
start-count n (suc (suc (suc zero))) = ground arith
start-count n (suc (suc (suc (suc s)))) = ground arith

get_or-running : (n i : ℕ) → get_or (replicate n thread_running) i 0 ≡ 0
get_or-running zero i = refl
get_or-running (suc n) zero = refl
get_or-running (suc n) (suc i) = get_or-running n i

started-Counted : (n : ℕ) → n < 2 ^ 31 → Counted (started n)
unfolding started
started-Counted n small = record {
  four = refl;
  few = omega (arith, small, length-replicate n thread_running);
  counts = λ s le. start-count n s ∙ sym (number-replicate s n);
  states = λ i. omega (arith, get_or-running n i);
}

-- In a trace that was started with some packet threads, the counts are right after any changes of
-- state by these threads, and the trace is finished whenever all of them are.
pub started-Counts :
    (n : ℕ) (cs : List (ℕ × ℕ))
    → 0 < n
    → n < 2 ^ 31
    → Threads n cs
    → Counted (run (started n) cs)
      × (AllFinished (run (started n) cs) → (run (started n) cs).state ≡ state_finished)
unfolding started
started-Counts n cs pos small ts =
    run-Counted (started n) cs (started-Counted n small)
      (λ all.
        absurd (omega (arith, all, number-replicate 2 n, length-replicate n thread_running, pos)))
      (subst (λ k. Threads k cs) (sym (length-replicate n thread_running)) ts)
