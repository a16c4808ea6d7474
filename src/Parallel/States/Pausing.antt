-- ===== src/Parallel/States/Pausing.antt =====
-- lib/trace_parallel.c, trace_ppause: the checks at its start, which are made with the lock held.
use odp_libtrace.Prelude.{
  ℕ, ◌-◌, ◌^◌, ◌≡◌, ◌≢◌, ◌⊎◌, inl, inr, refl, ap, sym, ◌∙◌, arith, Bool, true, false, not, ◌||◌,
  ◌&&◌, ◌↔◌, Bool-cases, if◌then◌else◌,
}
use odp_libtrace.Parallel.States.{TraceState, state_running, state_pausing, state_paused}

-- The fields of `libtrace_t` that the checks use; `locked` says that `libtrace_lock` is held, and
-- `has_error` that an error is set.
pub record Control : Type 0 where
  pub state : TraceState
  pub started : Bool
  pub locked : Bool
  pub has_error : Bool

-- A call returns a number, an `int` as its 32-bit pattern, or goes on to pause the threads, or waits
-- for the lock for ever.
pub data Entered : Type 0 where
  returns : ℕ → Control → Entered
  pauses : Control → Entered
  waits : Entered

abbrev pub is_paused : TraceState → Bool
is_paused state_paused = true
is_paused _ = false

abbrev pub is_running : TraceState → Bool
is_running state_running = true
is_running _ = false

unfoldable pub ppause_enter : Control → Entered
ppause_enter c =
    if c.locked
    then waits
    else if is_paused c.state
    then returns 0 (record c { locked = false })
    else if not c.started || not (is_running c.state)
    then returns (2 ^ 32 - 1) (record c { has_error = true; locked = true })
    else pauses (record c { state = state_pausing; locked = false })

-- Two calls, one after the other: the second finds what the checks of the first leave.
unfoldable pub again : Entered → Entered
again (returns r c) = ppause_enter c
again (pauses c) = ppause_enter c
again waits = waits

-- Whether a call waits for ever, and whether the lock is held behind its checks.
abbrev pub is_waiting : Entered → Bool
is_waiting waits = true
is_waiting _ = false

abbrev pub is_locked : Entered → Bool
is_locked (returns r c) = c.locked
is_locked (pauses c) = c.locked
is_locked waits = true

-- A trace that is not paused, and that is not started or not running.
abbrev pub Refused : Control → Type 0
Refused c = (c.state ≢ state_paused) × ((c.started ≡ false) ⊎ (c.state ≢ state_running))

-- The same as a test.
refuses : Control → Bool
refuses c = not (is_paused c.state) && (not c.started || not (is_running c.state))

is_paused-eq : (s : TraceState) → is_paused s ≡ true → s ≡ state_paused
is_paused-eq state_paused h = refl
is_paused-eq _ h = ground arith

is_running-eq : (s : TraceState) → is_running s ≡ true → s ≡ state_running
is_running-eq state_running h = refl
is_running-eq _ h = ground arith

is_paused-ne : (s : TraceState) → is_paused s ≡ false → s ≢ state_paused
is_paused-ne s h e = ground (arith, h, ap is_paused e)

is_running-ne : (s : TraceState) → is_running s ≡ false → s ≢ state_running
is_running-ne s h e = ground (arith, h, ap is_running e)

Refused-refuses : (c : Control) → Refused c → refuses c ≡ true
unfolding refuses
Refused-refuses c (unpaused, why) = elim (Bool-cases (is_paused c.state)) [
  | inl p ↦ absurd (unpaused (is_paused-eq c.state p))
  | inr p ↦ elim why [
    | inl stopped ↦ ground (arith, p, stopped)
    | inr other ↦ elim (Bool-cases (is_running c.state)) [
      | inl r ↦ absurd (other (is_running-eq c.state r))
      | inr r ↦ ground (arith, p, r)
    ]
  ]
]

refuses-Refused : (c : Control) → refuses c ≡ true → Refused c
unfolding refuses
refuses-Refused c h =
    let unpaused : is_paused c.state ≡ false = ground (arith, h) in
    (
      is_paused-ne c.state unpaused,
      elim (Bool-cases (is_running c.state)) [
        | inl r ↦ inl (ground (arith, h, r))
        | inr r ↦ inr (is_running-ne c.state r)
      ],
    )

enter-refuses :
    (c : Control)
    → c.locked ≡ false
    → (is_locked (ppause_enter c) ≡ refuses c) × (is_waiting (again (ppause_enter c)) ≡ refuses c)
unfolding ppause_enter again refuses
enter-refuses c free = ground (arith, free)

-- From a free lock: the lock is held behind the checks of trace_ppause just if the trace is not
-- paused, and not started or not running; and just then the next call waits for ever.
pub ppause_locks :
    (c : Control)
    → c.locked ≡ false
    → ((is_locked (ppause_enter c) ≡ true) ↔ Refused c)
      × ((is_waiting (again (ppause_enter c)) ≡ true) ↔ Refused c)
ppause_locks c free =
    let e = enter-refuses c free in
    (
      (λ h. refuses-Refused c (sym e.0 ∙ h), λ r. e.0 ∙ Refused-refuses c r),
      (λ h. refuses-Refused c (sym e.1 ∙ h), λ r. e.1 ∙ Refused-refuses c r),
    )
