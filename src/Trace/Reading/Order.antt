-- ===== src/Trace/Reading/Order.antt =====
-- lib/trace.c, trace_read_packet: which packets a client gets, and how they are counted.
use odp_libtrace.Prelude.{
  ℕ, zero, suc, ◌+◌, ◌<◌, ◌≡◌, refl, ap, sym, ◌∙◌, arith, true, false, List, [], ◌∷◌, add64, length,
  ◌⊎◌, inl, inr,
}
use mathlib.Core.Path.{subst}
use odp_libtrace.Trace.Reading.{
  Event, packet, eof, failure, Verdict, broken, drops, matches, Trace, Outcome, delivered, ended,
  failed, snapped, verdict, read_loop, trace_read_packet, read_all,
}

module _ {P : Type 0} where
  -- The packets with consecutive numbers.
  pub numbered : ℕ → List P → List (P × ℕ)
  numbered n [] = []
  numbered n (p ∷ ps) = (p, n) ∷ numbered (add64 n 1) ps

-- A 64-bit counter that was counted up `n` times.
pub advanced : ℕ → ℕ → ℕ
advanced zero x = x
advanced (suc n) x = advanced n (add64 x 1)

-- A trace that can be read.
pub record IsReady (t : Trace) : Type 0 where
  pub no_error : t.err ≡ false
  pub started : t.started ≡ true
  pub has_read : t.has_read ≡ true

-- A trace with the same configuration, and how many packets it has accepted and numbered since.
pub record Follows (n : ℕ) (t t' : Trace) : Type 0 where
  pub ready : IsReady t → IsReady t'
  pub filter : t'.has_filter ≡ t.has_filter
  pub snap : t'.snaplen ≡ t.snaplen
  pub sequence : t'.sequence_number ≡ advanced n t.sequence_number
  pub accepted : t'.accepted_packets ≡ advanced n t.accepted_packets

Follows-refl : (t : Trace) → Follows 0 t t
unfolding advanced
Follows-refl t = record {
  ready = λ r. r;
  filter = refl;
  snap = refl;
  sequence = refl;
  accepted = refl;
}

advanced-add : (n m x : ℕ) → advanced m (advanced n x) ≡ advanced (n + m) x
unfolding advanced
advanced-add zero m x = let e : m ≡ 0 + m = omega arith in ap (λ k. advanced k x) e
advanced-add (suc n) m x = advanced-add n m (add64 x 1) ∙ ap (λ k. advanced k x) (suc_form n m)
  where
    suc_form : (n m : ℕ) → suc (n + m) ≡ suc n + m
    suc_form n m = omega arith

Follows-trans : (n m : ℕ) (t u v : Trace) → Follows n t u → Follows m u v → Follows (n + m) t v
Follows-trans n m t u v a b = record {
  ready = λ r. b.ready (a.ready r);
  filter = b.filter ∙ a.filter;
  snap = b.snap ∙ a.snap;
  sequence = b.sequence ∙ ap (advanced m) a.sequence ∙ advanced-add n m t.sequence_number;
  accepted = b.accepted ∙ ap (advanced m) a.accepted ∙ advanced-add n m t.accepted_packets;
}

module _ {P : Type 0} (apply_filter : P → Verdict) (set_capture_length : ℕ → P → P) where
  -- The packets up to the end or the first error that the filter lets pass, truncated.
  pub kept : Trace → List (Event P) → List P
  kept t [] = []
  kept t (eof ∷ es) = []
  kept t (failure ∷ es) = []
  kept t (packet p n ∷ es) = elim (verdict apply_filter set_capture_length t p) [
    | broken ↦ []
    | drops ↦ kept t es
    | matches ↦ snapped apply_filter set_capture_length t p ∷ kept t es
  ]

  kept-Follows :
      (n : ℕ) (t t' : Trace) (es : List (Event P)) → Follows n t t' → kept t' es ≡ kept t es
  unfolding kept
  kept-Follows n t t' [] f = refl
  kept-Follows n t t' (eof ∷ es) f = refl
  kept-Follows n t t' (failure ∷ es) f = refl
  kept-Follows n t t' (packet p m ∷ es) f =
      ground (arith, kept-Follows n t t' es f, f.filter, f.snap)

  -- What a call of the loop does, where `k` are the packets that are kept and `m` events are to come.
  data Loops (t : Trace) (m : ℕ) (k : List P) : Outcome P × Trace × List (Event P) → Type 0 where
    stops :
        {out : Outcome P × Trace × List (Event P)}
        → (out.0 ≡ ended) ⊎ (out.0 ≡ failed)
        → k ≡ []
        → Follows 0 t out.1
        → Loops t m k out
    goes :
        {out : Outcome P × Trace × List (Event P)} (p : P) (n : ℕ)
        → out.0 ≡ delivered p t.sequence_number n
        → k ≡ p ∷ kept t out.2
        → Follows 1 t out.1
        → length out.2 < m
        → Loops t m k out

  abbrev counted : Trace → Trace
  counted t = record t { filtered_packets = add64 t.filtered_packets 1 }

  counted-Follows : (t : Trace) → Follows 0 t (counted t)
  unfolding advanced
  counted-Follows t = record {
    ready = λ r. record { no_error = r.no_error; started = r.started; has_read = r.has_read };
    filter = refl;
    snap = refl;
    sequence = refl;
    accepted = refl;
  }

  one_more :
      (t : Trace) (es : List (Event P)) (out : Outcome P × Trace × List (Event P))
      → Loops (counted t) (length es) (kept (counted t) es) out
      → Loops t (suc (length es)) (kept t es) out
  one_more t es out (stops e k f) =
      stops e (sym (kept-Follows 0 t (counted t) es (counted-Follows t)) ∙ k)
        (Follows-trans 0 0 t (counted t) out.1 (counted-Follows t) f)
  one_more t es out (goes p n e k f l) =
      goes p n e
        (sym (kept-Follows 0 t (counted t) es (counted-Follows t))
          ∙ (k ∙ ap (λ ps. p ∷ ps) (kept-Follows 0 t (counted t) out.2 (counted-Follows t))))
        (Follows-trans 0 1 t (counted t) out.1 (counted-Follows t) f) (omega arith)

  abbrev chosen : Trace → P → List (Event P) → Verdict → List P
  chosen t p es broken = []
  chosen t p es drops = kept t es
  chosen t p es matches = snapped apply_filter set_capture_length t p ∷ kept t es

  abbrev accepted : Trace → Trace
  accepted t = record t {
    accepted_packets = add64 t.accepted_packets 1;
    sequence_number = add64 t.sequence_number 1;
  }

  abbrev returned :
      Trace
      → P
      → ℕ
      → List (Event P)
      → Outcome P × Trace × List (Event P)
      → Verdict
      → Outcome P × Trace × List (Event P)
  returned t p n es rest broken = (failed, t, es)
  returned t p n es rest drops = rest
  returned t p n es rest matches =
      (delivered (snapped apply_filter set_capture_length t p) t.sequence_number n, accepted t, es)

  by_verdict :
      (t : Trace) (p : P) (n : ℕ) (es : List (Event P)) (rest : Outcome P × Trace × List (Event P))
      (v : Verdict)
      → Loops (counted t) (length es) (kept (counted t) es) rest
      → Loops t (suc (length es)) (chosen t p es v) (returned t p n es rest v)
  unfolding advanced
  by_verdict t p n es rest broken l = stops (inr refl) refl (Follows-refl t)
  by_verdict t p n es rest drops l = one_more t es rest l
  by_verdict t p n es rest matches l =
      goes (snapped apply_filter set_capture_length t p) n refl refl
        record {
          ready = λ r. record { no_error = r.no_error; started = r.started; has_read = r.has_read };
          filter = refl;
          snap = refl;
          sequence = refl;
          accepted = refl;
        }
        (omega arith)

  read_loop-Loops :
      (t : Trace) (es : List (Event P))
      → Loops t (length es) (kept t es) (read_loop apply_filter set_capture_length t es)
  unfolding read_loop kept
  read_loop-Loops t [] = stops (inl refl) refl (Follows-refl t)
  read_loop-Loops t (eof ∷ es) = stops (inl refl) refl (Follows-refl t)
  read_loop-Loops t (failure ∷ es) = stops (inr refl) refl (Follows-refl t)
  read_loop-Loops t (packet p n ∷ es) =
      by_verdict t p n es (read_loop apply_filter set_capture_length (counted t) es)
        (verdict apply_filter set_capture_length t p) (read_loop-Loops (counted t) es)

  trace_read_packet-loop :
      (t : Trace) (es : List (Event P))
      → IsReady t
      → trace_read_packet apply_filter set_capture_length true t es
        ≡ read_loop apply_filter set_capture_length t es
  unfolding trace_read_packet
  trace_read_packet-loop t es r = ground (arith, r.no_error, r.started, r.has_read)

  -- What a client gets: the packets with their numbers, and how many were accepted.
  pub record Gets (t : Trace) (k : List P) (out : List (P × ℕ) × Trace) : Type 0 where
    pub packets : out.0 ≡ numbered t.sequence_number k
    pub accepted_packets : out.1.accepted_packets ≡ advanced (length k) t.accepted_packets

  abbrev next_of : List (P × ℕ) × Trace → Trace → Outcome P → List (P × ℕ) × Trace
  next_of more t' out = elim out [
    | delivered p order n ↦ ((p, order) ∷ more.0, more.1)
    | ended ↦ ([], t')
    | failed ↦ ([], t')
  ]

  all : ℕ → Trace → List (Event P) → List (P × ℕ) × Trace
  all calls t es = read_all apply_filter set_capture_length calls t es

  all-step :
      (calls : ℕ) (t : Trace) (es : List (Event P))
      → IsReady t
      → let one = read_loop apply_filter set_capture_length t es in
        all (suc calls) t es ≡ next_of (all calls one.1 one.2) one.1 one.0
  unfolding all read_all
  all-step calls t es r =
      ap (λ (o : Outcome P × Trace × List (Event P)). next_of (all calls o.1 o.2) o.1 o.0)
        (trace_read_packet-loop t es r)

  nothing : (t t' : Trace) (k : List P) → k ≡ [] → Follows 0 t t' → Gets t k ([], t')
  unfolding numbered
  nothing t t' k e f = record {
    packets = ap (numbered t.sequence_number) (sym e);
    accepted_packets = f.accepted ∙ ap (λ ps. advanced (length ps) t.accepted_packets) (sym e);
  }

  something :
      (t t' : Trace) (k : List P) (p : P) (ks : List P) (more : List (P × ℕ) × Trace)
      → k ≡ p ∷ ks
      → Follows 1 t t'
      → Gets t' ks more
      → Gets t k ((p, t.sequence_number) ∷ more.0, more.1)
  unfolding numbered advanced
  something t t' k p ks more e f g = record {
    packets =
        ap (λ l. (p, t.sequence_number) ∷ l) (g.packets ∙ ap (λ n. numbered n ks) f.sequence)
        ∙ ap (numbered t.sequence_number) (sym e);
    accepted_packets =
        g.accepted_packets
        ∙ (ap (advanced (length ks)) f.accepted
            ∙ ap (λ ps. advanced (length ps) t.accepted_packets) (sym e));
  }

  joined :
      (calls m : ℕ) (t : Trace) (k : List P) (one : Outcome P × Trace × List (Event P))
      → Loops t m k one
      → IsReady t
      → m < suc calls
      → ((t' : Trace) (es' : List (Event P))
          → IsReady t'
          → length es' < calls
          → Gets t' (kept t' es') (all calls t' es'))
      → Gets t k (next_of (all calls one.1 one.2) one.1 one.0)
  joined calls m t k one (stops (inl e) z f) r enough ih =
      subst (λ o. Gets t k (next_of (all calls one.1 one.2) one.1 o)) (sym e)
        (nothing t one.1 k z f)
  joined calls m t k one (stops (inr e) z f) r enough ih =
      subst (λ o. Gets t k (next_of (all calls one.1 one.2) one.1 o)) (sym e)
        (nothing t one.1 k z f)
  joined calls m t k one (goes p n e z f l) r enough ih =
      let more = ih one.1 one.2 (f.ready r) (omega arith) in
      subst (λ o. Gets t k (next_of (all calls one.1 one.2) one.1 o)) (sym e)
        (something t one.1 k p (kept t one.2) (all calls one.1 one.2) z f (
          subst (λ ks. Gets one.1 ks (all calls one.1 one.2)) (kept-Follows 1 t one.1 one.2 f)
            more))

  -- In a ready trace, a client that reads until there is no packet gets those packets up to the end or
  -- the first error that the filter lets pass, in order, with consecutive numbers from the trace's
  -- on, and as many are counted as accepted; one call more than there are events is enough.
  pub read_all-Gets :
      (calls : ℕ) (t : Trace) (es : List (Event P))
      → IsReady t
      → length es < calls
      → Gets t (kept t es) (read_all apply_filter set_capture_length calls t es)
  unfolding all
  read_all-Gets zero t es r enough = absurd (omega arith)
  read_all-Gets (suc calls) t es r enough =
      subst (Gets t (kept t es)) (sym (all-step calls t es r)) (
        joined calls (length es) t (kept t es) (read_loop apply_filter set_capture_length t es)
          (read_loop-Loops t es) r enough (read_all-Gets calls))
