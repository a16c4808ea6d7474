-- ===== src/Parallel/Hasher/Routing.antt =====
-- lib/trace_parallel.c, hasher_entry: what stands in the queue of each thread in the end.
use odp_libtrace.Prelude.{
  ℕ, zero, suc, ◌%◌, ◌<◌, ◌≡◌, refl, ap, sym, ◌∙◌, arith, not, ◌&&◌, ◌==◌, if◌then◌else◌, List, [],
  ◌∷◌, ◌++◌, get_or, length, length-set, length-replicate, replicate, ℕ_discrete, get_or-set_self,
  get_or-set_ne,
}
use native.Mathlib.Nat.{mod-lt}
use mathlib.Core.List.{append_assoc, append-nil}
use odp_libtrace.Parallel.{Item, packet, tick}
use odp_libtrace.Parallel.Hasher.{write, write_all, queue_packet, hash_packets, hasher_entry}

module _ {P : Type 0} where
  get_or-write :
      (qs : List (List (Item P))) (t i : ℕ) (x : Item P)
      → t < length qs
      → get_or (write qs t x) i [] ≡ get_or qs i [] ++ (if t == i then x ∷ [] else [])
  get_or-write qs t i x h =
      let v = get_or qs t [] ++ (x ∷ []) in
      elim (ℕ_discrete t i) [
        | yes e ↦ ground (arith, e, get_or-set_self qs t v [] h)
        | no ne ↦
            ground
              (arith, ne, get_or-set_ne qs {i = t} {j = i} v [] ne, append-nil (get_or qs i []))
      ]

  get_or-write_all :
      (qs : List (List (Item P))) (i : ℕ) (x : Item P)
      → i < length qs
      → get_or (write_all qs x) i [] ≡ get_or qs i [] ++ (x ∷ [])
  get_or-write_all [] i x h = absurd (omega arith)
  get_or-write_all (q ∷ qs) zero x h = refl
  get_or-write_all (q ∷ qs) (suc i) x h = get_or-write_all qs i x (omega arith)

  length-write_all : (qs : List (List (Item P))) (x : Item P) → length (write_all qs x) ≡ length qs
  length-write_all [] x = refl
  length-write_all (q ∷ qs) x = ap suc (length-write_all qs x)

module _ {P : Type 0} (order hasher : P → ℕ) (threads tick_count : ℕ) where
  -- What a packet brings to the queue of thread `i`.
  abbrev pub part : ℕ → P → List (Item P)
  part i p =
      (if hasher p % threads == i then packet p ∷ [] else [])
      ++ (if not (tick_count == 0) && order p % tick_count == 0 then tick (order p) ∷ [] else [])

  abbrev pub stream : ℕ → List P → List (Item P)
  stream i [] = []
  stream i (p ∷ ps) = part i p ++ stream i ps

  length-queue_packet :
      (qs : List (List (Item P))) (p : P)
      → length (queue_packet order hasher threads tick_count qs p) ≡ length qs
  unfolding queue_packet
  length-queue_packet qs p =
      let t = hasher p % threads in
      let written = write qs t (packet p) in
      ground (
        arith,
        length-set qs t (get_or qs t [] ++ (packet p ∷ [])),
        length-write_all written (tick (order p)),
      )

  get_or-queue_packet :
      (qs : List (List (Item P))) (p : P) (i : ℕ)
      → length qs ≡ threads
      → i < threads
      → get_or (queue_packet order hasher threads tick_count qs p) i [] ≡ get_or qs i [] ++ part i p
  unfolding queue_packet
  get_or-queue_packet qs p i size h =
      let t = hasher p % threads in
      let pos : 0 < threads = omega arith in
      let small : t < length qs = omega (arith, size, mod-lt (hasher p) pos) in
      let written = write qs t (packet p) in
      let old = get_or qs i [] in
      let mine = if t == i then packet p ∷ [] else [] in
      let room : i < length written =
        omega (arith, size, length-set qs t (get_or qs t [] ++ (packet p ∷ []))) in
      ground (
        arith,
        get_or-write qs t i (packet p) small,
        get_or-write_all written i (tick (order p)) room,
        append_assoc old mine (tick (order p) ∷ []),
        append-nil mine,
      )

  get_or-hash_packets :
      (qs : List (List (Item P))) (ps : List P) (last : Item P) (i : ℕ)
      → length qs ≡ threads
      → i < threads
      → get_or (hash_packets order hasher threads tick_count qs ps last) i []
        ≡ get_or qs i [] ++ (stream i ps ++ (last ∷ []))
  unfolding hash_packets
  get_or-hash_packets qs [] last i size h = get_or-write_all qs i last (omega (arith, size, h))
  get_or-hash_packets qs (p ∷ ps) last i size h =
      let next = queue_packet order hasher threads tick_count qs p in
      get_or-hash_packets next ps last i (length-queue_packet qs p ∙ size) h
      ∙ ap (λ l. l ++ (stream i ps ++ (last ∷ []))) (get_or-queue_packet qs p i size h)
      ∙ append_assoc (get_or qs i []) (part i p) (stream i ps ++ (last ∷ []))
      ∙ ap (λ l. get_or qs i [] ++ l) (sym (append_assoc (part i p) (stream i ps) (last ∷ [])))

  abbrev no_items : List (Item P)
  no_items = []

  get_or-replicate : (n i : ℕ) → get_or (replicate n no_items) i [] ≡ []
  get_or-replicate zero i = refl
  get_or-replicate (suc n) zero = refl
  get_or-replicate (suc n) (suc i) = get_or-replicate n i

  -- The queue of a thread gets its packets, in the order in which they were read, with the ticks where
  -- they come, and behind them the packet of the failed read.
  pub hasher_entry-stream :
      (ps : List P) (last : Item P) (i : ℕ)
      → i < threads
      → get_or (hasher_entry order hasher threads tick_count ps last) i []
        ≡ stream i ps ++ (last ∷ [])
  unfolding hasher_entry
  hasher_entry-stream ps last i h =
      get_or-hash_packets (replicate threads []) ps last i (length-replicate threads []) h
      ∙ ap (λ l. l ++ (stream i ps ++ (last ∷ []))) (get_or-replicate threads i)
