-- ===== src/DataStruct/RingBuffer/Threads/Safety.antt =====
-- The invariant of the two threads: nothing is lost, doubled or reordered, and one can always go on.
use mathlib.Core.Path.{subst}
use mathlib.Core.List.{append_assoc}
use odp_libtrace.Prelude.{
  ◌+◌, ◌<◌, ◌≡◌, refl, sym, ap, ◌∙◌, arith, [], ◌∷◌, ◌++◌, get_or, Ptr, null, Bool-cases, inl, inr,
  true, false,
}
use odp_libtrace.DataStruct.RingBuffer.State.{Ring}
use odp_libtrace.DataStruct.RingBuffer.{nb_full, is_full, is_empty}
use odp_libtrace.DataStruct.RingBuffer.Inv.{IsValid}
use odp_libtrace.DataStruct.RingBuffer.Refine.{contents, is_full_lem, is_empty_lem, nb_full-lt}
use odp_libtrace.DataStruct.RingBuffer.Threads.{
  Writer, Reader, System, Step, check_full, store_value, move_end, check_empty, load_value,
  move_start, Reach, here, next, store, advance_end, advance_start,
}
use odp_libtrace.DataStruct.RingBuffer.Threads.Accesses.{
  store-IsValid, nb_full-store, contents-store, get_or-store_end, get_or-store_start,
  advance_end-IsValid, nb_full-advance_end, contents-advance_end, advance_start-IsValid,
  nb_full-advance_start, contents-advance_start,
}

abbrev pub WriterOk : Ring → Writer → Type 0
WriterOk r Writer.idle = Unit {0}
WriterOk r (Writer.admitted value) = nb_full r + 1 < r.size
WriterOk r (Writer.stored value) = (nb_full r + 1 < r.size) × (get_or r.elements r.end null ≡ value)

abbrev pub ReaderOk : Ring → Reader → Type 0
ReaderOk r Reader.idle = Unit {0}
ReaderOk r Reader.admitted = 0 < nb_full r
ReaderOk r (Reader.loaded value) = (0 < nb_full r) × (get_or r.elements r.start null ≡ value)

-- What holds between any two accesses.
pub record Inv (s : System) : Type 0 where
  pub valid : IsValid s.ring
  pub writing : WriterOk s.ring s.writer
  pub reading : ReaderOk s.ring s.reader
  pub order : s.sent ≡ s.received ++ contents s.ring

-- Neither thread spoils what the other has established.
module _ {r : Ring} (v : IsValid r) where
  ReaderOk-store : (value : Ptr) (p : Reader) → ReaderOk r p → ReaderOk (store r value) p
  ReaderOk-store value Reader.idle h = tt
  ReaderOk-store value Reader.admitted h = rw (nb_full-store v value) h
  ReaderOk-store value (Reader.loaded x) (lt, e) =
      (rw (nb_full-store v value) lt, get_or-store_start v value lt ∙ e)

  room-store :
      (value : Ptr) → nb_full r + 1 < r.size → nb_full (store r value) + 1 < (store r value).size
  unfolding store
  room-store value room = omega (arith, nb_full-store v value)

  ReaderOk-advance_end :
      (p : Reader) → nb_full r + 1 < r.size → ReaderOk r p → ReaderOk (advance_end r) p
  unfolding advance_end
  ReaderOk-advance_end Reader.idle room h = tt
  ReaderOk-advance_end Reader.admitted room h = omega (arith, nb_full-advance_end v room)
  ReaderOk-advance_end (Reader.loaded x) room (lt, e) =
      (omega (arith, nb_full-advance_end v room), e)

  WriterOk-advance_start :
      (p : Writer) → 0 < nb_full r → WriterOk r p → WriterOk (advance_start r) p
  unfolding advance_start
  WriterOk-advance_start Writer.idle some_there h = tt
  WriterOk-advance_start (Writer.admitted x) some_there h =
      omega (arith, nb_full-advance_start v some_there)
  WriterOk-advance_start (Writer.stored x) some_there (lt, e) =
      (omega (arith, nb_full-advance_start v some_there), e)

Step-Inv : {s t : System} → Step s t → Inv s → Inv t
Step-Inv {s} (check_full value e room) h = record {
  valid = h.valid;
  writing = ground (arith, is_full_lem h.valid, nb_full-lt h.valid);
  reading = h.reading;
  order = h.order;
}
Step-Inv {s} (store_value value e) h =
    let room = subst (WriterOk s.ring) e h.writing in
    record {
      valid = store-IsValid h.valid value;
      writing = (room-store h.valid value room, get_or-store_end h.valid value);
      reading = ReaderOk-store h.valid value s.reader h.reading;
      order = h.order ∙ ap (λ l. s.received ++ l) (sym (contents-store h.valid value));
    }
Step-Inv {s} (move_end value e) h =
    let (room, there) = subst (WriterOk s.ring) e h.writing in
    record {
      valid = advance_end-IsValid h.valid;
      writing = tt;
      reading = ReaderOk-advance_end h.valid s.reader room h.reading;
      order =
          ap (λ l. l ++ (value ∷ [])) h.order
          ∙ (append_assoc s.received (contents s.ring) (value ∷ [])
              ∙ ap (λ l. s.received ++ l) (sym (contents-advance_end h.valid room there)));
    }
Step-Inv {s} (check_empty e some_there) h = record {
  valid = h.valid;
  writing = h.writing;
  reading = ground (arith, is_empty_lem h.valid, nb_full-lt h.valid);
  order = h.order;
}
Step-Inv {s} (load_value e) h = record {
  valid = h.valid;
  writing = h.writing;
  reading = (subst (ReaderOk s.ring) e h.reading, refl);
  order = h.order;
}
Step-Inv {s} (move_start value e) h =
    let (lt, there) = subst (ReaderOk s.ring) e h.reading in
    record {
      valid = advance_start-IsValid h.valid;
      writing = WriterOk-advance_start h.valid s.writer lt h.writing;
      reading = tt;
      order =
          h.order
          ∙ (ap (λ l. s.received ++ l)
                (contents-advance_start h.valid lt
                  ∙ ap (λ x. x ∷ contents (advance_start s.ring)) there)
              ∙ sym (append_assoc s.received (value ∷ []) (contents (advance_start s.ring))));
    }

pub Reach-Inv : {s t : System} → Inv s → Reach s t → Inv t
Reach-Inv h here = h
Reach-Inv h (next r step) = Step-Inv step (Reach-Inv h r)

abbrev pub start_on : Ring → System
start_on r = record {
  ring = r;
  writer = Writer.idle;
  reader = Reader.idle;
  sent = [];
  received = [];
}

begin-Inv : {r : Ring} → IsValid r → nb_full r ≡ 0 → Inv (start_on r)
begin-Inv v empty = record { valid = v; writing = tt; reading = tt; order = rw empty }

Inv-Step : {s : System} → Inv s → (t : System) × Step s t
Inv-Step {s} h = go s.writer s.reader refl refl
  where
    go : (w : Writer) (p : Reader) → s.writer ≡ w → s.reader ≡ p → (t : System) × Step s t
    go (Writer.admitted value) p ew ep = (_, store_value value ew)
    go (Writer.stored value) p ew ep = (_, move_end value ew)
    go Writer.idle Reader.admitted ew ep = (_, load_value ep)
    go Writer.idle (Reader.loaded value) ew ep = (_, move_start value ep)
    go Writer.idle Reader.idle ew ep = elim (Bool-cases (is_empty s.ring)) [
      | inl empty ↦ (_, check_full 1 ew (not_full empty))
      | inr some_there ↦ (_, check_empty ep some_there)
    ]
      where
        not_full : is_empty s.ring ≡ true → is_full s.ring ≡ false
        not_full empty = ground (arith, is_empty_lem h.valid, is_full_lem h.valid)

-- From an empty ring, under every interleaving of the two threads' accesses: what was sent is what
-- was received, in the same order, and behind it what the ring holds. So no value is lost, doubled,
-- overwritten or overtaken.
pub fifo :
    {r : Ring} {t : System}
    → IsValid r
    → nb_full r ≡ 0
    → Reach (start_on r) t
    → t.sent ≡ t.received ++ contents t.ring
fifo v empty reach = (Reach-Inv (begin-Inv v empty) reach).order

-- In no state that is reachable from an empty ring are both threads stuck: one of them has a next
-- access.
pub progress :
    {r : Ring} {t : System}
    → IsValid r
    → nb_full r ≡ 0
    → Reach (start_on r) t
    → (u : System) × Step t u
progress v empty reach = Inv-Step (Reach-Inv (begin-Inv v empty) reach)
