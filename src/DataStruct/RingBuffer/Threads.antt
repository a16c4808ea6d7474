-- ===== src/DataStruct/RingBuffer/Threads.antt =====
-- One thread in `libtrace_ringbuffer_write` and one in `libtrace_ringbuffer_read`, without locks,
-- interleaved at each access to what they share. Memory is sequentially consistent: the header asks
-- that `start`, `elements` and `end` are accessed in the order written.
pub mod Accesses
pub mod Safety
mod Tests
use odp_libtrace.Prelude.{
  ℕ, suc, ◌+◌, ◌-◌, ◌%◌, ◌<◌, ◌≡◌, refl, sym, ap, ◌∙◌, arith, Bool, true, false, List, [], ◌∷◌,
  ◌++◌, get_or, set, length, length-set, add64, Ptr, null, ◌⊎◌, inl, inr, Bool-cases,
}
use odp_libtrace.Prelude.Circular.{span, span-set_behind}
use odp_libtrace.DataStruct.RingBuffer.State.{Ring}
use odp_libtrace.DataStruct.RingBuffer.{put, take_one, nb_full, is_full, is_empty}
use odp_libtrace.DataStruct.RingBuffer.Inv.{IsValid}
use odp_libtrace.DataStruct.RingBuffer.Refine.{
  contents, is_full_lem, is_empty_lem, nb_full-lt, nb_full-put, nb_full-take_one, contents-take_one,
}

-- Where the writer stands: before a call, past `wait_for_empty`, past `elements[end] = value`.
pub data Writer : Type 0 where
  idle : Writer
  admitted : Ptr → Writer
  stored : Ptr → Writer

-- Where the reader stands: before a call, past `wait_for_full`, past `value = elements[start]`.
pub data Reader : Type 0 where
  idle : Reader
  admitted : Reader
  loaded : Ptr → Reader

-- `sent` and `received` list the values of the calls that are over, in order.
pub record System : Type 0 where
  pub ring : Ring
  pub writer : Writer
  pub reader : Reader
  pub sent : List Ptr
  pub received : List Ptr

pub store : Ring → Ptr → Ring
store r value = record r { elements = set r.elements r.end value }

pub advance_end : Ring → Ring
advance_end r = record r { end = add64 r.end 1 % r.size }

pub advance_start : Ring → Ring
advance_start r = record r { start = add64 r.start 1 % r.size }

-- A writer's access, with whatever value its caller passes, or a reader's.
pub data Step (s : System) : System → Type 0 where
  check_full :
      (value : Ptr)
      → s.writer ≡ Writer.idle
      → is_full s.ring ≡ false
      → Step s (record s { writer = Writer.admitted value })
  store_value :
      (value : Ptr)
      → s.writer ≡ Writer.admitted value
      → Step s (record s { writer = Writer.stored value; ring = store s.ring value })
  move_end :
      (value : Ptr)
      → s.writer ≡ Writer.stored value
      → Step s (record s {
        writer = Writer.idle;
        ring = advance_end s.ring;
        sent = s.sent ++ (value ∷ []);
      })
  check_empty :
      s.reader ≡ Reader.idle
      → is_empty s.ring ≡ false
      → Step s (record s { reader = Reader.admitted })
  load_value :
      s.reader ≡ Reader.admitted
      → Step s (record s { reader = Reader.loaded (get_or s.ring.elements s.ring.start null) })
  move_start :
      (value : Ptr)
      → s.reader ≡ Reader.loaded value
      → Step s (record s {
        reader = Reader.idle;
        ring = advance_start s.ring;
        received = s.received ++ (value ∷ []);
      })

pub data Reach (s : System) : System → Type 0 where
  here : Reach s s
  next : {t u : System} → Reach s t → Step t u → Reach s u
