-- ===== src/Spsc/Threads.antt =====
-- `spsc_push` and `spsc_pop` access by access, for a producer and a consumer that run at once. Each
-- load and store of shared memory is one step; the steps of the two threads interleave in any order,
-- and each sees the latest stores, as the acquire loads and release stores make sure.
mod Tests
pub mod Knows
pub mod Produce
pub mod Consume
pub mod Order
use bvex_vdif_rfsoc.Base.{ℕ, List, [], ◌∷◌, ◌++◌, leb, ◌==◌, if◌then◌else◌}
use bvex_vdif_rfsoc.Base.{get_or, set, add32, sub32, bit_and}
use bvex_vdif_rfsoc.Spsc.{Spsc}

-- Where the producer stands in `spsc_push(q, v)`: before it, after the load of `tail`, after that of
-- `head` when there is room, and after the store into `buf`.
pub data Producer : Type 0 where
  between_pushes : Producer
  has_tail has_room has_written : ℕ → ℕ → Producer

-- Where the consumer stands in `spsc_pop(q, out)`: before it, after the load of `head`, after that of
-- `tail` when there is an entry, and after the load from `buf`.
pub data Consumer : Type 0 where
  between_pops : Consumer
  has_head has_entry : ℕ → Consumer
  has_read : ℕ → ℕ → Consumer

pub record Threads : Type 0 where
  pub ring : Spsc
  pub producer : Producer
  pub consumer : Consumer

-- What a step shows to the outside: that a call has returned, and what.
pub data Event : Type 0 where
  silent full empty : Event
  pushed popped : ℕ → Event

-- One step of the producer; `v` is what it pushes if it starts a call.
pub produce : ℕ → Spsc → Producer → Spsc × Producer × Event
produce v q between_pushes = (q, has_tail v q.tail, silent)
produce _ q (has_tail v t) =
    if leb q.cap (sub32 t q.head) then (q, between_pushes, full) else (q, has_room v t, silent)
produce _ q (has_room v t) =
    (record q { buf = set q.buf (bit_and t q.mask) v }, has_written v t, silent)
produce _ q (has_written v t) = (record q { tail = add32 t 1 }, between_pushes, pushed v)

-- One step of the consumer.
pub consume : Spsc → Consumer → Spsc × Consumer × Event
consume q between_pops = (q, has_head q.head, silent)
consume q (has_head h) = if h == q.tail then (q, between_pops, empty) else (q, has_entry h, silent)
consume q (has_entry h) = (q, has_read h (get_or q.buf (bit_and h q.mask) 0), silent)
consume q (has_read h v) = (record q { head = add32 h 1 }, between_pops, popped v)

-- Who makes a step.
pub data Turn : Type 0 where
  by_producer : ℕ → Turn
  by_consumer : Turn

pub take_turn : Turn → Threads → Threads × Event
unfolding produce consume
take_turn (by_producer v) s =
    let (q, p, e) = produce v s.ring s.producer in (record s { ring = q; producer = p }, e)
take_turn by_consumer s =
    let (q, c, e) = consume s.ring s.consumer in (record s { ring = q; consumer = c }, e)

-- A schedule, and the events of its steps.
pub run_turns : List Turn → Threads → Threads × List Event
unfolding take_turn
run_turns [] s = (s, [])
run_turns (t ∷ ts) s = let (s1, e) = take_turn t s in let (s2, es) = run_turns ts s1 in (s2, e ∷ es)

-- What went in and what came out.
abbrev pub pushes : List Event → List ℕ
pushes [] = []
pushes (pushed v ∷ es) = v ∷ pushes es
pushes (silent ∷ es) = pushes es
pushes (full ∷ es) = pushes es
pushes (empty ∷ es) = pushes es
pushes (popped v ∷ es) = pushes es

abbrev pub pops : List Event → List ℕ
pops [] = []
pops (popped v ∷ es) = v ∷ pops es
pops (silent ∷ es) = pops es
pops (full ∷ es) = pops es
pops (empty ∷ es) = pops es
pops (pushed v ∷ es) = pops es
