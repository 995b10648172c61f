-- ===== src/Spsc.antt =====
-- host/vdif_recorder.c: the SPSC ring of slab indices (`spsc_t`, `spsc_init`, `spsc_push`,
-- `spsc_pop`), each call run to its end. `head` and `tail` are free-running `uint32_t` counters.
mod Tests
pub mod Fifo
pub mod Inv
pub mod Refine
pub mod Calls
pub mod Threads
use bvex_vdif_rfsoc.Base.{ℕ, List, Bool, true, false, Option, none, some, leb, ◌==◌, if◌then◌else◌}
use bvex_vdif_rfsoc.Base.{get_or, set, replicate, add32, sub32, bit_and}

-- `spsc_t`. The indices that go through it are those of slabs, so they are not negative.
pub record Spsc : Type 0 where
  pub head : ℕ
  pub tail : ℕ
  pub cap : ℕ
  pub mask : ℕ
  pub buf : List ℕ

pub spsc_init : ℕ → Spsc
spsc_init cap_pow2 = record {
  head = 0;
  tail = 0;
  cap = cap_pow2;
  mask = sub32 cap_pow2 1;
  buf = replicate cap_pow2 0;
}

unfoldable pub spsc_push : Spsc → ℕ → Spsc × Bool
spsc_push q v =
    let t = q.tail in
    let h = q.head in
    if leb q.cap (sub32 t h)
    then (q, false)
    else (record q { buf = set q.buf (bit_and t q.mask) v; tail = add32 t 1 }, true)

-- The option is what goes through `out`.
pub spsc_pop : Spsc → Spsc × Option ℕ
spsc_pop q =
    let h = q.head in
    let t = q.tail in
    if h == t
    then (q, none)
    else (record q { head = add32 h 1 }, some (get_or q.buf (bit_and h q.mask) 0))
