-- ===== src/Ring/Thread.antt =====
-- host/vdif_recorder.c, `ring_setup` and `capture_ring` as a whole. What the system calls answer is an
-- argument.
use bvex_vdif_rfsoc.Base.{
  ℕ, ◌*◌, ◌/◌, List, [], ◌∷◌, Bool, ◌&&◌, Option, none, some, u32, u64, if◌then◌else◌,
}
use bvex_vdif_rfsoc.Capture.{Config, CapState, Shared, capstate_init, capstate_finish}
use bvex_vdif_rfsoc.Ring.{RingBlock, BlockEnd, polls, released, leaves, stuck, crashed, ring_block}

-- Which calls of `ring_setup` succeed.
pub record RingCalls : Type 0 where
  pub opened : Bool
  pub version_set : Bool
  pub ring_made : Bool
  pub mapped : Bool
  pub found : Bool
  pub bound : Bool

-- `tp_block_size`, `tp_block_nr`, `tp_frame_nr` and `map_len`, in the widths of the code.
pub record RingSizes : Type 0 where
  pub block_size : ℕ
  pub nblocks : ℕ
  pub frame_nr : ℕ
  pub map_len : ℕ

abbrev pub ring_sizes : ℕ → ℕ → RingSizes
ring_sizes block_mb nblocks =
    let size = u32 (u32 (block_mb * 1024) * 1024) in
    record {
      block_size = size;
      nblocks = nblocks;
      frame_nr = u32 (size / 16384 * nblocks);
      map_len = u64 (size * nblocks);
    }

-- `none` is the return of -1, on which `main` returns 1.
unfoldable pub ring_setup : RingCalls → ℕ → ℕ → Option RingSizes
ring_setup k block_mb nblocks =
    if k.opened && k.version_set && k.ring_made && k.mapped && k.found && k.bound
    then some (ring_sizes block_mb nblocks)
    else none

-- A round of the loop: what the other threads did meanwhile, and the block that is looked at.
pub record RingRound : Type 0 where
  pub meanwhile : Shared → Shared
  pub block : RingBlock

pub data RingEnd : Type 0 where
  left : CapState → Shared → RingEnd
  looping hangs faults : RingEnd

abbrev pub on_block : BlockEnd → ℕ → CapState → Shared → (ℕ → CapState → Shared → RingEnd) → RingEnd
on_block polls bi s sh again = again bi s sh
on_block (released s' sh' bi') bi s sh again = again bi' s' sh'
on_block (leaves s' sh') bi s sh again = left s' sh'
on_block stuck bi s sh again = hangs
on_block crashed bi s sh again = faults

-- `while (!g_stop)`
unfoldable pub ring_loop : Config → ℕ → ℕ → List RingRound → ℕ → CapState → Shared → RingEnd
ring_loop cfg dport nblocks [] bi s sh = if sh.tel.stop then left s sh else looping
ring_loop cfg dport nblocks (r ∷ rs) bi s sh =
    let again = ring_loop cfg dport nblocks rs in
    let sh1 = r.meanwhile sh in
    if sh.tel.stop
    then left s sh
    else on_block (ring_block cfg dport nblocks r.block bi s sh1) bi s sh1 again

abbrev pub after_loop : List (Shared → Shared) → RingEnd → Option Shared
after_loop ws (left s sh) = capstate_finish ws s sh
after_loop ws looping = none
after_loop ws hangs = none
after_loop ws faults = none

-- The thread; `none` is one that has not returned.
unfoldable pub capture_ring :
    Config → ℕ → ℕ → List RingRound → List (Shared → Shared) → Shared → Option Shared
unfolding ring_loop
capture_ring cfg dport nblocks rounds ws sh =
    after_loop ws (ring_loop cfg dport nblocks rounds 0 capstate_init sh)
