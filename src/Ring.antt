-- ===== src/Ring.antt =====
-- host/vdif_recorder.c, `capture_ring`: the walk over the blocks of the TPACKET ring. The ring's
-- memory is outside: a block is the list of its packets, in the order of `tp_next_offset`.
mod Tests
pub mod Walk
pub mod Thread
use bvex_vdif_rfsoc.Base.{ℕ, ◌+◌, ◌%◌, List, [], ◌∷◌, Bool, none, some, not, if◌then◌else◌}
use bvex_vdif_rfsoc.Base.{add32, add64, drop}
use bvex_vdif_rfsoc.Telemetry.{Telemetry, add_bad}
use bvex_vdif_rfsoc.Capture.{Config, CapState, Shared, Outcome, next, stop, spin, fault, Wait}
use bvex_vdif_rfsoc.Capture.{process_one_frame, with_tel}
use bvex_vdif_rfsoc.Packet.{frame_to_vdif}

-- `tp_snaplen`, and the memory from the packet's MAC header on, with what the waits of its
-- processing would meet.
pub record Captured : Type 0 where
  pub snap : ℕ
  pub eth : List ℕ
  pub ws_cut : List Wait
  pub ws_full : List Wait

-- TP_STATUS_USER and TP_STATUS_LOSING, and the packets.
pub record RingBlock : Type 0 where
  pub user : Bool
  pub losing : Bool
  pub packets : List Captured

abbrev pub add_losing : Telemetry → Telemetry
add_losing t = record t { ring_losing = add64 t.ring_losing 1 }

-- The loop over the packets of a block.
pub walk : Config → ℕ → List Captured → CapState → Shared → Outcome
walk cfg dport [] s sh = next s sh
walk cfg dport (p ∷ ps) s sh = elim (frame_to_vdif dport p.snap p.eth) [
  | none ↦ walk cfg dport ps s (with_tel add_bad sh)
  | some off ↦ elim (process_one_frame cfg p.ws_cut p.ws_full s sh (drop off p.eth)) [
    | next s' sh' ↦ walk cfg dport ps s' sh'
    | stop s' sh' ↦ stop s' sh'
    | spin ↦ spin
    | fault ↦ fault
  ]
]

-- A round of the loop over the blocks: it polls, it gives the block back to the kernel and goes on
-- to the block of that index, it leaves the loop, or a packet is never done.
pub data BlockEnd : Type 0 where
  polls : BlockEnd
  released : CapState → Shared → ℕ → BlockEnd
  leaves : CapState → Shared → BlockEnd
  stuck crashed : BlockEnd

pub ring_block : Config → ℕ → ℕ → RingBlock → ℕ → CapState → Shared → BlockEnd
unfolding walk
ring_block cfg dport nblocks b bi s sh =
    let sh1 = if b.losing then with_tel add_losing sh else sh in
    if b.user
    then elim (walk cfg dport b.packets s sh1) [
      | next s' sh' ↦ released s' sh' (add32 bi 1 % nblocks)
      | stop s' sh' ↦ leaves s' sh'
      | spin ↦ stuck
      | fault ↦ crashed
    ]
    else polls
