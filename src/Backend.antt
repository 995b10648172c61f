-- ===== src/Backend.antt =====
-- host/vdif_recorder.c, `capture_recvmmsg`: one batch of datagrams, each cut down to its VDIF frame
-- and handed to `process_one_frame`. Sockets and `recvmmsg` are outside: a batch is the list of
-- lengths and buffers that the call filled in.
mod Tests
pub mod Step
pub mod Stream
pub mod Batch
pub mod Thread
use bvex_vdif_rfsoc.Base.{
  ℕ, ◌+◌, ◌*◌, List, [], ◌∷◌, Bool, Option, none, some, ltb, ◌==◌, ◌||◌, not,
}
use bvex_vdif_rfsoc.Base.{if◌then◌else◌, bit_and, drop}
use bvex_vdif_rfsoc.Vdif.{vdif_frame_bytes, byte_at}
use bvex_vdif_rfsoc.Telemetry.{add_bad}
use bvex_vdif_rfsoc.Capture.{Config, CapState, Shared, Outcome, next, stop, spin, fault, Wait}
use bvex_vdif_rfsoc.Capture.{process_one_frame, with_tel}

-- `msgs[i].msg_len` and `bufs[i]`, with what the waits of its processing would meet.
pub record Message : Type 0 where
  pub len : ℕ
  pub buf : List ℕ
  pub ws_cut : List Wait
  pub ws_full : List Wait

-- `ihl` of an Ethernet frame
abbrev pub ip_header_len : List ℕ → ℕ
ip_header_len eth = bit_and (byte_at eth 14) 0x0f * 4

-- The memory from `vdif` on, or `none` for a bad frame.
pub strip : Bool → ℕ → List ℕ → Option (List ℕ)
strip is_udp len buf =
    if is_udp
    then (if ltb len vdif_frame_bytes then none else some buf)
    else if ltb len (14 + 20 + 8 + vdif_frame_bytes)
    then none
    else if not (byte_at buf 12 == 0x08) || not (byte_at buf 13 == 0x00)
    then none
    else if ltb (ip_header_len buf) 20
    then none
    else some (drop (14 + ip_header_len buf + 8) buf)

-- The loop over the messages that `recvmmsg` returned.
pub recv_batch : Config → Bool → List Message → CapState → Shared → Outcome
unfolding strip
recv_batch cfg is_udp [] s sh = next s sh
recv_batch cfg is_udp (m ∷ ms) s sh = elim (strip is_udp m.len m.buf) [
  | none ↦ recv_batch cfg is_udp ms s (with_tel add_bad sh)
  | some vdif ↦ elim (process_one_frame cfg m.ws_cut m.ws_full s sh vdif) [
    | next s' sh' ↦ recv_batch cfg is_udp ms s' sh'
    | stop s' sh' ↦ stop s' sh'
    | spin ↦ spin
    | fault ↦ fault
  ]
]
