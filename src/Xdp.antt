-- ===== src/Xdp.antt =====
-- host/vdif_recorder.c, `capture_xdp`: the loop over the descriptors of the receive ring, which
-- gathers the fragments of a packet and hands the frame on. `host/xsk_redirect.bpf.c`: the program
-- that sends packets there. The rings, the set-up and the wake-ups are outside.
mod Tests
pub mod Gather
pub mod Thread
use bvex_vdif_rfsoc.Base.{
  ℕ, ◌+◌, ◌*◌, List, [], ◌∷◌, ◌++◌, Bool, true, false, not, ◌&&◌, ◌||◌, Option, none, some,
}
use bvex_vdif_rfsoc.Base.{ltb, leb, ◌==◌, if◌then◌else◌, bit_and, poke, block, drop, add32}
use bvex_vdif_rfsoc.Vdif.{vdif_frame_bytes, byte_at}
use bvex_vdif_rfsoc.Telemetry.{add_bad}
use bvex_vdif_rfsoc.Capture.{Config, CapState, Shared, Outcome, next, stop, spin, fault, Wait}
use bvex_vdif_rfsoc.Capture.{process_one_frame, with_tel}
use bvex_vdif_rfsoc.Backend.{ip_header_len}

-- `struct xdp_desc`, `more` being the flag XDP_PKT_CONTD.
pub record XdpDesc : Type 0 where
  pub addr : ℕ
  pub len : ℕ
  pub more : Bool

-- The loop's variables; `fill` holds the addresses put into the fill ring, in order.
pub record Rx : Type 0 where
  pub st : CapState
  pub shared : Shared
  pub scratch : List ℕ
  pub scl : ℕ
  pub overflow : Bool
  pub stop_now : Bool
  pub fill : List ℕ

-- The state after a descriptor, or a call of `process_one_frame` that does not return.
pub data RxEnd : Type 0 where
  going : Rx → RxEnd
  stuck crashed : RxEnd

-- `sizeof scratch`, and `MINWIRE`
abbrev pub scratch_size : ℕ
scratch_size = 16384

abbrev pub min_wire : ℕ
min_wire = 14 + 20 + 8 + vdif_frame_bytes

-- `addr & ~((uint64_t)(XSK_FRAME_SZ - 1))`
abbrev pub chunk_base : ℕ → ℕ
chunk_base addr = bit_and addr 0xfffffffffffff000

-- The copy of a fragment out of the UMEM, and the return of its chunk.
pub add_fragment : List ℕ → XdpDesc → Rx → Rx
add_fragment umem d rx =
    let copied =
      if leb (add32 rx.scl d.len) scratch_size
      then record rx {
        scratch = poke rx.scratch rx.scl (block umem d.addr d.len);
        scl = add32 rx.scl d.len;
      }
      else record rx { overflow = true } in
    record copied { fill = copied.fill ++ (chunk_base d.addr ∷ []) }

abbrev bad_frame : Rx → Rx
bad_frame rx = record rx { shared = with_tel add_bad rx.shared }

-- `scl = 0; overflow = 0;`
abbrev pub cleared : Rx → Rx
cleared rx = record rx { scl = 0; overflow = false }

-- What the call of `process_one_frame` did.
pub after_frame : Rx → Outcome → RxEnd
after_frame rx (next s sh) = going (cleared (record rx { st = s; shared = sh }))
after_frame rx (stop s sh) = going (cleared (record rx { st = s; shared = sh; stop_now = true }))
after_frame rx spin = stuck
after_frame rx fault = crashed

-- The end of a packet.
pub end_packet : Config → List Wait → List Wait → Rx → RxEnd
unfolding after_frame
end_packet cfg ws_cut ws_full rx =
    let eth = rx.scratch in
    if not rx.stop_now && not rx.overflow && leb min_wire rx.scl
    then (if byte_at eth 12 == 0x08 && byte_at eth 13 == 0x00
        then (if leb 20 (ip_header_len eth)
            then after_frame rx (
                process_one_frame cfg ws_cut ws_full rx.st rx.shared
                  (drop (14 + ip_header_len eth + 8) eth))
            else going (cleared (bad_frame rx)))
        else going (cleared (bad_frame rx)))
    else if not rx.stop_now && (ltb 0 rx.scl || rx.overflow)
    then going (cleared (bad_frame rx))
    else going (cleared rx)

-- The loop over the descriptors of one peek; the lists of waits are those of a packet that ends here.
pub receive : Config → List ℕ → List (XdpDesc × List Wait × List Wait) → Rx → RxEnd
unfolding add_fragment end_packet
receive cfg umem [] rx = going rx
receive cfg umem ((d, ws_cut, ws_full) ∷ ds) rx =
    let rx1 = add_fragment umem d rx in
    elim d.more [
      | true ↦ receive cfg umem ds rx1
      | false ↦ elim (end_packet cfg ws_cut ws_full rx1) [
        | going rx2 ↦ receive cfg umem ds rx2
        | stuck ↦ stuck
        | crashed ↦ crashed
      ]
    ]

-- `enum xdp_action`, as far as the program uses it.
pub data XdpAction : Type 0 where
  redirect : ℕ → XdpAction
  pass : XdpAction

-- `xsk_redirect_prog`. The map of sockets is a function of the queue's index; `bpf_redirect_map`
-- sends the packet to the socket that it finds, and passes it on if there is none.
unfoldable pub xsk_redirect_prog : (ℕ → Option ℕ) → ℕ → XdpAction
xsk_redirect_prog xsks_map rx_queue_index = elim (xsks_map rx_queue_index) [
  | none ↦ pass
  | some fd ↦ redirect fd
]
