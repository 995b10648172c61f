-- ===== src/Packet.antt =====
-- host/vdif_recorder.c, `frame_to_vdif`: the check of a packet from the TPACKET ring.
-- `eth` is the memory from the packet's MAC header on (`ppd + tp_mac`), `snap` the bytes captured.
mod Tests
pub mod Valid
use bvex_vdif_rfsoc.Base.{
  ℕ, ◌+◌, ◌*◌, List, Option, none, some, ltb, ◌==◌, ◌||◌, not, if◌then◌else◌,
}
use bvex_vdif_rfsoc.Base.{bit_and, bit_or, ◌<<◌, u32}
use bvex_vdif_rfsoc.Vdif.{vdif_frame_bytes, byte_at, parse_vhdr, Vhdr}

abbrev pub ihl : List ℕ → ℕ
ihl eth = bit_and (byte_at eth 14) 0x0f * 4

abbrev pub udp_at : List ℕ → ℕ
udp_at eth = 14 + ihl eth

abbrev pub dest_port : List ℕ → ℕ
dest_port eth = bit_or (byte_at eth (udp_at eth + 2) << 8) (byte_at eth (udp_at eth + 3))

-- The offset of the VDIF frame from `eth`; `none` is NULL.
pub frame_to_vdif : ℕ → ℕ → List ℕ → Option ℕ
frame_to_vdif dport snap eth =
    let vdif = udp_at eth + 8 in
    if ltb snap (14 + 20 + 8 + vdif_frame_bytes)
    then none
    else if not (byte_at eth 12 == 0x08) || not (byte_at eth 13 == 0x00)
    then none
    else if ltb (ihl eth) 20
    then none
    else if not (byte_at eth (14 + 9) == 17)
    then none
    else if not (dest_port eth == dport)
    then none
    else if ltb snap (u32 (vdif + vdif_frame_bytes))
    then none
    else if not ((parse_vhdr eth vdif).frame_len == vdif_frame_bytes)
    then none
    else some vdif
