-- ===== src/Packet/Valid.antt =====
-- What `frame_to_vdif` accepts, that it stays inside the packet, and how it agrees with the filter.
use bvex_vdif_rfsoc.Base.{ℕ, ◌+◌, ◌*◌, ◌%◌, ◌≤◌, ◌≡◌, ◌↔◌, List, some, arith}
use bvex_vdif_rfsoc.Base.Bits.{and_mask}
use bvex_vdif_rfsoc.Vdif.{vdif_frame_bytes, byte_at, parse_vhdr}
use bvex_vdif_rfsoc.Packet.{dest_port, frame_to_vdif}

-- IPv4 with a header of at least 20 bytes, UDP to the port, and a whole VDIF frame of the right
-- length field inside the captured bytes, `off` bytes in.
pub record IsVdifPacket (dport snap : ℕ) (eth : List ℕ) (off : ℕ) : Type 0 where
  pub ipv4_high : byte_at eth 12 ≡ 0x08
  pub ipv4_low : byte_at eth 13 ≡ 0x00
  pub ip_header : 5 ≤ byte_at eth 14 % 16
  pub udp : byte_at eth 23 ≡ 17
  pub port : dest_port eth ≡ dport
  pub place : off ≡ 14 + byte_at eth 14 % 16 * 4 + 8
  pub inside : off + vdif_frame_bytes ≤ snap
  pub good_len : (parse_vhdr eth off).frame_len ≡ vdif_frame_bytes

sound :
    (dport snap : ℕ) (eth : List ℕ) (off : ℕ)
    → frame_to_vdif dport snap eth ≡ some off
    → IsVdifPacket dport snap eth off
unfolding frame_to_vdif
sound dport snap eth off e = ground (arith, and_mask 4 (byte_at eth 14))

complete :
    (dport snap : ℕ) (eth : List ℕ) (off : ℕ)
    → IsVdifPacket dport snap eth off
    → frame_to_vdif dport snap eth ≡ some off
unfolding frame_to_vdif
complete dport snap eth off v = ground (arith, and_mask 4 (byte_at eth 14))

-- `frame_to_vdif` gives an offset exactly for a packet that is IPv4 with a header of 20 bytes or
-- more, UDP to the port, and holds a whole VDIF frame with the right length field behind its
-- headers; the offset is that of the frame, and the frame lies inside the captured bytes.
pub frame_to_vdif_iff :
    (dport snap : ℕ) (eth : List ℕ) (off : ℕ)
    → (frame_to_vdif dport snap eth ≡ some off) ↔ IsVdifPacket dport snap eth off
frame_to_vdif_iff dport snap eth off = (sound dport snap eth off, complete dport snap eth off)
