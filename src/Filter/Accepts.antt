-- ===== src/Filter/Accepts.antt =====
-- The filter program against a plain description of the packets that it is for.
use bvex_vdif_rfsoc.Base.{ℕ, ◌+◌, ◌*◌, ◌%◌, ◌^◌, ◌<◌, ◌≡◌, List, Bool, ◌&&◌, arith, ◌==◌}
use bvex_vdif_rfsoc.Base.{if◌then◌else◌, get_or, length, leb}
use bvex_vdif_rfsoc.Base.Bits.{and_mask}
use bvex_vdif_rfsoc.Filter.{filter}

-- The length of the IP header: 4 bytes for each unit of the low half of byte 14.
abbrev pub header_len : List ℕ → ℕ
header_len pkt = get_or pkt 14 0 % 16 * 4

-- IPv4, UDP, not a later fragment, to the port, and long enough to hold the port.
abbrev pub is_stream_packet : ℕ → List ℕ → Bool
is_stream_packet dport pkt =
    leb (14 + header_len pkt + 4) (length pkt)
    && (leb 24 (length pkt)
        && (get_or pkt 12 0 * 256 + get_or pkt 13 0 == 0x0800
            && (get_or pkt 23 0 == 17
                && ((get_or pkt 20 0 * 256 + get_or pkt 21 0) % 2 ^ 13 == 0
                    && get_or pkt (header_len pkt + 16) 0 * 256 + get_or pkt (header_len pkt + 17) 0
                      == dport))))

-- For a port of 16 bits the program passes 262144 bytes of a packet that is IPv4 and UDP, has
-- fragment offset 0, the port as its destination and room for it, and drops every other packet.
pub filter_lem :
    (dport : ℕ) (pkt : List ℕ)
    → dport < 2 ^ 16
    → filter dport pkt ≡ (if is_stream_packet dport pkt then 262144 else 0)
unfolding filter
filter_lem dport pkt port =
    ground
      (arith, and_mask 13 (get_or pkt 20 0 * 256 + get_or pkt 21 0), and_mask 4 (get_or pkt 14 0))
