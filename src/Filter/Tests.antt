-- ===== src/Filter/Tests.antt =====
-- The filter on packets cut down to their headers.
use bvex_vdif_rfsoc.Base.{ℕ, ◌≡◌, refl, List, [], ◌∷◌, ◌++◌, arith, replicate, if◌then◌else◌}
use bvex_vdif_rfsoc.Filter.{filter}
use bvex_vdif_rfsoc.Filter.Accepts.{is_stream_packet, filter_lem}

-- Ethernet, IPv4 without options, UDP to port 4001.
abbrev udp_packet : List ℕ
udp_packet =
    replicate 12 1
    ++ (0x08 ∷ 0x00 ∷ 0x45 ∷ 0 ∷ 0 ∷ 200 ∷ 0 ∷ 0 ∷ 0x40 ∷ 0 ∷ 64 ∷ 17 ∷ [])
    ++ replicate 10 2
    ++ (0x0f ∷ 0xa0 ∷ 0x0f ∷ 0xa1 ∷ 0 ∷ 0 ∷ 0 ∷ 0 ∷ [])

passes : filter 4001 udp_packet ≡ 262144
unfolding filter
passes = refl

other_port : filter 4002 udp_packet ≡ 0
unfolding filter
other_port = refl

filter_lem_example :
    filter 4001 udp_packet ≡ (if is_stream_packet 4001 udp_packet then 262144 else 0)
filter_lem_example = filter_lem 4001 udp_packet (omega arith)
