-- ===== src/Packet/Tests.antt =====
-- `frame_to_vdif` on a packet that is too short.
use bvex_vdif_rfsoc.Base.{◌≡◌, ◌↔◌, refl, [], none, some}
use bvex_vdif_rfsoc.Fixtures.{frame_zero}
use bvex_vdif_rfsoc.Packet.{frame_to_vdif}
use bvex_vdif_rfsoc.Packet.Valid.{IsVdifPacket, frame_to_vdif_iff}

too_short : frame_to_vdif 4001 8073 [] ≡ none
unfolding frame_to_vdif
too_short = refl

frame_to_vdif_iff_example :
    (frame_to_vdif 4001 8074 frame_zero ≡ some 42) ↔ IsVdifPacket 4001 8074 frame_zero 42
frame_to_vdif_iff_example = frame_to_vdif_iff 4001 8074 frame_zero 42
