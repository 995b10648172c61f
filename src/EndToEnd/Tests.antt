-- ===== src/EndToEnd/Tests.antt =====
-- Two frames with a gap injected before the second.
use bvex_vdif_rfsoc.Base.{◌+◌, ◌-◌, ◌≡◌, [], ◌∷◌, arith, true, u64}
use bvex_vdif_rfsoc.Gen.{fill_batch}
use bvex_vdif_rfsoc.Gen.Sequence.{number}
use bvex_vdif_rfsoc.Backend.{recv_batch}
use bvex_vdif_rfsoc.Backend.Stream.{Received}
use bvex_vdif_rfsoc.Fixtures.{
  small, small-IsSized, running, running-IsReady, running-IsTracking, ready_pool, payload,
  length-payload, stamp, generating, two_messages, two_messages_sent, counters_zero,
}
use bvex_vdif_rfsoc.EndToEnd.{gap_frames-gaps_injected}

gap_frames-gaps_injected_example :
    let g' = (fill_batch 3 stamp generating (payload ∷ payload ∷ [])).1 in
    (r : Received small [] 15488100
      (number g')
      two_messages
      running
      ready_pool.shared
      (recv_batch small true two_messages running ready_pool.shared))
    × (r.shared.tel.gap_frames ≡ u64 (ready_pool.shared.tel.gap_frames + (g'.gaps_injected - 6)))
gap_frames-gaps_injected_example =
    gap_frames-gaps_injected small [] 3 stamp generating (payload ∷ payload ∷ []) two_messages
      running ready_pool.shared small-IsSized (omega arith) (omega (arith, length-payload))
      (omega arith) (omega arith) two_messages_sent (omega arith) running-IsReady running-IsTracking
      counters_zero.0 counters_zero.1 counters_zero.2
