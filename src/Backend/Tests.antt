-- ===== src/Backend/Tests.antt =====
-- A batch of two datagrams with one frame missing between them.
use bvex_vdif_rfsoc.Base.{
  ◌≡◌, refl, [], arith, true, false, none, some, drop, length, ◌++◌, ◌≤◌, List, ◌∷◌, ℕ, replicate,
  length-replicate,
}
use bvex_vdif_rfsoc.Fixtures.{
  small, small-IsSized, running, running-IsReady, running-IsTracking, ready_pool, two_messages,
  two_messages-Stream, counters_zero, words_zero,
}
use bvex_vdif_rfsoc.Backend.{Message, strip, recv_batch}
use bvex_vdif_rfsoc.Capture.Tally.{Tallied}
use bvex_vdif_rfsoc.Backend.Batch.{recv_batch-Tallied, strip_enough}
use bvex_vdif_rfsoc.Backend.Stream.{Received, recv_batch-Received}

short_datagram : strip true 8031 [] ≡ none
unfolding strip
short_datagram = refl

recv_batch-Received_example :
    Received small [] 15488100 15488103 two_messages running ready_pool.shared
      (recv_batch small true two_messages running ready_pool.shared)
recv_batch-Received_example =
    recv_batch-Received small small-IsSized (omega arith) [] two_messages 15488100 15488103 running
      ready_pool.shared (omega arith) two_messages-Stream running-IsReady running-IsTracking
      counters_zero.0 counters_zero.1 counters_zero.2

-- A datagram that is too short, and one whose header says no length.
abbrev stray_messages : List Message
stray_messages =
    record { len = 100; buf = replicate 9216 0; ws_cut = []; ws_full = [] }
    ∷ record { len = 8032; buf = replicate 9216 0; ws_cut = []; ws_full = [] }
    ∷ []

recv_batch-Tallied_example :
    Tallied small [] 2 running ready_pool.shared
      (recv_batch small true stray_messages running ready_pool.shared)
recv_batch-Tallied_example =
    recv_batch-Tallied small small-IsSized (omega arith) [] true stray_messages running
      ready_pool.shared (length-replicate {A = ℕ} 9216 0, (length-replicate {A = ℕ} 9216 0, tt))
      running-IsReady words_zero

-- A raw packet with an IP header of 60 bytes.
abbrev long_header : List ℕ
long_header = replicate 12 0 ++ (8 ∷ 0 ∷ 79 ∷ replicate 9201 0)

length-long_header : length long_header ≡ 9216
length-long_header = omega (arith, length-replicate {A = ℕ} 9201 0)

long_header_passes : strip false 8074 long_header ≡ some (drop 82 long_header)
unfolding strip
long_header_passes = refl

strip_enough_example : 8032 ≤ length (drop 82 long_header)
strip_enough_example =
    strip_enough false 8074 long_header (drop 82 long_header) length-long_header long_header_passes
