-- ===== src/Ring/Tests.antt =====
-- A block with a packet that is too short.
use bvex_vdif_rfsoc.Base.{ℕ, List, [], ◌∷◌, arith, replicate, length-replicate}
use bvex_vdif_rfsoc.Fixtures.{
  small, small-IsSized, running, running-IsReady, ready_pool, words_zero,
}
use bvex_vdif_rfsoc.Capture.Tally.{Tallied}
use bvex_vdif_rfsoc.Ring.{Captured, walk}
use bvex_vdif_rfsoc.Ring.Walk.{walk-Tallied}

abbrev stray_packets : List Captured
stray_packets = record { snap = 60; eth = replicate 60 0; ws_cut = []; ws_full = [] } ∷ []

walk-Tallied_example :
    Tallied small [] 1 running ready_pool.shared
      (walk small 4001 stray_packets running ready_pool.shared)
walk-Tallied_example =
    walk-Tallied small small-IsSized (omega arith) [] 4001 stray_packets running ready_pool.shared
      (omega (arith, length-replicate {A = ℕ} 60 0), tt) running-IsReady words_zero
