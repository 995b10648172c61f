-- ===== src/Backend/Thread/Tests.antt =====
-- `capture_recvmmsg` on a signal, after one answer without messages.
use bvex_vdif_rfsoc.Base.{◌≡◌, refl, [], ◌∷◌, true, false, not, ◌&&◌}
use bvex_vdif_rfsoc.Telemetry.{on_signal}
use bvex_vdif_rfsoc.Capture.{Shared, with_tel, halt_capture, capstate_init, capstate_finish}
use bvex_vdif_rfsoc.Setup.{telemetry_init}
use bvex_vdif_rfsoc.Fixtures.{small, ready_pool}
use bvex_vdif_rfsoc.Backend.Thread.{RecvRound, try_again, returned, capture_recvmmsg}
use bvex_vdif_rfsoc.Backend.Thread.Halts.{capture_recvmmsg-halts}

abbrev idle : Shared
idle = record ready_pool.shared { tel = telemetry_init }

abbrev signalled : RecvRound
signalled = record { meanwhile = with_tel on_signal; answer = try_again }

ends :
    capture_recvmmsg small true true true (signalled ∷ []) [] idle
    ≡ returned false (halt_capture (with_tel on_signal idle))
unfolding capture_recvmmsg capstate_init capstate_finish on_signal
ends = refl

not_bound : capture_recvmmsg small true true false [] [] idle ≡ returned true (halt_capture idle)
unfolding capture_recvmmsg
not_bound = refl

capture_recvmmsg-halts_example :
    (false ≡ (true && not true))
    × ((halt_capture (with_tel on_signal idle)).capture_running ≡ false)
capture_recvmmsg-halts_example =
    capture_recvmmsg-halts small true true true (signalled ∷ []) [] idle ends
