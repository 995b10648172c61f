-- ===== src/Xdp/Thread/Tests.antt =====
-- `capture_xdp` when zero copy is refused and then a signal comes, and without a UMEM.
use bvex_vdif_rfsoc.Base.{◌≡◌, refl, [], ◌∷◌, true, false, not}
use bvex_vdif_rfsoc.Telemetry.{on_signal}
use bvex_vdif_rfsoc.Setup.{telemetry_init}
use bvex_vdif_rfsoc.Capture.{Shared, with_tel, halt_capture, capstate_init, capstate_finish}
use bvex_vdif_rfsoc.Fixtures.{small, ready_pool}
use bvex_vdif_rfsoc.Xdp.Thread.{nothing, XdpCalls, PeekRound, returned, capture_xdp}
use bvex_vdif_rfsoc.Xdp.Thread.Releases.{IsReleased, capture_xdp-Released}

abbrev idle : Shared
idle = record ready_pool.shared { tel = telemetry_init }

abbrev copying : XdpCalls
copying = record {
  aligned = true;
  umem_created = true;
  opened = true;
  loaded = true;
  found = true;
  attached = false;
  attached_skb = true;
  bound = not;
}

abbrev signalled : PeekRound
signalled = record { meanwhile = with_tel on_signal; umem = []; descs = []; reserving = [] }

ends :
    capture_xdp small true copying 16384 (signalled ∷ []) [] idle
    ≡ returned nothing (halt_capture (with_tel on_signal idle))
unfolding capture_xdp capstate_init capstate_finish on_signal
ends = refl

no_umem :
    capture_xdp small true (record copying { umem_created = false }) 16384 [] [] idle
    ≡ returned (record nothing { area = true }) (halt_capture idle)
unfolding capture_xdp
no_umem = refl

capture_xdp-Released_example :
    IsReleased false nothing × ((halt_capture (with_tel on_signal idle)).capture_running ≡ false)
capture_xdp-Released_example =
    capture_xdp-Released small true copying 16384 (signalled ∷ []) [] idle ends
