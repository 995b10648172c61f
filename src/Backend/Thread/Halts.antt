-- ===== src/Backend/Thread/Halts.antt =====
-- However `capture_recvmmsg` returns, the writer is told.
use mathlib.Core.Path.{subst}
use bvex_vdif_rfsoc.Base.{◌≡◌, refl, List, Bool, true, false, not, ◌&&◌, Option, none, some}
use bvex_vdif_rfsoc.Capture.{Config, CapState, Shared, capstate_init, capstate_finish}
use bvex_vdif_rfsoc.Capture.Finish.{capstate_finish-halts}
use bvex_vdif_rfsoc.Backend.Thread.{
  RecvRound, RecvEnd, left, looping, hangs, faults, recv_loop, ThreadEnd, returned, still_running,
  never, on_finish, on_left, capture_recvmmsg,
}

-- A thread that has returned has marked the capture as ended, and holds its socket as `held` says.
abbrev Ends : Bool → ThreadEnd → Type 0
Ends held (returned o sh) = (o ≡ held) × (sh.capture_running ≡ false)
Ends held still_running = Unit {0}
Ends held never = Unit {0}

on_finish-Ends :
    (ws : List (Shared → Shared)) (s : CapState) (sh : Shared) (o : Option Shared)
    → capstate_finish ws s sh ≡ o
    → Ends false (on_finish o)
on_finish-Ends ws s sh none e = tt
on_finish-Ends ws s sh (some sh') e = (refl, capstate_finish-halts ws s sh e)

on_left-Ends : (ws : List (Shared → Shared)) (l : RecvEnd) → Ends false (on_left ws l)
on_left-Ends ws (left s sh) = on_finish-Ends ws s sh (capstate_finish ws s sh) refl
on_left-Ends ws looping = tt
on_left-Ends ws hangs = tt
on_left-Ends ws faults = tt

by_calls :
    (cfg : Config) (is_udp opened bound : Bool) (rounds : List RecvRound)
    (ws : List (Shared → Shared)) (sh : Shared)
    → Ends (opened && not bound) (capture_recvmmsg cfg is_udp opened bound rounds ws sh)
unfolding capture_recvmmsg
by_calls cfg is_udp false bound rounds ws sh = (refl, refl)
by_calls cfg is_udp true false rounds ws sh = (refl, refl)
by_calls cfg is_udp true true rounds ws sh =
    on_left-Ends ws (recv_loop cfg is_udp rounds capstate_init sh)

-- Whichever of `socket`, `bind` and `recvmmsg` fails, and however the loop goes, when the capture
-- thread of the modes udp and raw returns the capture is marked as ended, so that the writer can end;
-- the socket is closed, except when it could not be bound.
pub capture_recvmmsg-halts :
    (cfg : Config) (is_udp opened bound : Bool) (rounds : List RecvRound)
    (ws : List (Shared → Shared)) (sh : Shared) {held : Bool} {sh' : Shared}
    → capture_recvmmsg cfg is_udp opened bound rounds ws sh ≡ returned held sh'
    → (held ≡ (opened && not bound)) × (sh'.capture_running ≡ false)
capture_recvmmsg-halts cfg is_udp opened bound rounds ws sh e =
    subst (Ends (opened && not bound)) e (by_calls cfg is_udp opened bound rounds ws sh)
