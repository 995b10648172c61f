-- ===== src/Backend/Thread.antt =====
-- host/vdif_recorder.c, `capture_recvmmsg` as a whole: the socket, the loop over the batches, the end.
-- What the system calls answer is an argument; the socket options and the filter change nothing here.
mod Tests
pub mod Halts
use bvex_vdif_rfsoc.Base.{List, [], ◌∷◌, Bool, true, false, Option, none, some, if◌then◌else◌}
use bvex_vdif_rfsoc.Capture.{Config, CapState, Shared, Outcome, next, stop, spin, fault}
use bvex_vdif_rfsoc.Capture.{capstate_init, capstate_finish, halt_capture}
use bvex_vdif_rfsoc.Backend.{Message, recv_batch}

-- `recvmmsg`: `EINTR` or `EAGAIN`, another error, or messages.
pub data RecvAnswer : Type 0 where
  try_again failed : RecvAnswer
  messages : List Message → RecvAnswer

-- A round of the loop: what the other threads did meanwhile, and the answer of `recvmmsg`.
pub record RecvRound : Type 0 where
  pub meanwhile : Shared → Shared
  pub answer : RecvAnswer

-- How the loop ends: it is left, not yet, a wait does not end, or a division by zero.
pub data RecvEnd : Type 0 where
  left : CapState → Shared → RecvEnd
  looping hangs faults : RecvEnd

abbrev pub on_batch : Outcome → (CapState → Shared → RecvEnd) → RecvEnd
on_batch (next s sh) again = again s sh
on_batch (stop s sh) again = left s sh
on_batch spin again = hangs
on_batch fault again = faults

abbrev pub on_answer :
    Config → Bool → RecvAnswer → CapState → Shared → (CapState → Shared → RecvEnd) → RecvEnd
on_answer cfg is_udp try_again s sh again = again s sh
on_answer cfg is_udp failed s sh again = left s sh
on_answer cfg is_udp (messages ms) s sh again = on_batch (recv_batch cfg is_udp ms s sh) again

-- `while (!g_stop)`
unfoldable pub recv_loop : Config → Bool → List RecvRound → CapState → Shared → RecvEnd
recv_loop cfg is_udp [] s sh = if sh.tel.stop then left s sh else looping
recv_loop cfg is_udp (r ∷ rs) s sh =
    let again = recv_loop cfg is_udp rs in
    if sh.tel.stop then left s sh else on_answer cfg is_udp r.answer s (r.meanwhile sh) again

-- The thread: it returns, with the socket open or not, or it has not returned.
pub data ThreadEnd : Type 0 where
  returned : Bool → Shared → ThreadEnd
  still_running never : ThreadEnd

abbrev pub on_finish : Option Shared → ThreadEnd
on_finish none = still_running
on_finish (some sh) = returned false sh

abbrev pub on_left : List (Shared → Shared) → RecvEnd → ThreadEnd
on_left ws (left s sh) = on_finish (capstate_finish ws s sh)
on_left ws looping = still_running
on_left ws hangs = still_running
on_left ws faults = never

-- `opened` and `bound` say whether `socket` and `bind` succeed.
unfoldable pub capture_recvmmsg :
    Config → Bool → Bool → Bool → List RecvRound → List (Shared → Shared) → Shared → ThreadEnd
unfolding recv_loop
capture_recvmmsg cfg is_udp opened bound rounds ws sh =
    if opened
    then (if bound
        then on_left ws (recv_loop cfg is_udp rounds capstate_init sh)
        else returned true (halt_capture sh))
    else returned false (halt_capture sh)
