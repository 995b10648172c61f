-- ===== src/Xdp/Thread.antt =====
-- host/vdif_recorder.c, `capture_xdp` as a whole: the set-up through libxdp and libbpf, the loop over
-- the peeks, and the tear-down. What the libraries' calls answer is an argument; a call that succeeds
-- takes or releases the resource of its name.
mod Tests
pub mod Releases
use bvex_vdif_rfsoc.Base.{
  ℕ, zero, suc, ◌+◌, ◌*◌, List, [], ◌∷◌, Bool, true, false, not, ◌&&◌, ◌||◌, Option, none, some,
  replicate, if◌then◌else◌,
}
use bvex_vdif_rfsoc.Capture.{Config, Shared, Wait, capstate_init, capstate_finish}
use bvex_vdif_rfsoc.Xdp.{XdpDesc, Rx, RxEnd, going, stuck, crashed, scratch_size, receive}

-- What the thread holds: `umem_area`, `umem`, `bobj`, the attached program, `xsk`.
pub record Resources : Type 0 where
  pub area : Bool
  pub umem : Bool
  pub object : Bool
  pub program : Bool
  pub socket : Bool

abbrev pub nothing : Resources
nothing = record { area = false; umem = false; object = false; program = false; socket = false }

-- Which calls succeed. `attached` is the attach in the mode that `g_xdp_drv` says, `attached_skb` the
-- one in generic mode; `bound` is `xsk_socket__create` with zero copy or without.
pub record XdpCalls : Type 0 where
  pub aligned : Bool
  pub umem_created : Bool
  pub opened : Bool
  pub loaded : Bool
  pub found : Bool
  pub attached : Bool
  pub attached_skb : Bool
  pub bound : Bool → Bool

-- An early return, with what is held then, or a socket that is ready.
pub data SetUp : Type 0 where
  given_up ready : Resources → SetUp

-- `xsk_umem__delete(umem); free(umem_area);`, also with `bpf_object__close(bobj)` in front, and with
-- `bpf_xdp_detach` before that.
abbrev pub drop_umem : Resources → Resources
drop_umem r = record r { umem = false; area = false }

abbrev pub drop_object : Resources → Resources
drop_object r = drop_umem (record r { object = false })

abbrev pub drop_program : Resources → Resources
drop_program r = drop_object (record r { program = false })

-- `for (attempt = 0; attempt < 2; attempt++)`
unfoldable pub bind_socket : XdpCalls → ℕ → Bool → Resources → SetUp
bind_socket k zero want_zc r = ready r
bind_socket k (suc attempts) want_zc r =
    let again = bind_socket k attempts false r in
    if k.bound want_zc
    then ready (record r { socket = true })
    else if want_zc
    then again
    else given_up (drop_program r)

unfoldable pub set_up : XdpCalls → Bool → SetUp
unfolding bind_socket
set_up k zerocopy =
    let area = record nothing { area = true } in
    let umem = record area { umem = true } in
    let object = record umem { object = true } in
    if not k.aligned
    then given_up nothing
    else if not k.umem_created
    then given_up area
    else if not k.opened
    then given_up (drop_umem umem)
    else if not k.loaded
    then given_up (drop_object object)
    else if not k.found
    then given_up (drop_object object)
    else if not (k.attached || k.attached_skb)
    then given_up (drop_object object)
    else bind_socket k 2 zerocopy (record object { program = true })

-- The tear-down behind the loop.
abbrev pub tear_down : Resources → Resources
tear_down r = record r {
  socket = false;
  umem = false;
  program = false;
  object = false;
  area = false;
}

-- A round of the loop: what the other threads did meanwhile, the UMEM and the descriptors of the
-- peek, and for each failed try to reserve fill slots what `g_stop` reads.
pub record PeekRound : Type 0 where
  pub meanwhile : Shared → Shared
  pub umem : List ℕ
  pub descs : List (XdpDesc × List Wait × List Wait)
  pub reserving : List Bool

-- The wait for fill slots; `true` is the `break` when `g_stop` is set.
unfoldable pub reserve : List Bool → Bool
reserve [] = false
reserve (stop_seen ∷ more) = if stop_seen then true else reserve more

-- How the loop ends: it is left, not yet, or a frame is never done with.
pub data LoopEnd : Type 0 where
  left : Rx → LoopEnd
  looping hangs faults : LoopEnd

abbrev pub on_rx : RxEnd → (Rx → LoopEnd) → LoopEnd
on_rx (going rx) next = if rx.stop_now then left rx else next rx
on_rx stuck next = hangs
on_rx crashed next = faults

-- The part of a round behind the peek.
abbrev pub on_peek : Config → PeekRound → Rx → (Rx → LoopEnd) → LoopEnd
on_peek cfg p rx next = elim p.descs [
  | [] ↦ next rx
  | d ∷ ds ↦
      if reserve p.reserving
      then left (record rx { stop_now = true })
      else on_rx (receive cfg p.umem (d ∷ ds) rx) next
]

-- `while (!g_stop)`
unfoldable pub peek_loop : Config → List PeekRound → Rx → LoopEnd
unfolding reserve receive
peek_loop cfg [] rx = if rx.shared.tel.stop then left rx else looping
peek_loop cfg (p ∷ ps) rx =
    let next = peek_loop cfg ps in
    if rx.shared.tel.stop
    then left rx
    else on_peek cfg p (record rx { shared = p.meanwhile rx.shared }) next

-- The first `n` chunks, from `i` on, go into the fill ring.
unfoldable pub prime : ℕ → ℕ → List ℕ
prime zero i = []
prime (suc n) i = i * 4096 ∷ prime n (i + 1)

-- The thread: it returns with what it still holds, or it has not returned.
pub data XdpEnd : Type 0 where
  returned : Resources → Shared → XdpEnd
  still_running never : XdpEnd

abbrev pub on_finish : Option Shared → Resources → XdpEnd
on_finish none r = still_running
on_finish (some sh) r = returned (tear_down r) sh

abbrev pub on_left : List (Shared → Shared) → Resources → LoopEnd → XdpEnd
on_left ws r (left rx) = on_finish (capstate_finish ws rx.st rx.shared) r
on_left ws r looping = still_running
on_left ws r hangs = still_running
on_left ws r faults = never

abbrev pub on_set_up :
    Config → ℕ → List PeekRound → List (Shared → Shared) → Shared → SetUp → XdpEnd
on_set_up cfg reserved rounds ws sh (given_up r) =
    returned r (record sh { capture_running = false })
on_set_up cfg reserved rounds ws sh (ready r) = on_left ws r (
    peek_loop cfg rounds (record {
      st = capstate_init;
      shared = sh;
      scratch = replicate scratch_size 0;
      scl = 0;
      overflow = false;
      stop_now = false;
      fill = prime reserved 0;
    }))

-- `reserved` is what the first reservation in the fill ring gives.
unfoldable pub capture_xdp :
    Config → Bool → XdpCalls → ℕ → List PeekRound → List (Shared → Shared) → Shared → XdpEnd
unfolding set_up peek_loop prime
capture_xdp cfg zerocopy k reserved rounds ws sh =
    on_set_up cfg reserved rounds ws sh (set_up k zerocopy)
