-- ===== src/Xdp/Thread/Releases.antt =====
-- However `capture_xdp` returns, the writer is told, and what the set-up took is released.
use mathlib.Core.Path.{subst}
use bvex_vdif_rfsoc.Base.{
  ℕ, zero, suc, ◌≡◌, refl, sym, List, Bool, true, false, not, ◌&&◌, Option, none, some,
  if◌then◌else◌, arith,
}
use bvex_vdif_rfsoc.Capture.{Config, CapState, Shared, capstate_finish}
use bvex_vdif_rfsoc.Capture.Finish.{capstate_finish-halts}
use bvex_vdif_rfsoc.Xdp.Thread.{
  Resources, XdpCalls, SetUp, given_up, ready, bind_socket, set_up, drop_program, PeekRound,
  LoopEnd, left, looping, hangs, faults, XdpEnd, returned, still_running, never, on_finish, on_left,
  on_set_up, capture_xdp,
}

-- Nothing is held but, where `leaked` says so, the memory of the UMEM.
pub record IsReleased (leaked : Bool) (r : Resources) : Type 0 where
  pub area : r.area ≡ leaked
  pub umem : r.umem ≡ false
  pub object : r.object ≡ false
  pub program : r.program ≡ false
  pub socket : r.socket ≡ false

-- The memory is left when it is there and the UMEM cannot be created.
abbrev pub leaks : XdpCalls → Bool
leaks k = k.aligned && not k.umem_created

-- A failed set-up has released its part; one that is ready did not fail at the UMEM.
Released : XdpCalls → SetUp → Type 0
Released k (given_up r) = IsReleased (leaks k) r
Released k (ready r) = leaks k ≡ false

if-Released :
    (k : XdpCalls) (b : Bool) (x y : SetUp)
    → Released k x
    → Released k y
    → Released k (if b then x else y)
if-Released k true x y p q = p
if-Released k false x y p q = q

bind_socket-Released :
    (k : XdpCalls) (attempts : ℕ) (zc : Bool) (r : Resources)
    → leaks k ≡ false
    → r.socket ≡ false
    → Released k (bind_socket k attempts zc r)
unfolding bind_socket Released
bind_socket-Released k zero zc r e f = e
bind_socket-Released k (suc n) zc r e f =
    let again = bind_socket k n false r in
    let stays : SetUp = if zc then again else given_up (drop_program r) in
    let given : IsReleased (leaks k) (drop_program r) = record {
      area = sym e;
      umem = refl;
      object = refl;
      program = refl;
      socket = f;
    } in
    if-Released k (k.bound zc) (ready (record r { socket = true })) stays e (
      if-Released k zc again (given_up (drop_program r)) (bind_socket-Released k n false r e f)
        given)

set_up-Released : (k : XdpCalls) (zc : Bool) → Released k (set_up k zc)
unfolding set_up Released
set_up-Released k zc = ground (arith, bind_socket-Released k 2 zc)

-- The thread has returned, with the capture marked as ended.
abbrev Ends : XdpCalls → XdpEnd → Type 0
Ends k (returned r sh) = IsReleased (leaks k) r × (sh.capture_running ≡ false)
Ends k still_running = Unit {0}
Ends k never = Unit {0}

on_finish-Ends :
    (k : XdpCalls) (ws : List (Shared → Shared)) (s : CapState) (sh : Shared) (r : Resources)
    (o : Option Shared)
    → leaks k ≡ false
    → capstate_finish ws s sh ≡ o
    → Ends k (on_finish o r)
on_finish-Ends k ws s sh r none e f = tt
on_finish-Ends k ws s sh r (some sh') e f = (
  record { area = sym e; umem = refl; object = refl; program = refl; socket = refl },
  capstate_finish-halts ws s sh f,
)

on_left-Ends :
    (k : XdpCalls) (ws : List (Shared → Shared)) (r : Resources) (l : LoopEnd)
    → leaks k ≡ false
    → Ends k (on_left ws r l)
on_left-Ends k ws r (left rx) e =
    on_finish-Ends k ws rx.st rx.shared r (capstate_finish ws rx.st rx.shared) e refl
on_left-Ends k ws r looping e = tt
on_left-Ends k ws r hangs e = tt
on_left-Ends k ws r faults e = tt

on_set_up-Ends :
    (cfg : Config) (k : XdpCalls) (n : ℕ) (rounds : List PeekRound) (ws : List (Shared → Shared))
    (sh : Shared) (u : SetUp)
    → Released k u
    → Ends k (on_set_up cfg n rounds ws sh u)
unfolding Released
on_set_up-Ends cfg k n rounds ws sh (given_up r) e = (e, refl)
on_set_up-Ends cfg k n rounds ws sh (ready r) e = on_left-Ends k ws r _ e

-- Whichever call of the set-up fails, and however the loop goes, when the AF_XDP capture thread
-- returns the capture is marked as ended, so that the writer can end, and the UMEM, the program's
-- object, its attachment and the socket are released. The memory of the UMEM is released too, except
-- when the UMEM could not be created in it.
pub capture_xdp-Released :
    (cfg : Config) (zerocopy : Bool) (k : XdpCalls) (reserved : ℕ) (rounds : List PeekRound)
    (ws : List (Shared → Shared)) (sh : Shared) {r : Resources} {sh' : Shared}
    → capture_xdp cfg zerocopy k reserved rounds ws sh ≡ returned r sh'
    → IsReleased (leaks k) r × (sh'.capture_running ≡ false)
unfolding capture_xdp
capture_xdp-Released cfg zerocopy k reserved rounds ws sh {r} {sh'} e =
    subst (Ends k) e
      (on_set_up-Ends cfg k reserved rounds ws sh (set_up k zerocopy) (set_up-Released k zerocopy))
