-- ===== src/Xdp/Tests.antt =====
-- A wire frame of 8074 bytes in two fragments, and the redirect program.
use bvex_vdif_rfsoc.Base.{ℕ, ◌≡◌, refl, [], ◌∷◌, true, false, arith, some, none, replicate}
use bvex_vdif_rfsoc.Base.{length-replicate}
use bvex_vdif_rfsoc.Fixtures.{memory, length-memory, small, running, ready_pool}
use bvex_vdif_rfsoc.Xdp.{XdpDesc, Rx, redirect, pass, xsk_redirect_prog}
use bvex_vdif_rfsoc.Xdp.Gather.{Reassembled, receive-Reassembled}

abbrev head_part : XdpDesc
head_part = record { addr = 8192; len = 4096; more = true }

abbrev tail_part : XdpDesc
tail_part = record { addr = 4096; len = 3978; more = false }

abbrev receiving : Rx
receiving = record {
  st = running;
  shared = ready_pool.shared;
  scratch = replicate 16384 0;
  scl = 0;
  overflow = false;
  stop_now = false;
  fill = [];
}

receive-Reassembled_example : Reassembled small memory (head_part ∷ []) tail_part [] [] receiving
receive-Reassembled_example =
    receive-Reassembled small memory (head_part ∷ []) tail_part [] [] receiving (refl, refl)
      (omega (arith, length-memory)) (length-replicate {A = ℕ} 16384 0) (omega arith)

bound_queue : xsk_redirect_prog (λ q. some 7) 0 ≡ redirect 7
unfolding xsk_redirect_prog
bound_queue = refl

other_queue : xsk_redirect_prog (λ q. none) 3 ≡ pass
unfolding xsk_redirect_prog
other_queue = refl
