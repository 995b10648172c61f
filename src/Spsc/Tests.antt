-- ===== src/Spsc/Tests.antt =====
-- `spsc_t` on concrete rings; the counters are about to wrap.
use bvex_vdif_rfsoc.Base.{◌≡◌, refl, [], ◌∷◌, arith, some}
use bvex_vdif_rfsoc.Spsc.{Spsc, spsc_push, spsc_pop}
use bvex_vdif_rfsoc.Spsc.Fifo.{push, pop}
use bvex_vdif_rfsoc.Spsc.Inv.{IsValid}
use bvex_vdif_rfsoc.Spsc.Refine.{contents, spsc_push_refines, spsc_pop_refines}

abbrev wrapping : Spsc
wrapping = record { head = 0xffff_ffff; tail = 1; cap = 4; mask = 3; buf = 11 ∷ 12 ∷ 13 ∷ 14 ∷ [] }

wrapping-IsValid : IsValid wrapping
wrapping-IsValid = record {
  log = 2;
  small = omega arith;
  cap_pow = refl;
  mask_ones = refl;
  room = refl;
  head_word = omega arith;
  tail_word = omega arith;
  fill = omega arith;
}

contents-wrapping : contents wrapping ≡ 14 ∷ 11 ∷ []
contents-wrapping = refl

push_pop : (spsc_pop (spsc_push wrapping 7).0).1 ≡ some 14
unfolding spsc_push spsc_pop
push_pop = refl

spsc_push_refines_example :
    let (q', done) = spsc_push wrapping 7 in (contents q', done) ≡ push 4 (14 ∷ 11 ∷ []) 7
spsc_push_refines_example = spsc_push_refines 7 wrapping-IsValid

spsc_pop_refines_example :
    let (q', out) = spsc_pop wrapping in (contents q', out) ≡ pop (14 ∷ 11 ∷ [])
spsc_pop_refines_example = spsc_pop_refines wrapping-IsValid
