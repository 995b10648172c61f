-- ===== src/Gen/Epoch/Tests.antt =====
-- The first seconds of July 2026.
use bvex_vdif_rfsoc.Base.{ℕ, ◌+◌, ◌≡◌, refl, true, arith}
use bvex_vdif_rfsoc.Vdif.{parse_vhdr}
use bvex_vdif_rfsoc.Calendar.{timegm, vdif_to_unix}
use bvex_vdif_rfsoc.Fixtures.{payload, length-payload}
use bvex_vdif_rfsoc.Gen.{fill_vdif_header}
use bvex_vdif_rfsoc.Gen.Epoch.{Tm, vdif_epoch_now}
use bvex_vdif_rfsoc.Gen.Epoch.Reads.{vdif_to_unix-fill_vdif_header}

abbrev july : Tm
july = record { tm_year = 126; tm_mon = 6 }

abbrev now : ℕ
now = 1782864005

july_first : timegm 2026 true + 5 ≡ now
july_first = refl

taken_apart : vdif_epoch_now now july ≡ (53, 5)
unfolding vdif_epoch_now
taken_apart = refl

vdif_to_unix-fill_vdif_header_example :
    let (ref_epoch, sec) = vdif_epoch_now now july in
    let h = parse_vhdr (fill_vdif_header payload sec 0 ref_epoch 3 0x4242) 0 in
    vdif_to_unix h.ref_epoch h.sec ≡ now
vdif_to_unix-fill_vdif_header_example =
    vdif_to_unix-fill_vdif_header now july payload 0 3 0x4242
      (record {
        from_2000 = omega arith;
        in_year = omega arith;
        before_next = omega arith;
        first_half = λ h. absurd (omega (arith, h));
        second_half = λ h. omega arith;
      })
      (omega arith) (omega (arith, length-payload))
