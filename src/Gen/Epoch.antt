-- ===== src/Gen/Epoch.antt =====
-- host/vdif_gen.c, `vdif_epoch_now`: the half-year that a Unix time lies in, and the seconds since its
-- start. `gmtime_r` is outside: its answer is an argument.
mod Tests
pub mod Reads
use bvex_vdif_rfsoc.Base.{ℕ, ◌+◌, ◌-◌, ◌*◌, ◌/◌, ltb, u32, ◌==◌, if◌then◌else◌}
use bvex_vdif_rfsoc.Calendar.{timegm}

-- The fields of `struct tm` that are read: `tm_year` counts from 1900, `tm_mon` from 0.
pub record Tm : Type 0 where
  pub tm_year : ℕ
  pub tm_mon : ℕ

abbrev pub half : Tm → ℕ
half g = if ltb g.tm_mon 6 then 0 else 1

-- The return value, and what is stored in `sec_out`, for a year from 2000 on.
unfoldable pub vdif_epoch_now : ℕ → Tm → ℕ × ℕ
vdif_epoch_now t g =
    let ref_epoch = (g.tm_year + 1900 - 2000) * 2 + half g in
    let base = timegm (2000 + ref_epoch / 2) (half g == 1) in (ref_epoch, u32 (t - base))
