-- ===== src/Calendar.antt =====
-- host/vdif_recorder.c, `vdif_to_unix`: VDIF time as Unix time. The calendar is that of `timegm`, for
-- the first of a month from 1970 on.
use bvex_vdif_rfsoc.Base.{ℕ, ◌+◌, ◌-◌, ◌*◌, ◌/◌, ◌%◌, Bool, not, ◌&&◌, ◌||◌, ◌==◌, if◌then◌else◌}

abbrev pub is_leap : ℕ → Bool
is_leap year = year % 4 == 0 && not (year % 100 == 0) || year % 400 == 0

-- The days from 1970-01-01 to January 1st of a year.
abbrev pub days_before_year : ℕ → ℕ
days_before_year year =
    365 * (year - 1970) + (year - 1969) / 4 - (year - 1901) / 100 + (year - 1601) / 400

-- `timegm` of midnight on January 1st, or on July 1st.
abbrev pub timegm : ℕ → Bool → ℕ
timegm year july =
    86400 * (days_before_year year + (if july then (if is_leap year then 182 else 181) else 0))

unfoldable pub vdif_to_unix : ℕ → ℕ → ℕ
vdif_to_unix ref_epoch sec = timegm (2000 + ref_epoch / 2) (not (ref_epoch % 2 == 0)) + sec
