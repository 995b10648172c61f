-- ===== src/Gen/Epoch/Reads.antt =====
-- The recorder reads back the time that the generator took.
use mathlib.Core.Path.{subst}
use bvex_vdif_rfsoc.Base.{
  ℕ, ◌+◌, ◌-◌, ◌*◌, ◌/◌, ◌%◌, ◌^◌, ◌<◌, ◌≤◌, ◌≡◌, ap, ap₂, sym, ◌∙◌, List, arith, length, ltb, ◌==◌,
  u32, not, true, false, Bool-cases, inl, inr, if-true, if-false, ltb→lt, ltb-false→le,
}
use bvex_vdif_rfsoc.Vdif.{Vhdr, parse_vhdr}
use bvex_vdif_rfsoc.Calendar.{timegm, vdif_to_unix}
use bvex_vdif_rfsoc.Gen.{fill_vdif_header}
use bvex_vdif_rfsoc.Gen.RoundTrip.{parse_vhdr-fill_vdif_header}
use bvex_vdif_rfsoc.Gen.Epoch.{Tm, vdif_epoch_now}

-- What `gmtime_r` answers for a time from 2000 on: the year that the time lies in, and a month of its
-- first or second half.
pub record IsGmtime (t : ℕ) (g : Tm) : Type 0 where
  pub from_2000 : 100 ≤ g.tm_year
  pub in_year : timegm (g.tm_year + 1900) false ≤ t
  pub before_next : t < timegm (g.tm_year + 1901) false
  pub first_half : g.tm_mon < 6 → t < timegm (g.tm_year + 1900) true
  pub second_half : 6 ≤ g.tm_mon → timegm (g.tm_year + 1900) true ≤ t

-- A year is 365 days or 366, its first half 181 or 182.
year_bounds :
    (y : ℕ)
    → 2000 ≤ y
    → (timegm y false + 181 * 86400 ≤ timegm y true)
      × (timegm y true ≤ timegm y false + 182 * 86400)
      × (timegm (y + 1) false ≤ timegm y false + 366 * 86400)
year_bounds y h = (ground arith, ground arith, omega arith)

below32 : (t b : ℕ) → t < b + 2 ^ 30 → u32 (t - b) ≡ t - b
below32 t b h = omega arith

back : (t b : ℕ) → b ≤ t → b + (t - b) ≡ t
back t b h = omega arith

short : (t b : ℕ) → t < b + 2 ^ 30 → t - b < 2 ^ 30
short t b h = omega arith

reads_half :
    (y h t : ℕ)
    → 2000 ≤ y
    → h < 2
    → timegm y (h == 1) ≤ t
    → t < timegm y (h == 1) + 2 ^ 30
    → let ref_epoch = (y - 2000) * 2 + h in
      let sec = u32 (t - timegm (2000 + ref_epoch / 2) (h == 1)) in
      (vdif_to_unix ref_epoch sec ≡ t) × (sec < 2 ^ 30)
unfolding vdif_to_unix
reads_half y h t late two from before =
    let ref_epoch = (y - 2000) * 2 + h in
    let year : 2000 + ref_epoch / 2 ≡ y = omega arith in
    let odd : not (ref_epoch % 2 == 0) ≡ (h == 1) = ground arith in
    let base : timegm (2000 + ref_epoch / 2) (h == 1) ≡ timegm y (h == 1) =
      ap (λ (x : ℕ). timegm x (h == 1)) year in
    let read : timegm (2000 + ref_epoch / 2) (not (ref_epoch % 2 == 0)) ≡ timegm y (h == 1) =
      ap₂ timegm year odd in
    let sec : u32 (t - timegm (2000 + ref_epoch / 2) (h == 1)) ≡ t - timegm y (h == 1) =
      ap (λ (x : ℕ). u32 (t - x)) base ∙ below32 t (timegm y (h == 1)) before in
    (
      ap₂ ◌+◌ read sec ∙ back t (timegm y (h == 1)) from,
      subst (λ (x : ℕ). x < 2 ^ 30) (sym sec) (short t (timegm y (h == 1)) before),
    )

epoch_bound : (t : ℕ) (g : Tm) → g.tm_year < 132 → (vdif_epoch_now t g).0 < 2 ^ 6
unfolding vdif_epoch_now
epoch_bound t g early = ground arith

-- A time that the generator takes apart is the time that the recorder puts together again.
pub vdif_to_unix-vdif_epoch_now :
    (t : ℕ) (g : Tm)
    → IsGmtime t g
    → let (ref_epoch, sec) = vdif_epoch_now t g in (vdif_to_unix ref_epoch sec ≡ t) × (sec < 2 ^ 30)
unfolding vdif_epoch_now
vdif_to_unix-vdif_epoch_now t g i =
    let b = year_bounds (g.tm_year + 1900) (omega (arith, i.from_2000)) in
    let y = g.tm_year + 1900 in
    let Reads : ℕ → Type 0 = λ h.
      let ref_epoch = (y - 2000) * 2 + h in
      let sec = u32 (t - timegm (2000 + ref_epoch / 2) (h == 1)) in
      (vdif_to_unix ref_epoch sec ≡ t) × (sec < 2 ^ 30) in
    elim (Bool-cases (ltb g.tm_mon 6)) [
      | inl e ↦ subst Reads (sym (if-true (ltb g.tm_mon 6) 0 1 e)) (
          reads_half y 0 t (omega (arith, i.from_2000)) (omega arith) i.in_year
            (omega (arith, b.1, i.first_half (ltb→lt g.tm_mon 6 e))))
      | inr e ↦ subst Reads (sym (if-false (ltb g.tm_mon 6) 0 1 e)) (
          reads_half y 1 t (omega (arith, i.from_2000)) (omega arith)
            (i.second_half (ltb-false→le g.tm_mon 6 e)) (omega (arith, b.0, b.2, i.before_next)))
    ]

-- Up to the year 2031, a frame that the generator stamps at a time reads back, in the recorder, as a
-- frame of that time: `vdif_to_unix` of the parsed epoch and second is the time that
-- `vdif_epoch_now` took apart.
pub vdif_to_unix-fill_vdif_header :
    (t : ℕ) (g : Tm) (v : List ℕ) (frame thread station : ℕ)
    → IsGmtime t g
    → g.tm_year < 132
    → 32 ≤ length v
    → let (ref_epoch, sec) = vdif_epoch_now t g in
      let h = parse_vhdr (fill_vdif_header v sec frame ref_epoch thread station) 0 in
      vdif_to_unix h.ref_epoch h.sec ≡ t
vdif_to_unix-fill_vdif_header t g v frame thread station i early room =
    let (e, sec) = vdif_epoch_now t g in
    let r = vdif_to_unix-vdif_epoch_now t g i in
    let p = parse_vhdr-fill_vdif_header v sec frame e thread station room in
    ap₂ vdif_to_unix (ap (λ (h : Vhdr). h.ref_epoch) p ∙ omega (arith, epoch_bound t g early))
      (ap (λ (h : Vhdr). h.sec) p ∙ omega (arith, r.1))
    ∙ r.0
