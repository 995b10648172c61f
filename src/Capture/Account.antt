-- ===== src/Capture/Account.antt =====
-- The frame-number accounting of `process_one_frame` against positions in the stream.
use bvex_vdif_rfsoc.Base.{ℕ, ◌+◌, ◌-◌, ◌^◌, ◌<◌, ◌≡◌, true, arith, ltb}
use bvex_vdif_rfsoc.Base.{refl, u64, ◌==◌, if◌then◌else◌}
use bvex_vdif_rfsoc.Vdif.{Vhdr, frames_per_second}
use bvex_vdif_rfsoc.Vdif.Stream.{position, IsTimed}
use bvex_vdif_rfsoc.Telemetry.{Telemetry, add_dup, add_ooo, add_gap}
use bvex_vdif_rfsoc.Capture.{CapState, account, remember}

abbrev pub prev_position : CapState → ℕ
prev_position s = position s.prev_sec s.prev_frame

-- What a frame number `n` says after the frame number `p`.
pub judge : ℕ → ℕ → Telemetry → Telemetry
judge p n t =
    if n == p + 1
    then t
    else if n == p
    then add_dup t
    else if ltb (p + 1) n
    then add_gap (n - (p + 1)) t
    else add_ooo t

pub record PrevTimed (s : CapState) : Type 0 where
  pub in_second : s.prev_frame < frames_per_second
  pub sec_field : s.prev_sec < 2 ^ 30

-- With both frame numbers inside their seconds, the comparisons of seconds and frames in 32-bit
-- arithmetic come to comparing positions in the stream: the next position counts nothing, the same
-- one a duplicate, a later one a gap of the positions between, an earlier one an out-of-order
-- frame.
pub account_refines :
    (s : CapState) (h : Vhdr) (t : Telemetry)
    → s.have_prev ≡ true
    → PrevTimed s
    → IsTimed h
    → account s h t ≡ judge (prev_position s) (position h.sec h.frame) t
unfolding account judge
account_refines s h t have p v = ground arith

-- A frame at or after the expected position.
pub judge_later :
    (p n : ℕ) (t : Telemetry)
    → p < n
    → t.gap_frames < 2 ^ 64
    → ((judge p n t).gap_frames ≡ u64 (t.gap_frames + (n - (p + 1))))
      × ((judge p n t).frames_seen ≡ t.frames_seen)
      × ((judge p n t).dup ≡ t.dup)
      × ((judge p n t).ooo ≡ t.ooo)
      × ((judge p n t).bad_frames ≡ t.bad_frames)
unfolding judge
judge_later p n t lt word = ground arith

pub account_drops :
    (s : CapState) (h : Vhdr) (t : Telemetry) → (account s h t).spsc_drops ≡ t.spsc_drops
unfolding account
account_drops s h t = ground arith

pub account_counts :
    (s : CapState) (h : Vhdr) (t : Telemetry)
    → ((account s h t).bad_frames ≡ t.bad_frames)
      × ((account s h t).frames_seen ≡ t.frames_seen)
      × ((account s h t).spsc_drops ≡ t.spsc_drops)
unfolding account
account_counts s h t = ground arith

-- Frames that arrive out of order by one place, `h1` two positions after the last one and `h2`
-- between them, then `h3` next in order: none is missing, and the accounting has counted two gaps of
-- one frame and one out-of-order frame.
pub account_swap :
    (s : CapState) (h1 h2 h3 : Vhdr) (t : Telemetry)
    → s.have_prev ≡ true
    → PrevTimed s
    → IsTimed h1
    → IsTimed h2
    → IsTimed h3
    → position h1.sec h1.frame ≡ prev_position s + 2
    → position h2.sec h2.frame ≡ prev_position s + 1
    → position h3.sec h3.frame ≡ prev_position s + 3
    → account (remember h2 (remember h1 s)) h3 (account (remember h1 s) h2 (account s h1 t))
      ≡ add_gap 1 (add_ooo (add_gap 1 t))
unfolding judge
account_swap s h1 h2 h3 t have p v1 v2 v3 e1 e2 e3 = ground (
  arith,
  account_refines s h1 t have p v1,
  account_refines (remember h1 s) h2 (account s h1 t) refl (omega arith) v2,
  account_refines (remember h2 (remember h1 s)) h3 (account (remember h1 s) h2 (account s h1 t))
      refl (omega arith) v3,
)
