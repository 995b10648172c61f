-- ===== src/Vdif/Stream.antt =====
-- Positions in the stream of frames, and a run of whole frames at increasing positions.
use bvex_vdif_rfsoc.Base.{ℕ, ◌+◌, ◌*◌, ◌^◌, ◌≤◌, ◌<◌, ◌≡◌, List, [], ◌∷◌, length}
use bvex_vdif_rfsoc.Vdif.{Vhdr, vdif_frame_bytes, frames_per_second, parse_vhdr}

-- The number of a frame in the stream.
abbrev pub position : ℕ → ℕ → ℕ
position sec frame = sec * frames_per_second + frame

-- A header that counts frames within its second, in 30 bits of seconds.
pub record IsTimed (h : Vhdr) : Type 0 where
  pub in_second : h.frame < frames_per_second
  pub sec_field : h.sec < 2 ^ 30

-- A buffer that holds a frame of 8032 bytes.
pub record IsFrame (b : List ℕ) : Type 0 where
  pub good_len : (parse_vhdr b 0).frame_len ≡ vdif_frame_bytes
  pub timed : IsTimed (parse_vhdr b 0)
  pub whole : vdif_frame_bytes ≤ length b

abbrev pub frame_position : List ℕ → ℕ
frame_position b = position (parse_vhdr b 0).sec (parse_vhdr b 0).frame

-- Frames at increasing positions from `lo` on, the next one in order being `hi`.
abbrev pub Stream : ℕ → List (List ℕ) → ℕ → Type 0
Stream lo [] hi = lo ≡ hi
Stream lo (b ∷ bs) hi = IsFrame b × (lo ≤ frame_position b) × Stream (frame_position b + 1) bs hi
