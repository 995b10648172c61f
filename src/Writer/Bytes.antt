-- ===== src/Writer/Bytes.antt =====
-- What the writer saves of the queue, as the log that the capture side keeps.
use mathlib.Core.List.{append_assoc}
use bvex_vdif_rfsoc.Base.{
  ℕ, zero, suc, ◌+◌, ◌*◌, ◌≡◌, refl, ap, ap₂, sym, ◌∙◌, List, [], ◌∷◌, ◌++◌, take, block, block_sum,
  arith,
}
use bvex_vdif_rfsoc.Vdif.{vdif_frame_bytes}
use bvex_vdif_rfsoc.Capture.{Config, slab_bytes, SlabDesc}
use bvex_vdif_rfsoc.Capture.Log.{Entry, frames_at, slab_log, queue_log, desc_of}
use bvex_vdif_rfsoc.Disk.{Output}
use bvex_vdif_rfsoc.Writer.Queue.{bytes_in, drained}

-- The frames of a log, one behind the other.
abbrev pub frame_bytes : List Entry → List ℕ
frame_bytes [] = []
frame_bytes ((file, frame) ∷ es) = frame ++ frame_bytes es

frame_bytes-append :
    (xs ys : List Entry) → frame_bytes (xs ++ ys) ≡ frame_bytes xs ++ frame_bytes ys
frame_bytes-append [] ys = refl
frame_bytes-append ((file, frame) ∷ xs) ys =
    ap (λ t. frame ++ t) (frame_bytes-append xs ys)
    ∙ sym (append_assoc frame (frame_bytes xs) (frame_bytes ys))

frame_bytes-frames_at :
    (file : ℕ) (m : List ℕ) (o n : ℕ)
    → frame_bytes (frames_at file m o n) ≡ block m o (n * vdif_frame_bytes)
frame_bytes-frames_at file m o zero = refl
frame_bytes-frames_at file m o (suc n) =
    ap (λ t. block m o vdif_frame_bytes ++ t)
      (frame_bytes-frames_at file m (o + vdif_frame_bytes) n)
    ∙ sym (block_sum m o vdif_frame_bytes (n * vdif_frame_bytes))
    ∙ ap (λ t. block m o t) (omega arith)

module _ (cfg : Config) (c : Output) (ds : List SlabDesc) (size : ℕ) (m : List ℕ) where
  -- What the writer saves of the queue is what the capture side put there.
  pub drained-queue_log :
      (is : List ℕ) → drained cfg c ds size m is ≡ frame_bytes (queue_log cfg ds m is)
  drained-queue_log [] = refl
  drained-queue_log (i ∷ is) =
      ap₂ ◌++◌
        (sym (
          frame_bytes-frames_at (desc_of ds i).file_id m (i * slab_bytes cfg)
            (desc_of ds i).frames))
        (drained-queue_log is)
      ∙ sym (frame_bytes-append (slab_log cfg ds m i) (queue_log cfg ds m is))

  pub drained-take :
      (k : ℕ) (is : List ℕ)
      → (rest : List ℕ) × (drained cfg c ds size m (take k is) ++ rest ≡ drained cfg c ds size m is)
  drained-take zero is = (drained cfg c ds size m is, refl)
  drained-take (suc k) [] = ([], refl)
  drained-take (suc k) (i ∷ is) =
      let (rest, e) = drained-take k is in
      (
        rest,
        append_assoc (block m (i * slab_bytes cfg) (bytes_in cfg c ds size i)) _ rest
            ∙ ap (λ t. block m (i * slab_bytes cfg) (bytes_in cfg c ds size i) ++ t) e,
      )
