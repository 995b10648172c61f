-- ===== src/Writer/Slabs.antt =====
-- The conditions of the writer's rounds, for queued slabs that are different ones of the pool.
use bvex_vdif_rfsoc.Base.{
  ℕ, suc, ◌*◌, ◌%◌, ◌≤◌, ◌<◌, ◌≡◌, ◌⊎◌, inl, inr, List, [], ◌∷◌, false, length, arith, ltb,
  if◌then◌else◌,
}
use bvex_vdif_rfsoc.Capture.{Config, slab_bytes, SlabDesc}
use bvex_vdif_rfsoc.Capture.Log.{desc_of, count, mul_step}
use bvex_vdif_rfsoc.Capture.Pool.{IsSized, slab_bytes_lem}
use bvex_vdif_rfsoc.Disk.{Output}
use bvex_vdif_rfsoc.Files.Seal.{exact}
use bvex_vdif_rfsoc.Files.Slab.{write_length-bounds}
use bvex_vdif_rfsoc.Writer.{Writer}
use bvex_vdif_rfsoc.Writer.Queue.{padded_in, Fresh, Tight, Fits, Queued, frames_in, Ready}

module _ (cfg : Config) (c : Output) (ds : List SlabDesc) (size : ℕ) where
  -- A slab that is padded is the last of its file.
  abbrev pub Tights : List ℕ → Type 0
  Tights [] = Unit {0}
  Tights (i ∷ is) = Tight cfg c ds size i is × Tights is

-- The slabs of a list of the pool, each once.
pub record Listed (cfg : Config) (ds : List SlabDesc) (is : List ℕ) : Type 0 where
  pub once : (i : ℕ) → count i is ≤ (if ltb i cfg.nslabs then 1 else 0)
  pub filled : (i : ℕ) → 0 < count i is → (desc_of ds i).frames ≤ cfg.frames_per_slab

module _ (cfg : Config) (c : Output) (sized : IsSized cfg) (whole : cfg.frames_per_slab % 128 ≡ 0)
    (ds : List SlabDesc) (size : ℕ) (memory : size ≡ cfg.nslabs * slab_bytes cfg) where
  Listed-tail : (i : ℕ) (is : List ℕ) → Listed cfg ds (i ∷ is) → Listed cfg ds is
  Listed-tail i is l = record {
    once = λ j. omega (arith, l.once j);
    filled = λ j h. l.filled j (omega (arith, h));
  }

  Fresh-count : (i : ℕ) (is : List ℕ) → count i is ≡ 0 → Fresh cfg c ds size i is
  Fresh-count i [] z = tt
  Fresh-count i (j ∷ js) z = (ground arith, Fresh-count i js (omega (arith, z)))

  count_front : (i : ℕ) (is : List ℕ) → count i (i ∷ is) ≡ suc (count i is)
  count_front i is = ground arith

  Listed-lt : (i : ℕ) (is : List ℕ) → Listed cfg ds (i ∷ is) → i < cfg.nslabs
  Listed-lt i is l = ground (arith, l.once i, count_front i is)

  frames_of-le :
      (i : ℕ) (is : List ℕ) → Listed cfg ds (i ∷ is) → (desc_of ds i).frames ≤ cfg.frames_per_slab
  frames_of-le i is l = l.filled i (omega (arith, count_front i is))

  Fits-front : (i : ℕ) (is : List ℕ) → Listed cfg ds (i ∷ is) → Fits cfg c ds size i
  Fits-front i is l =
      let le = frames_of-le i is l in
      let bounds = write_length-bounds c (desc_of ds i).frames cfg.frames_per_slab le whole in
      let within : padded_in cfg c ds size i ≤ slab_bytes cfg =
        omega (arith, bounds.1, slab_bytes_lem sized) in
      record {
        room =
            omega
              (arith, memory, within, mul_step i cfg.nslabs (slab_bytes cfg) (Listed-lt i is l));
        within = within;
        small = omega (arith, le, sized.fits_int);
      }

  pub Listed-Queued :
      (is : List ℕ) → Listed cfg ds is → Tights cfg c ds size is → Queued cfg c ds size is
  Listed-Queued [] l t = tt
  Listed-Queued (i ∷ is) l t = (
    Fits-front i is l,
    Fresh-count i is (ground (arith, l.once i, count_front i is)),
    t.0,
    Listed-Queued is (Listed-tail i is l) t.1,
  )

  pub frames_in-le :
      (is : List ℕ)
      → Listed cfg ds is
      → frames_in cfg c ds size is ≤ length is * cfg.frames_per_slab
  frames_in-le [] l = omega arith
  frames_in-le (i ∷ is) l = omega (arith, frames_of-le i is l, frames_in-le is (Listed-tail i is l))

pub Ready-any :
    (cfg : Config) (c : Output) (ds : List SlabDesc) (size : ℕ) (w : Writer) (is : List ℕ)
    → (w.have_file ≡ false) ⊎ (length w.store.written ≡ exact w.file)
    → Ready cfg c ds size w is
Ready-any cfg c ds size w [] h = tt
Ready-any cfg c ds size w (i ∷ is) (inl closed) = inl closed
Ready-any cfg c ds size w (i ∷ is) (inr tight) = inr (inr tight)
