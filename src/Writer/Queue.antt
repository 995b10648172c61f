-- ===== src/Writer/Queue.antt =====
-- The slabs that wait in `q_full`, and the rounds of the writer that take them.
use native.Mathlib.Decide.{dec_lt}
use bvex_vdif_rfsoc.Base.{
  ℕ, zero, suc, ◌+◌, ◌*◌, ◌^◌, ◌≤◌, ◌<◌, ◌≡◌, ◌≢◌, refl, ap₂, ◌⊎◌, inl, inr, List, [], ◌∷◌, ◌++◌,
  false, take, length, block, arith,
}
use bvex_vdif_rfsoc.Vdif.{vdif_frame_bytes}
use bvex_vdif_rfsoc.Telemetry.{Telemetry}
use bvex_vdif_rfsoc.Capture.{Config, slab_bytes, SlabDesc, Shared}
use bvex_vdif_rfsoc.Capture.Log.{desc_of, mul_step}
use bvex_vdif_rfsoc.Disk.{Output}
use bvex_vdif_rfsoc.Files.{write_length}
use bvex_vdif_rfsoc.Files.Seal.{exact}
use bvex_vdif_rfsoc.Files.Slab.{write_length_lem}
use bvex_vdif_rfsoc.Writer.{Writer, Round}
use bvex_vdif_rfsoc.Writer.Kept.{Kept}
use bvex_vdif_rfsoc.Writer.Refine.{Answers}

slabs_disjoint : (i j n a b : ℕ) → i ≢ j → a ≤ n → b ≤ n → (j * n + a ≤ i * n) ⊎ (i * n + b ≤ j * n)
slabs_disjoint i j n a b ne ha hb = elim (dec_lt i j) [
  | yes h ↦ inr (omega (arith, mul_step i j n h))
  | no h ↦ inl (omega (arith, mul_step j i n (omega arith)))
]

-- The slabs in the queue, by their descriptors, in an arena of `size` bytes.
module _ (cfg : Config) (c : Output) (ds : List SlabDesc) (size : ℕ) where
  abbrev pub bytes_in : ℕ → ℕ
  bytes_in i = (desc_of ds i).frames * vdif_frame_bytes

  abbrev pub padded_in : ℕ → ℕ
  padded_in i = write_length c (bytes_in i)

  -- The index is none of those behind it.
  abbrev pub Fresh : ℕ → List ℕ → Type 0
  Fresh i [] = Unit {0}
  Fresh i (j ∷ js) = (i ≢ j) × Fresh i js

  -- The next slab goes to another file, or this one is written without padding.
  abbrev pub Tight : ℕ → List ℕ → Type 0
  Tight i [] = Unit {0}
  Tight i (j ∷ js) = ((desc_of ds i).file_id ≢ (desc_of ds j).file_id) ⊎ (padded_in i ≡ bytes_in i)

  pub record Fits (i : ℕ) : Type 0 where
    pub room : i * slab_bytes cfg + padded_in i ≤ size
    pub within : padded_in i ≤ slab_bytes cfg
    pub small : (desc_of ds i).frames < 2 ^ 64

  abbrev pub Queued : List ℕ → Type 0
  Queued [] = Unit {0}
  Queued (i ∷ is) = Fits i × Fresh i is × Tight i is × Queued is

  abbrev pub frames_in : List ℕ → ℕ
  frames_in [] = 0
  frames_in (i ∷ is) = (desc_of ds i).frames + frames_in is

  -- The bytes of the frames in the slabs.
  abbrev pub drained : List ℕ → List ℕ → List ℕ
  drained m [] = []
  drained m (i ∷ is) = block m (i * slab_bytes cfg) (bytes_in i) ++ drained m is

  -- A round on slab `i` leaves the others.
  pub drained-Kept :
      (i : ℕ) (is : List ℕ) (sh sh' : Shared)
      → Kept (i * slab_bytes cfg) (padded_in i) sh sh'
      → padded_in i ≤ slab_bytes cfg
      → Fresh i is
      → Queued is
      → drained sh'.arena is ≡ drained sh.arena is
  drained-Kept i [] sh sh' k fits f q = refl
  drained-Kept i (j ∷ js) sh sh' k fits f q =
      ap₂ ◌++◌
        (k.blocks (j * slab_bytes cfg) (bytes_in j) (
          slabs_disjoint i j (slab_bytes cfg) (bytes_in j) (padded_in i) f.0
            (omega (arith, q.0.within, write_length_lem c (bytes_in j))) fits))
        (drained-Kept i js sh sh' k fits f.1 q.3)

  pub drained-take-Kept :
      (i k : ℕ) (is : List ℕ) (sh sh' : Shared)
      → Kept (i * slab_bytes cfg) (padded_in i) sh sh'
      → padded_in i ≤ slab_bytes cfg
      → Fresh i is
      → Queued is
      → drained sh'.arena (take k is) ≡ drained sh.arena (take k is)
  drained-take-Kept i zero is sh sh' k fits f q = refl
  drained-take-Kept i (suc n) [] sh sh' k fits f q = refl
  drained-take-Kept i (suc n) (j ∷ js) sh sh' k fits f q =
      ap₂ ◌++◌
        (k.blocks (j * slab_bytes cfg) (bytes_in j) (
          slabs_disjoint i j (slab_bytes cfg) (bytes_in j) (padded_in i) f.0
            (omega (arith, q.0.within, write_length_lem c (bytes_in j))) fits))
        (drained-take-Kept i n js sh sh' k fits f.1 q.3)

  -- The file at the front, for the next slab.
  abbrev pub Ready : Writer → List ℕ → Type 0
  Ready w [] = Unit {0}
  Ready w (i ∷ is) =
      (w.have_file ≡ false)
      ⊎ ((w.cur_tag ≢ (desc_of ds i).file_id) ⊎ (length w.store.written ≡ exact w.file))

  -- What other threads do to the shared state: the telemetry changes, at most.
  abbrev pub IsQuiet : (Shared → Shared) → Type 0
  IsQuiet f = (sh : Shared) → (t : Telemetry) × (f sh ≡ record sh { tel = t })

  -- A round for each slab, with calls that answer as `Answers` says, and one for the empty queue.
  abbrev pub Rounds : List Round → List ℕ → Type 0
  Rounds [] is = ⊥
  Rounds (r ∷ rs) [] = IsQuiet r.meanwhile × IsQuiet r.before_load
  Rounds (r ∷ rs) (i ∷ is) =
      IsQuiet r.meanwhile × Answers c r.calls (desc_of ds i).frames × Rounds rs is
