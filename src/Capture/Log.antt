-- ===== src/Capture/Log.antt =====
-- The frames that stand in slabs, in the order in which they came, each with the file that it goes
-- to. The log forgets slabs, queues and addresses.
use mathlib.Core.List.{append-nil, append_assoc}
use native.Mathlib.Decide.{dec_lt}
use bvex_vdif_rfsoc.Base.{◌≢◌, sym}
use bvex_vdif_rfsoc.Base.{ℕ, zero, suc, ◌+◌, ◌*◌, ◌≤◌, ◌<◌, ◌≡◌, refl, ap, ap₂, ◌∙◌, ◌⊎◌, inl, inr}
use bvex_vdif_rfsoc.Base.{List, [], ◌∷◌, ◌++◌, Option, none, some, arith, length, get_or, set}
use bvex_vdif_rfsoc.Base.{poke, block, block-poke_apart, ◌==◌, if◌then◌else◌, false, get_or-set_ne}
use bvex_vdif_rfsoc.Vdif.{vdif_frame_bytes}
use bvex_vdif_rfsoc.Spsc.Refine.{contents}
use bvex_vdif_rfsoc.Capture.{Config, slab_bytes, SlabDesc, CapState, Shared}

-- A frame and the file that it belongs to.
abbrev pub Entry : Type 0
Entry = ℕ × List ℕ

abbrev pub count : ℕ → List ℕ → ℕ
count i [] = 0
count i (x ∷ xs) = (if i == x then 1 else 0) + count i xs

pub count-append : (i : ℕ) (xs ys : List ℕ) → count i (xs ++ ys) ≡ count i xs + count i ys
count-append i [] ys = omega arith
count-append i (x ∷ xs) ys = omega (arith, count-append i xs ys)

-- `n` frames from offset `o` of the arena on, for file `file`.
abbrev pub frames_at : ℕ → List ℕ → ℕ → ℕ → List Entry
frames_at file m o zero = []
frames_at file m o (suc n) =
    (file, block m o vdif_frame_bytes) ∷ frames_at file m (o + vdif_frame_bytes) n

-- The entries are those of the frames in `bs`, in order, but for `n` frames that have none.
abbrev pub Sifted : List (List ℕ) → List Entry → ℕ → Type 0
Sifted [] es n = (es ≡ []) × (n ≡ 0)
Sifted (b ∷ bs) es n =
    ((file : ℕ) × (rest : List Entry) × (es ≡ (file, block b 0 vdif_frame_bytes) ∷ rest)
      × Sifted bs rest n)
    ⊎ (m : ℕ) × (n ≡ suc m) × Sifted bs es m

abbrev pub no_desc : SlabDesc
no_desc = record { frames = 0; file_id = 0; eof = false }

abbrev pub desc_of : List SlabDesc → ℕ → SlabDesc
desc_of ds i = get_or ds i no_desc

module _ (cfg : Config) where
  abbrev pub slab_log : List SlabDesc → List ℕ → ℕ → List Entry
  slab_log ds m i = frames_at (desc_of ds i).file_id m (i * slab_bytes cfg) (desc_of ds i).frames

  abbrev pub queue_log : List SlabDesc → List ℕ → List ℕ → List Entry
  queue_log ds m [] = []
  queue_log ds m (i ∷ is) = slab_log ds m i ++ queue_log ds m is

abbrev pub current_log : Option ℕ → ℕ → List ℕ → ℕ → ℕ → List Entry
current_log none file m o n = []
current_log (some i) file m o n = frames_at file m o n

-- What the capture side holds: the slabs in `q_full`, oldest first, then the current one.
abbrev pub log : Config → CapState → Shared → List Entry
log cfg s sh =
    queue_log cfg sh.desc sh.arena (contents sh.q_full)
    ++ current_log s.cur_idx s.cur_file_id sh.arena s.cur s.cur_frames

pub frames_at-suc :
    (file : ℕ) (m : List ℕ) (o n : ℕ)
    → frames_at file m o (suc n)
      ≡ frames_at file m o n ++ ((file, block m (o + n * vdif_frame_bytes) vdif_frame_bytes) ∷ [])
frames_at-suc file m o zero = ap (λ t. (file, block m t vdif_frame_bytes) ∷ []) (omega arith)
frames_at-suc file m o (suc n) =
    ap (λ t. (file, block m o vdif_frame_bytes) ∷ t)
      (frames_at-suc file m (o + vdif_frame_bytes) n
        ∙ ap
            (λ t.
              frames_at file m (o + vdif_frame_bytes) n
              ++ ((file, block m t vdif_frame_bytes) ∷ []))
            (omega arith))

-- Frames that a write does not meet.
pub frames_at-poke_apart :
    (file : ℕ) (m : List ℕ) (p : ℕ) (bs : List ℕ) (o n : ℕ)
    → (o + n * vdif_frame_bytes ≤ p) ⊎ (p + length bs ≤ o)
    → frames_at file (poke m p bs) o n ≡ frames_at file m o n
frames_at-poke_apart file m p bs o zero h = refl
frames_at-poke_apart file m p bs o (suc n) h =
    ap₂ (λ b t. (file, b) ∷ t) (block-poke_apart m p bs o vdif_frame_bytes (omega arith))
      (frames_at-poke_apart file m p bs (o + vdif_frame_bytes) n (omega arith))

pub mul_step : (i j n : ℕ) → i < j → i * n + n ≤ j * n
mul_step i j n h = grind arith

-- Two slabs do not overlap.
slabs_apart :
    (i j size p len n : ℕ)
    → i ≢ j
    → n ≤ size
    → i * size ≤ p
    → p + len ≤ i * size + size
    → (j * size + n ≤ p) ⊎ (p + len ≤ j * size)
slabs_apart i j size p len n ne fit lo hi = elim (dec_lt i j) [
  | yes h ↦ inr (omega (arith, mul_step i j size h))
  | no h ↦ inl (omega (arith, mul_step j i size (omega arith)))
]

module _ (cfg : Config) where
  pub queue_log-append :
      (ds : List SlabDesc) (m : List ℕ) (is : List ℕ) (i : ℕ)
      → queue_log cfg ds m (is ++ (i ∷ [])) ≡ queue_log cfg ds m is ++ slab_log cfg ds m i
  queue_log-append ds m [] i = append-nil (slab_log cfg ds m i)
  queue_log-append ds m (j ∷ is) i =
      ap (λ t. slab_log cfg ds m j ++ t) (queue_log-append ds m is i)
      ∙ sym (append_assoc (slab_log cfg ds m j) (queue_log cfg ds m is) (slab_log cfg ds m i))

  -- A descriptor of a slab that is not queued.
  pub queue_log-set :
      (ds : List SlabDesc) (m : List ℕ) (is : List ℕ) (i : ℕ) (d : SlabDesc)
      → count i is ≡ 0
      → queue_log cfg (set ds i d) m is ≡ queue_log cfg ds m is
  queue_log-set ds m [] i d h = refl
  queue_log-set ds m (j ∷ is) i d h =
      ap₂ (λ (e : SlabDesc) t. frames_at e.file_id m (j * slab_bytes cfg) e.frames ++ t)
        (get_or-set_ne ds i j d no_desc (ground arith)) (queue_log-set ds m is i d (omega arith))

  -- A write within a slab that is not queued.
  pub queue_log-poke :
      (ds : List SlabDesc) (m : List ℕ) (is : List ℕ) (i p : ℕ) (bs : List ℕ)
      → count i is ≡ 0
      → ((j : ℕ) → 0 < count j is → (desc_of ds j).frames * vdif_frame_bytes ≤ slab_bytes cfg)
      → i * slab_bytes cfg ≤ p
      → p + length bs ≤ i * slab_bytes cfg + slab_bytes cfg
      → queue_log cfg ds (poke m p bs) is ≡ queue_log cfg ds m is
  queue_log-poke ds m [] i p bs h fit lo hi = refl
  queue_log-poke ds m (j ∷ is) i p bs h fit lo hi =
      ap₂ ◌++◌
        (frames_at-poke_apart (desc_of ds j).file_id m p bs (j * slab_bytes cfg)
          (desc_of ds j).frames
          (slabs_apart i j (slab_bytes cfg) p (length bs) ((desc_of ds j).frames * vdif_frame_bytes)
            (ground arith) (fit j (ground arith)) lo hi))
        (queue_log-poke ds m is i p bs (omega arith) (λ k q. fit k (omega arith)) lo hi)
