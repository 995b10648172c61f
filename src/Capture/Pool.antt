-- ===== src/Capture/Pool.antt =====
-- The slab pool: every slab is in one place, and the rings are larger than the pool, so a hand-over
-- finds room at once and writes to no slab that another thread may read.
use mathlib.Core.List.{append-nil}
use native.Mathlib.Decide.{ℕ_discrete}
use bvex_vdif_rfsoc.Base.{ℕ, ◌+◌, ◌*◌, ◌^◌, ◌≤◌, ◌<◌, ◌≡◌, ap, ap₂, sym, ◌∙◌, List, [], ◌∷◌}
use bvex_vdif_rfsoc.Base.{◌++◌, Bool, Option, none, some, arith, length, length-append, set}
use bvex_vdif_rfsoc.Base.{length-set, get_or-set_self, get_or-set_ne, ltb, if◌then◌else◌}
use bvex_vdif_rfsoc.Vdif.{vdif_frame_bytes}
use bvex_vdif_rfsoc.Telemetry.{Telemetry}
use bvex_vdif_rfsoc.Spsc.{Spsc}
use bvex_vdif_rfsoc.Spsc.Inv.{IsValid}
use bvex_vdif_rfsoc.Spsc.Refine.{contents}
use bvex_vdif_rfsoc.Spsc.Calls.{Pushed, spsc_push-Pushed}
use bvex_vdif_rfsoc.Capture.{
  Config, slab_bytes, SlabDesc, CapState, Shared, Outcome, Wait, push_full, hand_over,
}
use bvex_vdif_rfsoc.Capture.Log.{
  count, count-append, desc_of, no_desc, log, slab_log, queue_log, current_log, queue_log-append,
  queue_log-set,
}

abbrev pub cur_list : Option ℕ → List ℕ
cur_list none = []
cur_list (some i) = i ∷ []

-- How many places hold slab `i`, and how many slabs there are in all places. `hand` is what the
-- writer thread has taken and not yet given back.
abbrev pub owners : List ℕ → CapState → Shared → ℕ → ℕ
owners hand s sh i =
    count i (contents sh.q_free)
    + count i (contents sh.q_full)
    + count i (cur_list s.cur_idx)
    + count i hand

abbrev pub population : List ℕ → CapState → Shared → ℕ
population hand s sh =
    length (contents sh.q_free)
    + length (contents sh.q_full)
    + length (cur_list s.cur_idx)
    + length hand

-- A slab size that `main` accepts and that an `int` holds.
pub record IsSized (cfg : Config) : Type 0 where
  pub some_frames : 0 < cfg.frames_per_slab
  pub fits_int : cfg.frames_per_slab * vdif_frame_bytes < 2 ^ 31

pub record IsPool (cfg : Config) (hand : List ℕ) (s : CapState) (sh : Shared) : Type 0 where
  pub free_valid : IsValid sh.q_free
  pub full_valid : IsValid sh.q_full
  pub free_cap : cfg.nslabs < sh.q_free.cap
  pub full_cap : cfg.nslabs < sh.q_full.cap
  pub one_owner : (i : ℕ) → owners hand s sh i ≤ (if ltb i cfg.nslabs then 1 else 0)
  pub all_there : population hand s sh ≡ cfg.nslabs
  pub descs : length sh.desc ≡ cfg.nslabs
  pub memory : length sh.arena ≡ cfg.nslabs * slab_bytes cfg
  pub fits :
      (i : ℕ)
      → 0 < count i (contents sh.q_full) + count i hand
      → (desc_of sh.desc i).frames ≤ cfg.frames_per_slab
  pub current : (i : ℕ) → s.cur_idx ≡ some i → s.cur ≡ i * slab_bytes cfg
  pub filled : s.cur_frames ≤ cfg.frames_per_slab

pub slab_bytes_lem :
    {cfg : Config} → IsSized cfg → slab_bytes cfg ≡ cfg.frames_per_slab * vdif_frame_bytes
slab_bytes_lem z = omega arith

count_self : (i : ℕ) → count i (i ∷ []) ≡ 1
count_self i = ground arith

push_full-Pushed :
    (ws : List Wait) (s : CapState) (idx : ℕ) (sh : Shared) (k : Shared → Outcome)
    (p : Pushed sh.q_full idx)
    → push_full ws s idx sh k ≡ k (record sh { q_full = p.ring })
unfolding push_full
push_full-Pushed [] s idx sh k p = rw p.returns
push_full-Pushed (w ∷ ws) s idx sh k p = rw p.returns

none≢some : {i : ℕ} → none ≡ some i → ⊥
none≢some e = cc

module _ (cfg : Config) (hand : List ℕ) (s : CapState) (sh : Shared) (idx : ℕ) (eof : Bool) where
  abbrev handed_desc : SlabDesc
  handed_desc = record { frames = s.cur_frames; file_id = s.cur_file_id; eof = eof }

  abbrev pub emptied : CapState
  emptied = record s { cur_idx = none; cur_frames = 0 }

  abbrev pub handed : Spsc → Shared
  handed ring = record sh { desc = set sh.desc idx handed_desc; q_full = ring }

  module _ (pool : IsPool cfg hand s sh) (mine : s.cur_idx ≡ some idx) where
    owned :
        (i : ℕ)
        → count i (contents sh.q_free)
            + count i (contents sh.q_full)
            + count i (idx ∷ [])
            + count i hand
          ≤ (if ltb i cfg.nslabs then 1 else 0)
    owned i = rw mine at (pool.one_owner i)

    there : length (contents sh.q_free) + length (contents sh.q_full) + 1 + length hand ≡ cfg.nslabs
    there = rw mine at pool.all_there

    pub idx-lt : idx < cfg.nslabs
    idx-lt = ground (arith, owned idx, count_self idx)

    pub not_queued : (count idx (contents sh.q_full) ≡ 0) × (count idx hand ≡ 0)
    not_queued = ground (arith, owned idx, count_self idx)

    room : length (contents sh.q_full) < sh.q_full.cap
    room = omega (arith, pool.all_there, pool.full_cap)

    pub pushed : Pushed sh.q_full idx
    pushed = spsc_push-Pushed sh.q_full idx pool.full_valid room

    desc_new : desc_of (set sh.desc idx handed_desc) idx ≡ handed_desc
    desc_new = get_or-set_self sh.desc idx handed_desc no_desc (omega (arith, idx-lt, pool.descs))

    handed-fits :
        (i : ℕ)
        → 0 < count i (contents pushed.ring) + count i hand
        → (desc_of (set sh.desc idx handed_desc) i).frames ≤ cfg.frames_per_slab
    handed-fits i q = elim (ℕ_discrete idx i) [
      | yes e ↦ rw (← e, desc_new) pool.filled
      | no ne ↦ rw (get_or-set_ne sh.desc idx i handed_desc no_desc ne) (
          pool.fits i (
            ground (
              arith,
              q,
              ne,
              ap (count i) pushed.queue,
              count-append i (contents sh.q_full) (idx ∷ []),
            )))
    ]

    pub handed-IsPool : IsPool cfg hand emptied (handed pushed.ring)
    handed-IsPool = record {
      free_valid = pool.free_valid;
      full_valid = pushed.valid;
      free_cap = pool.free_cap;
      full_cap = omega (arith, pushed.same_cap, pool.full_cap);
      one_owner = λ i. omega (
        arith,
        owned i,
        ap (count i) pushed.queue,
        count-append i (contents sh.q_full) (idx ∷ []),
      );
      all_there = omega (
        arith,
        there,
        ap (length {A = ℕ}) pushed.queue,
        length-append (contents sh.q_full) (idx ∷ []),
      );
      descs = length-set sh.desc idx handed_desc ∙ pool.descs;
      memory = pool.memory;
      fits = λ i q. handed-fits i q;
      current = λ i e. absurd (none≢some e);
      filled = omega arith;
    }

    pub log-handed : log cfg emptied (handed pushed.ring) ≡ log cfg s sh
    log-handed =
        append-nil _
        ∙ ap (queue_log cfg (set sh.desc idx handed_desc) sh.arena) pushed.queue
        ∙ queue_log-append cfg (set sh.desc idx handed_desc) sh.arena (contents sh.q_full) idx
        ∙ ap₂ ◌++◌
            (queue_log-set cfg sh.desc sh.arena (contents sh.q_full) idx handed_desc not_queued.0)
            slab_is_current
      where
        slab_is_current :
            slab_log cfg (set sh.desc idx handed_desc) sh.arena idx
            ≡ current_log s.cur_idx s.cur_file_id sh.arena s.cur s.cur_frames
        slab_is_current = rw (desc_new, mine, pool.current idx mine)

    pub hand_over_lem :
        (ws : List Wait) (k : CapState → Shared → Outcome)
        → hand_over ws eof s idx sh k ≡ k emptied (handed pushed.ring)
    unfolding hand_over
    hand_over_lem ws k =
        push_full-Pushed ws s idx (record sh { desc = set sh.desc idx handed_desc })
          (λ sh'. k emptied sh') pushed

-- The invariant reads three fields of the capture state, and nothing of the telemetry.
pub IsPool-retimed :
    {cfg : Config} {hand : List ℕ} {s : CapState} {sh : Shared}
    → IsPool cfg hand s sh
    → (s' : CapState) (t : Telemetry) → s'.cur_idx ≡ s.cur_idx
    → s'.cur ≡ s.cur
    → s'.cur_frames ≡ s.cur_frames
    → IsPool cfg hand s' (record sh { tel = t })
IsPool-retimed pool s' t e1 e2 e3 = record {
  free_valid = pool.free_valid;
  full_valid = pool.full_valid;
  free_cap = pool.free_cap;
  full_cap = pool.full_cap;
  one_owner = λ i. rw e1 (pool.one_owner i);
  all_there = rw e1 pool.all_there;
  descs = pool.descs;
  memory = pool.memory;
  fits = pool.fits;
  current = λ i e. e2 ∙ pool.current i (sym e1 ∙ e);
  filled = rw e3 pool.filled;
}
