-- ===== src/Capture/Pack.antt =====
-- Packing a frame: the copy into the current slab, the hand-over of a full one, a slab from the pool.
use mathlib.Core.List.{append_assoc}
use bvex_vdif_rfsoc.Base.{ℕ, suc, ◌+◌, ◌*◌, ◌≤◌, ◌<◌, ◌≡◌, refl, ap, ap₂, sym, ◌∙◌, List, [], ◌∷◌}
use bvex_vdif_rfsoc.Base.{◌++◌, false, Option, none, some, arith, length, ltb, ◌==◌, inl, inr, ◌⊎◌}
use bvex_vdif_rfsoc.Base.{if◌then◌else◌, Bool-cases, add32, poke, length-poke, block, length-block}
use bvex_vdif_rfsoc.Base.{block-poke_self}
use bvex_vdif_rfsoc.Vdif.{vdif_frame_bytes}
use bvex_vdif_rfsoc.Telemetry.{Telemetry, add_spsc_drop}
use bvex_vdif_rfsoc.Spsc.{Spsc, spsc_pop}
use bvex_vdif_rfsoc.Spsc.Refine.{contents}
use bvex_vdif_rfsoc.Spsc.Calls.{Popped, PoppedNone, spsc_pop-cases}
use bvex_vdif_rfsoc.Capture.{
  Config, slab_bytes, CapState, Shared, Outcome, next, Wait, store_frame, take_slab, pack_frame,
}
use bvex_vdif_rfsoc.Capture.Log.{
  Entry, count, log, queue_log, current_log, frames_at, frames_at-suc, frames_at-poke_apart,
  queue_log-poke,
}
use bvex_vdif_rfsoc.Capture.Pool.{
  IsSized, IsPool, slab_bytes_lem, emptied, handed, pushed, handed-IsPool, log-handed,
  hand_over_lem, idx-lt, not_queued,
}

-- The fields that packing leaves alone.
abbrev pub SameTiming : CapState → CapState → Type 0
SameTiming a b =
    (b.started ≡ a.started)
    × (b.have_prev ≡ a.have_prev)
    × (b.prev_sec ≡ a.prev_sec)
    × (b.prev_frame ≡ a.prev_frame)
    × (b.cur_file_id ≡ a.cur_file_id)
    × (b.file_start_sec ≡ a.file_start_sec)

-- The call returned 0, kept the pool in order, and left this log and this telemetry.
pub record Keeps (cfg : Config) (hand : List ℕ) (base : CapState) (entries : List Entry)
    (tel : Telemetry) (o : Outcome) : Type 0 where
  pub after : CapState
  pub shared : Shared
  pub returns : o ≡ next after shared
  pub pool : IsPool cfg hand after shared
  pub room : after.cur_frames < cfg.frames_per_slab
  pub logged : log cfg after shared ≡ entries
  pub counted : shared.tel ≡ tel
  pub timing : SameTiming base after

slab_in : (i n size : ℕ) → i < n → i * size + size ≤ n * size
slab_in i n size h = grind arith

frame_in : (c n size : ℕ) → c < n → c * size + size ≤ n * size
frame_in = slab_in

module _ (cfg : Config) (sized : IsSized cfg) (hand : List ℕ) (s : CapState) (sh : Shared) (idx : ℕ)
    (vdif : List ℕ) where
  abbrev frame : List ℕ
  frame = block vdif 0 vdif_frame_bytes

  abbrev offset : ℕ
  offset = s.cur + s.cur_frames * vdif_frame_bytes

  abbrev grown : CapState
  grown = record s { cur_frames = add32 s.cur_frames 1 }

  abbrev copied : Shared
  copied = record sh { arena = poke sh.arena offset frame }

  module _ (pool : IsPool cfg hand s sh) (mine : s.cur_idx ≡ some idx)
      (room : s.cur_frames < cfg.frames_per_slab) (whole : vdif_frame_bytes ≤ length vdif) where
    frame_len : length frame ≡ 8032
    frame_len = length-block vdif 0 vdif_frame_bytes whole

    -- The copy stays inside slab `idx`.
    inside :
        (idx * slab_bytes cfg ≤ offset)
        × (offset + length frame ≤ idx * slab_bytes cfg + slab_bytes cfg)
    inside = omega (
      arith,
      pool.current idx mine,
      slab_bytes_lem sized,
      frame_len,
      frame_in s.cur_frames cfg.frames_per_slab vdif_frame_bytes room,
    )

    in_arena : offset + length frame ≤ length sh.arena
    in_arena = omega (
      arith,
      inside,
      pool.memory,
      slab_in idx cfg.nslabs (slab_bytes cfg) (idx-lt cfg hand s sh idx false pool mine),
    )

    one_more : add32 s.cur_frames 1 ≡ suc s.cur_frames
    one_more = omega (arith, sized.fits_int)

    copied-IsPool : IsPool cfg hand grown copied
    copied-IsPool = record {
      free_valid = pool.free_valid;
      full_valid = pool.full_valid;
      free_cap = pool.free_cap;
      full_cap = pool.full_cap;
      one_owner = pool.one_owner;
      all_there = pool.all_there;
      descs = pool.descs;
      memory = length-poke sh.arena offset frame ∙ pool.memory;
      fits = pool.fits;
      current = pool.current;
      filled = rw one_more room;
    }

    current-copied :
        frames_at s.cur_file_id (poke sh.arena offset frame) s.cur (suc s.cur_frames)
        ≡ frames_at s.cur_file_id sh.arena s.cur s.cur_frames ++ ((s.cur_file_id, frame) ∷ [])
    current-copied =
        frames_at-suc s.cur_file_id (poke sh.arena offset frame) s.cur s.cur_frames
        ∙ ap₂ (λ xs b. xs ++ ((s.cur_file_id, b) ∷ []))
            (frames_at-poke_apart s.cur_file_id sh.arena offset frame s.cur s.cur_frames
              (inl (omega arith)))
            (ap (block (poke sh.arena offset frame) offset) (sym frame_len)
              ∙ block-poke_self sh.arena offset frame in_arena)

    current-grown :
        current_log s.cur_idx s.cur_file_id
          (poke sh.arena offset frame)
          s.cur
          (add32 s.cur_frames 1)
        ≡ current_log s.cur_idx s.cur_file_id sh.arena s.cur s.cur_frames
          ++ ((s.cur_file_id, frame) ∷ [])
    current-grown = rw (mine, one_more) current-copied

    log-copied : log cfg grown copied ≡ log cfg s sh ++ ((s.cur_file_id, frame) ∷ [])
    log-copied =
        ap₂ ◌++◌
          (queue_log-poke cfg sh.desc sh.arena (contents sh.q_full) idx offset frame
            (not_queued cfg hand s sh idx false pool mine).0
            (λ j q. omega (arith, pool.fits j (omega arith), slab_bytes_lem sized)) inside.0
            inside.1)
          current-grown
        ∙ sym (
            append_assoc (queue_log cfg sh.desc sh.arena (contents sh.q_full))
              (current_log s.cur_idx s.cur_file_id sh.arena s.cur s.cur_frames)
              ((s.cur_file_id, frame) ∷ []))

    pub store_frame-Keeps :
        (ws : List Wait)
        → Keeps cfg hand s
            (log cfg s sh ++ ((s.cur_file_id, block vdif 0 vdif_frame_bytes) ∷ []))
            sh.tel
            (store_frame cfg ws vdif s idx sh)
    unfolding store_frame
    store_frame-Keeps ws = elim (Bool-cases (add32 s.cur_frames 1 == cfg.frames_per_slab)) [
      | inl e ↦ record {
        after = emptied cfg hand grown copied idx false;
        shared =
            handed cfg hand grown copied idx false
              (pushed cfg hand grown copied idx false copied-IsPool mine).ring;
        returns = rw e (hand_over_lem cfg hand grown copied idx false copied-IsPool mine ws next);
        pool = handed-IsPool cfg hand grown copied idx false copied-IsPool mine;
        room = sized.some_frames;
        logged = log-handed cfg hand grown copied idx false copied-IsPool mine ∙ log-copied;
        counted = refl;
        timing = (refl, refl, refl, refl, refl, refl);
      }
      | inr e ↦ record {
        after = grown;
        shared = copied;
        returns = rw e;
        pool = copied-IsPool;
        room = ground (arith, room, one_more, e);
        logged = log-copied;
        counted = refl;
        timing = (refl, refl, refl, refl, refl, refl);
      }
    ]

-- A slab taken from the pool becomes the current one.
module _ (cfg : Config) (hand : List ℕ) (s : CapState) (sh : Shared) (x : ℕ) where
  abbrev with_slab : CapState
  with_slab = record s { cur_idx = some x; cur = x * slab_bytes cfg; cur_frames = 0 }

  abbrev without : Spsc → Shared
  without ring = record sh { q_free = ring }

  taken-IsPool :
      IsPool cfg hand s sh
      → s.cur_idx ≡ none
      → (p : Popped sh.q_free x) → IsPool cfg hand with_slab (without p.ring)
  taken-IsPool pool empty p = record {
    free_valid = p.valid;
    full_valid = pool.full_valid;
    free_cap = omega (arith, p.same_cap, pool.free_cap);
    full_cap = pool.full_cap;
    one_owner = λ i. omega (arith, unowned i, ap (count i) p.queue);
    all_there = omega (arith, there, ap (length {A = ℕ}) p.queue);
    descs = pool.descs;
    memory = pool.memory;
    fits = pool.fits;
    current = λ i e. ap (λ (t : ℕ). t * slab_bytes cfg) (let same : x ≡ i = cc in same);
    filled = omega arith;
  }
    where
      unowned :
          (i : ℕ)
          → count i (contents sh.q_free) + count i (contents sh.q_full) + 0 + count i hand
            ≤ (if ltb i cfg.nslabs then 1 else 0)
      unowned i = rw empty at (pool.one_owner i)

      there :
          length (contents sh.q_free) + length (contents sh.q_full) + 0 + length hand ≡ cfg.nslabs
      there = rw empty at pool.all_there

-- What packing did: the frame stands at the end of the log, or it was dropped because no slab is
-- free.
abbrev pub Packed : Config → List ℕ → CapState → Shared → List ℕ → Outcome → Type 0
Packed cfg hand s sh vdif o =
    Keeps cfg hand s (log cfg s sh ++ ((s.cur_file_id, block vdif 0 vdif_frame_bytes) ∷ [])) sh.tel
      o
    ⊎ ((contents sh.q_free ≡ []) × Keeps cfg hand s (log cfg s sh) (add_spsc_drop sh.tel) o)

module _ (cfg : Config) (ws : List Wait) (vdif : List ℕ) (s : CapState) (sh : Shared) where
  pack_frame-some :
      (i : ℕ) → s.cur_idx ≡ some i → pack_frame cfg ws vdif s sh ≡ store_frame cfg ws vdif s i sh
  unfolding pack_frame
  pack_frame-some i e = rw e

  pack_frame-none :
      s.cur_idx ≡ none
      → pack_frame cfg ws vdif s sh ≡ take_slab cfg ws vdif s sh (spsc_pop sh.q_free)
  unfolding pack_frame
  pack_frame-none e = rw e

Option-cases : (o : Option ℕ) → (o ≡ none) ⊎ ((i : ℕ) × (o ≡ some i))
Option-cases none = inl refl
Option-cases (some i) = inr (i, refl)

module _ (cfg : Config) (sized : IsSized cfg) (hand : List ℕ) (s : CapState) (sh : Shared)
    (vdif : List ℕ) (pool : IsPool cfg hand s sh) (room : s.cur_frames < cfg.frames_per_slab)
    (whole : vdif_frame_bytes ≤ length vdif) (ws : List Wait) where
  dropped-IsPool :
      (p : PoppedNone sh.q_free) (t : Telemetry)
      → IsPool cfg hand s (record sh { q_free = p.ring; tel = t })
  dropped-IsPool p t = record {
    free_valid = p.valid;
    full_valid = pool.full_valid;
    free_cap = omega (arith, p.same_cap, pool.free_cap);
    full_cap = pool.full_cap;
    one_owner = λ i. omega (arith, pool.one_owner i, ap (count i) p.before, ap (count i) p.queue);
    all_there =
        omega (arith, pool.all_there, ap (length {A = ℕ}) p.before, ap (length {A = ℕ}) p.queue);
    descs = pool.descs;
    memory = pool.memory;
    fits = pool.fits;
    current = pool.current;
    filled = pool.filled;
  }

  log-with_slab :
      (x : ℕ) (ring : Spsc)
      → s.cur_idx ≡ none
      → log cfg (with_slab cfg hand s sh x) (without cfg hand s sh x ring) ≡ log cfg s sh
  log-with_slab x ring empty =
      ap
        (λ o.
          queue_log cfg sh.desc sh.arena (contents sh.q_full)
          ++ current_log o s.cur_file_id sh.arena s.cur s.cur_frames)
        (sym empty)

  pack_taken :
      s.cur_idx ≡ none
      → PoppedNone sh.q_free ⊎ ((x : ℕ) × Popped sh.q_free x)
      → Packed cfg hand s sh vdif (take_slab cfg ws vdif s sh (spsc_pop sh.q_free))
  unfolding take_slab
  pack_taken empty (inl p) = inr (
    p.before,
    rw p.returns (record {
      after = s;
      shared = record sh { q_free = p.ring; tel = add_spsc_drop sh.tel };
      returns = refl;
      pool = dropped-IsPool p (add_spsc_drop sh.tel);
      room = room;
      logged = refl;
      counted = refl;
      timing = (refl, refl, refl, refl, refl, refl);
    }),
  )
  pack_taken empty (inr (x, p)) = inl (
      rw p.returns (record {
        after = stored.after;
        shared = stored.shared;
        returns = stored.returns;
        pool = stored.pool;
        room = stored.room;
        logged =
            stored.logged
            ∙ ap (λ t. t ++ ((s.cur_file_id, block vdif 0 vdif_frame_bytes) ∷ []))
                (log-with_slab x p.ring empty);
        counted = stored.counted;
        timing = stored.timing;
      }))
    where
      stored :
          Keeps cfg hand
            (with_slab cfg hand s sh x)
            (log cfg (with_slab cfg hand s sh x) (without cfg hand s sh x p.ring)
              ++ ((s.cur_file_id, block vdif 0 vdif_frame_bytes) ∷ []))
            sh.tel
            (store_frame cfg ws vdif (with_slab cfg hand s sh x) x (without cfg hand s sh x p.ring))
      stored =
          store_frame-Keeps cfg sized hand (with_slab cfg hand s sh x)
            (without cfg hand s sh x p.ring) x vdif (taken-IsPool cfg hand s sh x pool empty p) refl
            sized.some_frames whole ws

  -- Packing returns 0 without waiting, keeps the pool in order, and either adds the frame at the
  -- end of the log or counts it as dropped.
  pub pack_frame-Packed : Packed cfg hand s sh vdif (pack_frame cfg ws vdif s sh)
  pack_frame-Packed = elim (Option-cases s.cur_idx) [
    | inl e ↦
        rw (pack_frame-none cfg ws vdif s sh e)
          (pack_taken e (spsc_pop-cases sh.q_free pool.free_valid))
    | inr (i, e) ↦ inl (
        rw (pack_frame-some cfg ws vdif s sh i e)
          (store_frame-Keeps cfg sized hand s sh i vdif pool e room whole ws))
  ]
