-- ===== src/Capture/Finish.antt =====
-- `capstate_finish`: the slab that is being filled goes to the writer, or back to the pool.
use mathlib.Core.Option
use mathlib.Core.List.{append-nil}
use bvex_vdif_rfsoc.Base.{◌*◌, ◌≤◌, ◌<◌, length, if◌then◌else◌}
use bvex_vdif_rfsoc.Base.{ℕ, ◌≡◌, refl, ap, sym, ◌∙◌, ◌⊎◌, inl, inr, List, [], ◌∷◌, ◌++◌}
use bvex_vdif_rfsoc.Base.{true, false, Bool-cases, Option, none, some, arith, ltb, set}
use bvex_vdif_rfsoc.Spsc.{Spsc, spsc_push}
use bvex_vdif_rfsoc.Spsc.Inv.{IsValid}
use bvex_vdif_rfsoc.Spsc.Refine.{contents}
use bvex_vdif_rfsoc.Spsc.Calls.{Pushed}
use bvex_vdif_rfsoc.Capture.{
  Config, slab_bytes, CapState, Shared, SlabDesc, push_sleeping, halt_capture, capstate_finish,
}
use bvex_vdif_rfsoc.Capture.Log.{log, queue_log, current_log, count, desc_of}
use bvex_vdif_rfsoc.Capture.Pool.{IsPool, handed, handed-IsPool, pushed, log-handed}

push_sleeping-Pushed :
    (ws : List (Shared → Shared)) (idx : ℕ) (sh : Shared) (p : Pushed sh.q_full idx)
    → push_sleeping ws idx sh ≡ some (record sh { q_full = p.ring })
unfolding push_sleeping
push_sleeping-Pushed [] idx sh p = rw p.returns
push_sleeping-Pushed (w ∷ ws) idx sh p = rw p.returns

-- What the writer needs of the queue: its slabs are different, there, and not overfull.
pub record IsQueue (cfg : Config) (sh : Shared) : Type 0 where
  pub valid : IsValid sh.q_full
  pub once : (i : ℕ) → count i (contents sh.q_full) ≤ (if ltb i cfg.nslabs then 1 else 0)
  pub few : length (contents sh.q_full) ≤ cfg.nslabs
  pub memory : length sh.arena ≡ cfg.nslabs * slab_bytes cfg
  pub filled :
      (i : ℕ) → 0 < count i (contents sh.q_full) → (desc_of sh.desc i).frames ≤ cfg.frames_per_slab

-- Whatever the queue of free slabs is, and whether or not the capture runs.
stopped-IsQueue :
    {cfg : Config} {hand : List ℕ} {s : CapState} {sh : Shared}
    → IsPool cfg hand s sh
    → (free : Spsc) → IsQueue cfg (record sh { q_free = free; capture_running = false })
stopped-IsQueue pool free = record {
  valid = pool.full_valid;
  once = λ i. omega (arith, pool.one_owner i);
  few = omega (arith, pool.all_there);
  memory = pool.memory;
  filled = λ i h. pool.fits i (omega (arith, h));
}

-- The capture has ended.
pub record Finished (cfg : Config) (ws : List (Shared → Shared)) (s : CapState) (sh : Shared)
    : Type 0 where
  pub shared : Shared
  pub returns : capstate_finish ws s sh ≡ some shared
  pub halted : shared.capture_running ≡ false
  pub same_tel : shared.tel ≡ sh.tel
  pub queued : queue_log cfg shared.desc shared.arena (contents shared.q_full) ≡ log cfg s sh
  pub order : IsQueue cfg shared

abbrev last_desc : CapState → SlabDesc
last_desc s = record { frames = s.cur_frames; file_id = s.cur_file_id; eof = true }

no_slab :
    (ws : List (Shared → Shared)) (s : CapState) (sh : Shared)
    → s.cur_idx ≡ none
    → capstate_finish ws s sh ≡ some (record sh { capture_running = false })
unfolding capstate_finish
no_slab ws s sh e = rw e

empty_slab :
    (ws : List (Shared → Shared)) (s : CapState) (sh : Shared) (idx : ℕ)
    → s.cur_idx ≡ some idx
    → ltb 0 s.cur_frames ≡ false
    → capstate_finish ws s sh
      ≡ some (record sh { q_free = (spsc_push sh.q_free idx).0; capture_running = false })
unfolding capstate_finish
empty_slab ws s sh idx e z = rw (e, z)

held_slab :
    (ws : List (Shared → Shared)) (s : CapState) (sh : Shared) (idx : ℕ)
    → s.cur_idx ≡ some idx
    → ltb 0 s.cur_frames ≡ true
    → (p : Pushed sh.q_full idx)
    → capstate_finish ws s sh
      ≡ some (record sh {
        desc = set sh.desc idx (last_desc s);
        q_full = p.ring;
        capture_running = false;
      })
unfolding capstate_finish
held_slab ws s sh idx e z p =
    rw (e, z, push_sleeping-Pushed ws idx (record sh { desc = set sh.desc idx (last_desc s) }) p)

no_current :
    (o : Option ℕ) (file : ℕ) (m : List ℕ) (c n : ℕ)
    → (o ≡ none) ⊎ (n ≡ 0)
    → current_log o file m c n ≡ []
no_current o file m c n (inl e) = rw e
no_current none file m c n (inr e) = refl
no_current (some i) file m c n (inr e) = rw e

module _ (cfg : Config) (hand : List ℕ) (ws : List (Shared → Shared)) (s : CapState) (sh : Shared)
    (pool : IsPool cfg hand s sh) where
  nothing_held :
      (s.cur_idx ≡ none) ⊎ (s.cur_frames ≡ 0)
      → queue_log cfg sh.desc sh.arena (contents sh.q_full) ≡ log cfg s sh
  nothing_held e = sym (
      ap (λ t. queue_log cfg sh.desc sh.arena (contents sh.q_full) ++ t)
        (no_current s.cur_idx s.cur_file_id sh.arena s.cur s.cur_frames e)
      ∙ append-nil (queue_log cfg sh.desc sh.arena (contents sh.q_full)))

  by_slab : (o : Option ℕ) → s.cur_idx ≡ o → Finished cfg ws s sh
  by_slab none e = record {
    shared = record sh { capture_running = false };
    returns = no_slab ws s sh e;
    halted = refl;
    same_tel = refl;
    queued = nothing_held (inl e);
    order = stopped-IsQueue pool sh.q_free;
  }
  by_slab (some idx) e = elim (Bool-cases (ltb 0 s.cur_frames)) [
    | inl z ↦
        let p = pushed cfg hand s sh idx true pool e in
        record {
          shared = record (handed cfg hand s sh idx true p.ring) { capture_running = false };
          returns = held_slab ws s sh idx e z p;
          halted = refl;
          same_tel = refl;
          queued = sym (append-nil _) ∙ log-handed cfg hand s sh idx true pool e;
          order = stopped-IsQueue (handed-IsPool cfg hand s sh idx true pool e) sh.q_free;
        }
    | inr z ↦ record {
      shared = record sh { q_free = (spsc_push sh.q_free idx).0; capture_running = false };
      returns = empty_slab ws s sh idx e z;
      halted = refl;
      same_tel = refl;
      queued = nothing_held (inr (ground arith));
      order = stopped-IsQueue pool (spsc_push sh.q_free idx).0;
    }
  ]

  -- With the pool in order, `capstate_finish` ends whatever its wait would do, stops the capture, and
  -- leaves in `q_full` all the frames that the log had, the ones of the slab that was being filled
  -- included, under their file numbers and in order; the telemetry is unchanged. The
  -- slabs in the queue are different ones of the pool, and none holds more frames than its size.
  pub capstate_finish-Finished : Finished cfg ws s sh
  capstate_finish-Finished = by_slab s.cur_idx refl

map-halts :
    (o : Option Shared) {sh' : Shared}
    → Option.map halt_capture o ≡ some sh'
    → sh'.capture_running ≡ false
map-halts none e = cc
map-halts (some sh) e = ground arith

some-halts : (sh sh' : Shared) → some (halt_capture sh) ≡ some sh' → sh'.capture_running ≡ false
some-halts sh sh' e = map-halts (some sh) e

waiting_slab :
    (ws : List (Shared → Shared)) (s : CapState) (sh : Shared) (idx : ℕ)
    → s.cur_idx ≡ some idx
    → ltb 0 s.cur_frames ≡ true
    → capstate_finish ws s sh
      ≡ Option.map halt_capture
          (push_sleeping ws idx (record sh { desc = set sh.desc idx (last_desc s) }))
unfolding capstate_finish
waiting_slab ws s sh idx e z = rw (e, z)

-- However `capstate_finish` returns, the capture is marked as ended.
pub capstate_finish-halts :
    (ws : List (Shared → Shared)) (s : CapState) (sh : Shared) {sh' : Shared}
    → capstate_finish ws s sh ≡ some sh'
    → sh'.capture_running ≡ false
capstate_finish-halts ws s sh {sh'} e = by_current s.cur_idx refl
  where
    by_current : (o : Option ℕ) → s.cur_idx ≡ o → sh'.capture_running ≡ false
    by_current none c = some-halts sh sh' (sym (no_slab ws s sh c) ∙ e)
    by_current (some idx) c = elim (Bool-cases (ltb 0 s.cur_frames)) [
      | inl z ↦ map-halts _ (sym (waiting_slab ws s sh idx c z) ∙ e)
      | inr z ↦
          some-halts (record sh { q_free = (spsc_push sh.q_free idx).0 }) sh'
            (sym (empty_slab ws s sh idx c z) ∙ e)
    ]
