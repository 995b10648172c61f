-- ===== src/Shutdown.antt =====
-- The end of a recording: host/vdif_recorder.c, `capstate_finish`, and `writer_thread` after it.
mod Tests
use mathlib.Core.Path.{subst}
use mathlib.Core.Option.{some-injective}
use bvex_vdif_rfsoc.Base.{
  ℕ, ◌≡◌, ap, sym, ◌∙◌, ◌⊎◌, List, [], ◌++◌, true, false, some, take, length,
}
use bvex_vdif_rfsoc.Base.{◌∷◌, Option, none}
use bvex_vdif_rfsoc.Spsc.{Spsc, spsc_pop}
use bvex_vdif_rfsoc.Writer.Turns.{pop_empty, round_empty, close_file-saved}
use bvex_vdif_rfsoc.Telemetry.{RecState}
use bvex_vdif_rfsoc.Spsc.Refine.{contents}
use bvex_vdif_rfsoc.Capture.{Config, CapState, Shared, capstate_finish}
use bvex_vdif_rfsoc.Capture.Log.{queue_log, log, current_log}
use bvex_vdif_rfsoc.Capture.Pool.{IsPool}
use bvex_vdif_rfsoc.Capture.Finish.{Finished, capstate_finish-Finished}
use bvex_vdif_rfsoc.Disk.{Output, FinalCalls}
use bvex_vdif_rfsoc.Writer.{Writer, Round, close_file, writer_thread}
use bvex_vdif_rfsoc.Writer.Steps.{saved}
use bvex_vdif_rfsoc.Writer.Refine.{IsWriting}
use bvex_vdif_rfsoc.Writer.Drain.{StoppedAt}
use bvex_vdif_rfsoc.Writer.Bytes.{frame_bytes}

-- The writer ends after a capture that ended in `s` and `sh`, and left `sh'`: the frames of the log
-- are saved, or those of the first `k` queued slabs are, and no place was found for the next slab.
pub record Saved (cfg : Config) (c : Output) (fin : FinalCalls) (rs : List Round) (s : CapState)
    (sh sh' : Shared) (w : Writer) : Type 0 where
  pub files : Writer
  pub shared : Shared
  pub returns : writer_thread cfg c fin rs w sh' ≡ some (files, shared)
  pub outcome :
      (saved files ≡ saved w ++ frame_bytes (log cfg s sh))
      ⊎ (k : ℕ) × (front : List ℕ) × (rest : List ℕ) × (before : Writer) × (files
          ≡ close_file c fin shared.tel.gap_frames before)
        × (saved before ≡ saved w ++ front)
        × (front ≡ frame_bytes (queue_log cfg sh'.desc sh'.arena (take k (contents sh'.q_full))))
        × (front ++ rest ≡ frame_bytes (log cfg s sh))
        × (shared.tel.state ≡ RecState.stopped_disk_full)
        × StoppedAt cfg c fin sh'.desc (length sh'.arena) (contents sh'.q_full) rs k before

-- The state that `Finished` names is the one returned.
Finished-returned :
    {cfg : Config} {ws : List (Shared → Shared)} {s : CapState} {sh sh' : Shared}
    → (f : Finished cfg ws s sh) → capstate_finish ws s sh ≡ some sh'
    → f.shared ≡ sh'
Finished-returned f e = some-injective _ _ (sym f.returns ∙ e)

-- The queue is empty for a writer that looks before the capture ends.
popped_empty :
    (cfg : Config) (s : CapState) (sh : Shared)
    → IsPool cfg [] s sh
    → contents sh.q_full ≡ []
    → (q : Spsc) × (spsc_pop sh.q_full ≡ (q, none))
popped_empty cfg s sh pool e = pop_empty sh.q_full pool.full_valid e

-- With the pool in order, nothing queued, and `ftruncate` that succeeds: a capture that ends while
-- the writer is between a pop that found no slab and its load of `g_capture_running` leaves its
-- last slab in the queue for ever: the writer ends in that round. What is saved is what was saved
-- before, and the queue holds the whole log, the frames of the slab that was being filled.
pub writer_thread-misses :
    (cfg : Config) (c : Output) (fin : FinalCalls) (ws : List (Shared → Shared)) (r : Round)
    (rs : List Round) (s : CapState) (sh sh' : Shared) (w : Writer)
    → IsPool cfg [] s sh
    → contents sh.q_full ≡ []
    → capstate_finish ws s sh ≡ some sh'
    → r.meanwhile sh ≡ sh
    → r.before_load (record sh { q_full = (spsc_pop sh.q_full).0 }) ≡ sh'
    → fin.truncated ≡ true
    → IsWriting w
    → (files : Writer) × (writer_thread cfg c fin (r ∷ rs) w sh ≡ some (files, sh'))
      × (saved files ≡ saved w)
      × (queue_log cfg sh'.desc sh'.arena (contents sh'.q_full)
          ≡ current_log s.cur_idx s.cur_file_id sh.arena s.cur s.cur_frames)
writer_thread-misses cfg c fin ws r rs s sh sh' w pool empty ends quiet race trims v =
    let f = capstate_finish-Finished cfg [] ws s sh pool in
    let e = Finished-returned f ends in
    let (q, pops) = popped_empty cfg s sh pool empty in
    (
      close_file c fin sh'.tel.gap_frames w,
      round_empty cfg c fin r rs w sh sh quiet q pops sh'
          (subst (λ (p : Spsc × Option ℕ). r.before_load (record sh { q_full = p.0 }) ≡ sh') pops
            race)
          (subst (λ (x : Shared). x.capture_running ≡ false) e f.halted),
      close_file-saved c fin sh'.tel.gap_frames w v trims,
      subst (λ (x : Shared). queue_log cfg x.desc x.arena (contents x.q_full) ≡ log cfg s sh) e
            f.queued
          ∙ ap
              (λ is.
                queue_log cfg sh.desc sh.arena is
                ++ current_log s.cur_idx s.cur_file_id sh.arena s.cur s.cur_frames)
              empty,
    )
