-- ===== src/Setup.antt =====
-- host/vdif_recorder.c, `main`: the slab pool and its two queues before the threads start.
mod Tests
pub mod Ready
use bvex_vdif_rfsoc.Base.{ℕ, zero, suc, ◌+◌, ◌*◌, List, Option, none, some, leb, if◌then◌else◌}
use bvex_vdif_rfsoc.Base.{replicate, u32, true, false}
use bvex_vdif_rfsoc.Telemetry.{Telemetry, RecState}
use bvex_vdif_rfsoc.Spsc.{Spsc, spsc_init, spsc_push}
use bvex_vdif_rfsoc.Capture.{Config, SlabDesc, Shared}

-- `while (cap <= (uint32_t)g_nslabs) cap <<= 1;` with fuel; `none` is a loop that has not ended.
pub grow_cap : ℕ → ℕ → ℕ → Option ℕ
grow_cap zero nslabs cap = none
grow_cap (suc f) nslabs cap =
    let rest = grow_cap f nslabs (u32 (cap * 2)) in if leb cap nslabs then rest else some cap

-- `for (int i = 0; i < g_nslabs; i++) spsc_push(&q_free, i);` from `i` on, with `left` rounds to go.
pub fill_free : ℕ → ℕ → Spsc → Spsc
fill_free zero i q = q
fill_free (suc left) i q = fill_free left (i + 1) (spsc_push q i).0

-- The counters' initial values.
abbrev pub telemetry_init : Telemetry
telemetry_init = record {
  frames_written = 0;
  bytes_written = 0;
  kernel_drops = 0;
  ring_losing = 0;
  spsc_drops = 0;
  bad_frames = 0;
  gap_frames = 0;
  gap_events = 0;
  dup = 0;
  ooo = 0;
  frames_seen = 0;
  time_ok = false;
  state = RecState.running;
  stop = false;
}

-- The queues, the cleared descriptors and the arena that `posix_memalign` gave. 32 rounds of the
-- loop are enough, as `Ready` shows.
pub pool_setup : Config → List ℕ → Option Shared
unfolding grow_cap fill_free
pool_setup cfg arena = elim (grow_cap 32 cfg.nslabs 1) [
  | none ↦ none
  | some cap ↦ some (record {
    q_free = fill_free cfg.nslabs 0 (spsc_init cap);
    q_full = spsc_init cap;
    desc = replicate cfg.nslabs (record { frames = 0; file_id = 0; eof = false });
    arena = arena;
    tel = telemetry_init;
    capture_running = true;
  })
]
