-- ===== src/Telemetry.antt =====
-- host/vdif_recorder.c: the telemetry counters (`st_*`), the recorder's state, `state_name` and
-- `on_signal`. The counters are `uint64_t` and wrap.
use Prim.Native.String.{String}
use bvex_vdif_rfsoc.Base.{ℕ, Bool, true, add64}

-- `enum rec_state`
pub data RecState : Type 0 where
  running stopped_disk_full stopped_signal error : RecState

unfoldable pub state_name : RecState → String
state_name RecState.running = "RUNNING"
state_name RecState.stopped_disk_full = "STOPPED_DISK_FULL"
state_name RecState.stopped_signal = "STOPPED_SIGNAL"
state_name RecState.error = "ERROR"

-- The atomics of the telemetry, with the stop flag `g_stop`.
pub record Telemetry : Type 0 where
  pub frames_written : ℕ
  pub bytes_written : ℕ
  pub kernel_drops : ℕ
  pub ring_losing : ℕ
  pub spsc_drops : ℕ
  pub bad_frames : ℕ
  pub gap_frames : ℕ
  pub gap_events : ℕ
  pub dup : ℕ
  pub ooo : ℕ
  pub frames_seen : ℕ
  pub time_ok : Bool
  pub state : RecState
  pub stop : Bool

abbrev pub add_bad : Telemetry → Telemetry
add_bad t = record t { bad_frames = add64 t.bad_frames 1 }

abbrev pub add_seen : Telemetry → Telemetry
add_seen t = record t { frames_seen = add64 t.frames_seen 1 }

abbrev pub add_dup : Telemetry → Telemetry
add_dup t = record t { dup = add64 t.dup 1 }

abbrev pub add_ooo : Telemetry → Telemetry
add_ooo t = record t { ooo = add64 t.ooo 1 }

abbrev pub add_gap : ℕ → Telemetry → Telemetry
add_gap miss t = record t {
  gap_frames = add64 t.gap_frames miss;
  gap_events = add64 t.gap_events 1;
}

abbrev pub add_spsc_drop : Telemetry → Telemetry
add_spsc_drop t = record t { spsc_drops = add64 t.spsc_drops 1 }

-- The state that a signal leaves behind: it does not hide an earlier cause.
abbrev after_signal : RecState → RecState
after_signal RecState.running = RecState.stopped_signal
after_signal RecState.stopped_disk_full = RecState.stopped_disk_full
after_signal RecState.stopped_signal = RecState.stopped_signal
after_signal RecState.error = RecState.error

unfoldable pub on_signal : Telemetry → Telemetry
on_signal t = record t { stop = true; state = after_signal t.state }
