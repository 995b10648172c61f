-- ===== src/Status.antt =====
-- host/vdif_recorder.c, the main thread: `udp_rcvbuf_errors`, `write_status` and the status loop.
--
-- /proc/net/snmp is what `fgets` returns of it, call after call. The clock, the socket options and
-- what the other threads did to the counters are arguments. A rate is the difference of a counter;
-- its print as a floating-point number is outside, as is the console line.
mod Tests
pub mod Drops
pub mod Rcvbuf
pub mod Rounds
use Prim.Native.String.{String}
use bvex_vdif_rfsoc.Base.{
  ℕ, ◌+◌, ◌-◌, ◌^◌, List, [], ◌∷◌, Bool, true, false, ◌&&◌, ◌||◌, Option, none, some, ltb, leb,
  ◌==◌, take, drop, add64, sub64, u32, u64, if◌then◌else◌,
}
use bvex_vdif_rfsoc.Text.{Bytes, codes, same, tokens, strtoull}
use bvex_vdif_rfsoc.Telemetry.{Telemetry, state_name}
use bvex_vdif_rfsoc.Disk.{Output, FileName, Store}
use bvex_vdif_rfsoc.Args.{RxMode, udp, raw, ring, xdp}

-- `" \t\n"`
abbrev pub is_blank : ℕ → Bool
is_blank c = c == 32 || c == 9 || c == 10

-- The loop over the pairs of a name and a value.
unfoldable pub find_value : List Bytes → List Bytes → ℕ
unfolding same
find_value [] values = 0
find_value (name ∷ names) [] = 0
find_value (name ∷ names) (value ∷ values) =
    if same name (codes "RcvbufErrors") then strtoull value else find_value names values

-- The line of values behind the first line of names.
abbrev pub from_values : Bytes → List Bytes → ℕ
from_values hdr [] = 0
from_values hdr (val ∷ lines) =
    find_value (drop 1 (tokens is_blank hdr)) (drop 1 (tokens is_blank val))

-- `while (fgets(hdr, …))`
unfoldable pub scan_lines : List Bytes → ℕ
unfolding find_value
scan_lines [] = 0
scan_lines (hdr ∷ lines) =
    if same (take 4 hdr) (codes "Udp:") then from_values hdr lines else scan_lines lines

-- `none` is a failed `fopen`.
unfoldable pub udp_rcvbuf_errors : Option (List Bytes) → ℕ
unfolding scan_lines
udp_rcvbuf_errors none = 0
udp_rcvbuf_errors (some lines) = scan_lines lines

-- What the kernel answers about drops: the lines of /proc/net/snmp, `XDP_STATISTICS`, and the
-- `tp_drops` of `PACKET_STATISTICS`. `none` is a call that fails.
pub record Answers : Type 0 where
  pub snmp : Option (List Bytes)
  pub xdp_statistics : Option (ℕ × ℕ × ℕ × ℕ)
  pub tp_drops : Option ℕ

-- The main thread's variables, with the counters and the status fields that all threads share. `base`
-- is the static variable of that name, with `have_base`.
pub record Main : Type 0 where
  pub tel : Telemetry
  pub store : Store
  pub base : Option ℕ
  pub prev_frames : ℕ
  pub prev_bytes : ℕ

abbrev pub with_drops : ℕ → Main → Main
with_drops n s = record s { tel = record (s.tel) { kernel_drops = n } }

-- `cur >= base ? cur - base : 0`, for a base that the first call takes.
abbrev pub udp_drops : Option ℕ → ℕ → Main → Main
udp_drops none cur s = record (with_drops 0 s) { base = some cur }
udp_drops (some base) cur s = with_drops (if leb base cur then cur - base else 0) s

abbrev pub xdp_drops : Option (ℕ × ℕ × ℕ × ℕ) → Main → Main
xdp_drops none s = s
xdp_drops (some (dropped, ring_full, no_descs, invalid)) s =
    with_drops (u64 (dropped + ring_full + no_descs + invalid)) s

abbrev pub packet_drops : Option ℕ → Main → Main
packet_drops none s = s
packet_drops (some n) s = with_drops (add64 s.tel.kernel_drops n) s

-- The end of `write_status`; `fd_open` is `g_capture_fd >= 0`.
unfoldable pub update_drops : RxMode → Bool → Answers → Main → Main
unfolding udp_rcvbuf_errors
update_drops udp fd_open a s = udp_drops s.base (udp_rcvbuf_errors a.snmp) s
update_drops xdp fd_open a s = if fd_open then xdp_drops a.xdp_statistics s else s
update_drops raw fd_open a s = if fd_open then packet_drops a.tp_drops s else s
update_drops ring fd_open a s = if fd_open then packet_drops a.tp_drops s else s

-- What `write_status` prints.
pub record Report : Type 0 where
  pub ts_unix : ℕ
  pub state : String
  pub fps_capture : ℕ
  pub write_bytes : ℕ
  pub frames_written : ℕ
  pub bytes_written : ℕ
  pub frames_seen : ℕ
  pub kernel_drops : ℕ
  pub ring_losing : ℕ
  pub spsc_drops : ℕ
  pub bad_frames : ℕ
  pub gap_frames : ℕ
  pub gap_events : ℕ
  pub dup : ℕ
  pub ooo : ℕ
  pub time_ok : Bool
  pub cur_file : Option FileName
  pub cur_disk : ℕ
  pub free_bytes : List ℕ
  pub alarm : Bool

abbrev pub report : Output → ℕ → ℕ → ℕ → Main → Report
report c now fps bytes s = record {
  ts_unix = now;
  state = state_name s.tel.state;
  fps_capture = fps;
  write_bytes = bytes;
  frames_written = s.tel.frames_written;
  bytes_written = s.tel.bytes_written;
  frames_seen = s.tel.frames_seen;
  kernel_drops = s.tel.kernel_drops;
  ring_losing = s.tel.ring_losing;
  spsc_drops = s.tel.spsc_drops;
  bad_frames = s.tel.bad_frames;
  gap_frames = s.tel.gap_frames;
  gap_events = s.tel.gap_events;
  dup = s.tel.dup;
  ooo = s.tel.ooo;
  time_ok = s.tel.time_ok;
  cur_file = s.store.cur_file;
  cur_disk = s.store.cur_disk;
  free_bytes = take c.ndisks s.store.free_bytes;
  alarm = s.store.alarm;
}

-- One call: `fopen` may fail, and then nothing happens. Else the file is printed and renamed, and the
-- drop counter is brought up to date for the next call.
pub record StatusCalls : Type 0 where
  pub opened : Bool
  pub now : ℕ
  pub fd_open : Bool
  pub answers : Answers

unfoldable pub write_status : RxMode → Output → StatusCalls → ℕ → ℕ → Main → Option Report × Main
unfolding update_drops
write_status mode c k fps bytes s =
    if k.opened
    then (some (report c k.now fps bytes s), update_drops mode k.fd_open k.answers s)
    else (none, s)

-- A round of the status loop: what the other threads did while the main thread slept, what the calls
-- answer, and `time(NULL)` at its end.
pub record StatusRound : Type 0 where
  pub counted : Telemetry → Telemetry
  pub noted : Store → Store
  pub calls : StatusCalls
  pub time_now : ℕ

abbrev pub meanwhile : StatusRound → Main → Main
meanwhile r s = record s { tel = r.counted s.tel; store = r.noted s.store }

-- `g_run_secs > 0 && time(NULL) - t0 >= g_run_secs`, for a bit pattern of a `long`.
abbrev pub time_is_up : ℕ → ℕ → ℕ → Bool
time_is_up run_secs t0 now = ltb 0 run_secs && ltb run_secs (2 ^ 63) && leb (t0 + run_secs) now

abbrev pub stop_if : Bool → Main → Main
stop_if true s = record s { tel = record (s.tel) { stop = true } }
stop_if false s = s

abbrev pub take_counts : Main → Main
take_counts s = record s { prev_frames = s.tel.frames_written; prev_bytes = s.tel.bytes_written }

unfoldable pub status_round : RxMode → Output → ℕ → ℕ → StatusRound → Main → Option Report × Main
unfolding write_status
status_round mode c run_secs t0 r s0 =
    let s = meanwhile r s0 in
    let (rep, s1) =
      write_status mode c r.calls (sub64 s.tel.frames_written s.prev_frames)
        (sub64 s.tel.bytes_written s.prev_bytes) (take_counts s) in
    (rep, stop_if (time_is_up run_secs t0 r.time_now) s1)

-- `while (!g_stop)`, with the reports; the Boolean says whether the loop has ended.
unfoldable pub status_loop :
    RxMode → Output → ℕ → ℕ → List StatusRound → Main → List (Option Report) × Main × Bool
unfolding status_round
status_loop mode c run_secs t0 [] s = ([], s, s.tel.stop)
status_loop mode c run_secs t0 (r ∷ rs) s =
    let (rep, s1) = status_round mode c run_secs t0 r s in
    let (reps, s2, ended) = status_loop mode c run_secs t0 rs s1 in
    if s.tel.stop then ([], s, true) else (rep ∷ reps, s2, ended)
