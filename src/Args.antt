-- ===== src/Args.antt =====
-- The command line of host/vdif_recorder.c: the argument loop of `main`, `parse_disks`, and the checks
-- before anything is set up. The words of `argv` behind the program's name come as a list.
mod Tests
pub mod Loop
pub mod Grammar
pub mod Accepts
pub mod Print
use bvex_vdif_rfsoc.Base.{
  ℕ, ◌-◌, ◌%◌, ◌^◌, List, [], ◌∷◌, Bool, true, false, not, Option, none, some, ◌==◌, take, length,
  if◌then◌else◌,
}
use bvex_vdif_rfsoc.Text.{Bytes, codes, same, atoi, atol, tokens}
use bvex_vdif_rfsoc.Capture.{Config, slab_bytes}
use bvex_vdif_rfsoc.Args.Loop.{parse_loop, find_word}

-- `g_rx_mode`
pub data RxMode : Type 0 where
  udp raw ring xdp : RxMode

-- The settings with their types: texts, `int` and `long` as bit patterns. `min_free_gb` is the text
-- that `atof` reads.
pub record Options : Type 0 where
  pub iface : Bytes
  pub dport : ℕ
  pub disks : Bytes
  pub secs_per_file : ℕ
  pub status_path : Bytes
  pub min_free_gb : Bytes
  pub use_odirect : Bool
  pub frames_per_slab : ℕ
  pub nslabs : ℕ
  pub block_mb : ℕ
  pub nblocks : ℕ
  pub cap_core : ℕ
  pub wr_core : ℕ
  pub run_secs : ℕ
  pub align_start : Bool
  pub rx_mode : RxMode
  pub rcvbuf_mb : ℕ
  pub busy_poll_us : ℕ
  pub xdp_queue : ℕ
  pub xdp_zerocopy : Bool
  pub xdp_drv : Bool
  pub xdp_busy : Bool

abbrev pub defaults : Options
defaults = record {
  iface = codes "enp1s0f0np0";
  dport = 4001;
  disks = codes "/mnt/vlbi0,/mnt/vlbi1,/mnt/vlbi2";
  secs_per_file = 10;
  status_path = codes "/tmp/vdif_recorder_status.json";
  min_free_gb = codes "12.0";
  use_odirect = true;
  frames_per_slab = 1024;
  nslabs = 128;
  block_mb = 4;
  nblocks = 256;
  cap_core = 2 ^ 32 - 1;
  wr_core = 2 ^ 32 - 1;
  run_secs = 0;
  align_start = true;
  rx_mode = udp;
  rcvbuf_mb = 32;
  busy_poll_us = 100;
  xdp_queue = 0;
  xdp_zerocopy = false;
  xdp_drv = true;
  xdp_busy = false;
}

-- The options that take a value, and those that do not.
pub data Key : Type 0 where
  iface_key dport_key disks_key secs_per_file_key status_key min_free_key : Key
  frames_per_slab_key nslabs_key block_mb_key nblocks_key cap_core_key wr_core_key : Key
  run_secs_key rcvbuf_key busy_poll_key rx_key xdp_queue_key : Key

pub data Flag : Type 0 where
  xdp_copy xdp_zc xdp_skb xdp_no_busy xdp_busy_flag buffered no_align : Flag

abbrev pub key_text : Key → Bytes
key_text iface_key = codes "--iface"
key_text dport_key = codes "--dport"
key_text disks_key = codes "--disks"
key_text secs_per_file_key = codes "--secs-per-file"
key_text status_key = codes "--status"
key_text min_free_key = codes "--min-free-gb"
key_text frames_per_slab_key = codes "--frames-per-slab"
key_text nslabs_key = codes "--nslabs"
key_text block_mb_key = codes "--block-mb"
key_text nblocks_key = codes "--nblocks"
key_text cap_core_key = codes "--cap-core"
key_text wr_core_key = codes "--wr-core"
key_text run_secs_key = codes "--run-secs"
key_text rcvbuf_key = codes "--rcvbuf-mb"
key_text busy_poll_key = codes "--busy-poll"
key_text rx_key = codes "--rx"
key_text xdp_queue_key = codes "--xdp-queue"

abbrev pub flag_text : Flag → Bytes
flag_text xdp_copy = codes "--xdp-copy"
flag_text xdp_zc = codes "--xdp-zc"
flag_text xdp_skb = codes "--xdp-skb"
flag_text xdp_no_busy = codes "--xdp-no-busy"
flag_text xdp_busy_flag = codes "--xdp-busy"
flag_text buffered = codes "--buffered"
flag_text no_align = codes "--no-align"

-- The order in which the code compares.
abbrev pub keys : List Key
keys =
    iface_key ∷ dport_key ∷ disks_key ∷ secs_per_file_key ∷ status_key ∷ min_free_key
    ∷ frames_per_slab_key ∷ nslabs_key ∷ block_mb_key ∷ nblocks_key ∷ cap_core_key ∷ wr_core_key
    ∷ run_secs_key ∷ rcvbuf_key ∷ busy_poll_key ∷ rx_key ∷ xdp_queue_key ∷ []

abbrev pub flags : List Flag
flags = xdp_copy ∷ xdp_zc ∷ xdp_skb ∷ xdp_no_busy ∷ xdp_busy_flag ∷ buffered ∷ no_align ∷ []

unfoldable pub key_of : Bytes → Option Key
unfolding find_word
key_of w = find_word key_text keys w

unfoldable pub flag_of : Bytes → Option Flag
unfolding find_word
flag_of w = find_word flag_text flags w

-- The value of `--rx`.
unfoldable pub mode_of : Bytes → Option RxMode
unfolding same
mode_of v =
    if same v (codes "udp")
    then some udp
    else if same v (codes "raw")
    then some raw
    else if same v (codes "ring")
    then some ring
    else if same v (codes "xdp")
    then some xdp
    else none

abbrev with_mode : Options → Option RxMode → Option Options
with_mode o none = none
with_mode o (some m) = some (record o { rx_mode = m })

-- `snprintf` cuts a text to its buffer: `IFNAMSIZ` is 16, `g_status_path` has 1024 bytes.
unfoldable pub set_key : Key → Bytes → Options → Option Options
unfolding mode_of
set_key iface_key v o = some (record o { iface = take 15 v })
set_key dport_key v o = some (record o { dport = atoi v })
set_key disks_key v o = some (record o { disks = v })
set_key secs_per_file_key v o = some (record o { secs_per_file = atoi v })
set_key status_key v o = some (record o { status_path = take 1023 v })
set_key min_free_key v o = some (record o { min_free_gb = v })
set_key frames_per_slab_key v o = some (record o { frames_per_slab = atoi v })
set_key nslabs_key v o = some (record o { nslabs = atoi v })
set_key block_mb_key v o = some (record o { block_mb = atoi v })
set_key nblocks_key v o = some (record o { nblocks = atoi v })
set_key cap_core_key v o = some (record o { cap_core = atoi v })
set_key wr_core_key v o = some (record o { wr_core = atoi v })
set_key run_secs_key v o = some (record o { run_secs = atol v })
set_key rcvbuf_key v o = some (record o { rcvbuf_mb = atoi v })
set_key busy_poll_key v o = some (record o { busy_poll_us = atoi v })
set_key rx_key v o = with_mode o (mode_of v)
set_key xdp_queue_key v o = some (record o { xdp_queue = atoi v })

unfoldable pub set_flag : Flag → Options → Options
set_flag xdp_copy o = record o { xdp_zerocopy = false }
set_flag xdp_zc o = record o { xdp_zerocopy = true }
set_flag xdp_skb o = record o { xdp_drv = false }
set_flag xdp_no_busy o = record o { xdp_busy = false }
set_flag xdp_busy_flag o = record o { xdp_busy = true }
set_flag buffered o = record o { use_odirect = false }
set_flag no_align o = record o { align_start = false }

-- The argument loop; `none` is `usage` and exit 2.
unfoldable pub parse_args : List Bytes → Option Options
unfolding parse_loop key_of flag_of set_key set_flag
parse_args argv = parse_loop key_of flag_of set_key set_flag argv defaults

abbrev pub is_comma : ℕ → Bool
is_comma c = c == b','

abbrev pub max_disks : ℕ
max_disks = 8

-- `parse_disks`
unfoldable pub parse_disks : Bytes → List Bytes
parse_disks csv = take max_disks (tokens is_comma csv)

-- What the capture thread reads of the settings.
abbrev pub config : Options → Config
config o = record {
  align_start = o.align_start;
  secs_per_file = o.secs_per_file;
  frames_per_slab = o.frames_per_slab;
  nslabs = o.nslabs;
}

-- How `main` comes out of the checks: an exit with status 2, or the settings, the disks and
-- `g_slab_bytes`.
pub data Start : Type 0 where
  bad_usage no_disks bad_slab : Start
  checked : Options → List Bytes → ℕ → Start

abbrev pub check_slab : Options → List Bytes → Start
check_slab o ds =
    if o.frames_per_slab % 128 == 0 then checked o ds (slab_bytes (config o)) else bad_slab

abbrev pub check_disks : Options → List Bytes → Start
check_disks o [] = no_disks
check_disks o (d ∷ ds) = check_slab o (d ∷ ds)

abbrev pub check_options : Option Options → Start
check_options none = bad_usage
check_options (some o) = check_disks o (parse_disks o.disks)

unfoldable pub start : List Bytes → Start
unfolding parse_args parse_disks
start argv = check_options (parse_args argv)
