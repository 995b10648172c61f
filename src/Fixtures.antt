-- ===== src/Fixtures.antt =====
-- Concrete inputs for the witnesses: a pool of three slabs of two frames, a frame of the generator,
-- and a recorder that is in the middle of a recording.
use bvex_vdif_rfsoc.Base.{ℕ, ◌^◌, ◌≤◌, ◌<◌, ◌≡◌, refl, List, [], ◌∷◌, true, arith, length}
use bvex_vdif_rfsoc.Base.{replicate, length-replicate, none, ap}
use bvex_vdif_rfsoc.Telemetry.{Telemetry}
use bvex_vdif_rfsoc.Capture.{Config, CapState, capstate_init}
use bvex_vdif_rfsoc.Capture.Pool.{IsSized, IsPool-retimed}
use bvex_vdif_rfsoc.Capture.Fate.{IsReady}
use bvex_vdif_rfsoc.Setup.Ready.{SetUp, pool_setup-SetUp}
use bvex_vdif_rfsoc.Base.{false, some, sym}
use bvex_vdif_rfsoc.Disk.{
  Output, Store, FinalCalls, OpenCalls, wrote, interrupted, no_space, allocated,
}
use bvex_vdif_rfsoc.Writer.{Writer, writer_init, SlabCalls}
use bvex_vdif_rfsoc.Writer.Refine.{IsWriting, true≢false}
use bvex_vdif_rfsoc.Gen.{Stamp, GenState, fill_vdif_header, fill_batch}
use bvex_vdif_rfsoc.Gen.Sequence.{fill_batch-Stream}
use bvex_vdif_rfsoc.Vdif.Stream.{Stream}
use bvex_vdif_rfsoc.Backend.{Message}
use bvex_vdif_rfsoc.Gen.RoundTrip.{length-fill_vdif_header}
use bvex_vdif_rfsoc.Backend.Step.{IsTracking}
use bvex_vdif_rfsoc.Backend.Stream.{buffers}

abbrev pub small : Config
small = record { align_start = true; secs_per_file = 10; frames_per_slab = 2; nslabs = 3 }

pub small-IsSized : IsSized small
small-IsSized = omega arith

pub memory : List ℕ
memory = replicate 48192 0

pub length-memory : length memory ≡ 48192
unfolding memory
length-memory = length-replicate {A = ℕ} 48192 0

pub ready_pool : SetUp small memory
ready_pool = pool_setup-SetUp small memory small-IsSized (omega arith) length-memory

-- One payload buffer.
pub payload : List ℕ
payload = replicate 8032 7

pub length-payload : length payload ≡ 8032
unfolding payload
length-payload = length-replicate {A = ℕ} 8032 7

abbrev pub stamp : Stamp
stamp = record { ref_epoch = 52; thread = 0; station = 0 }

-- Frame 0 of second 120.
abbrev pub frame_zero : List ℕ
frame_zero = fill_vdif_header payload 120 0 52 0 0

pub length-frame_zero : 8032 ≤ length frame_zero
length-frame_zero = omega (arith, length-fill_vdif_header payload 120 0 52 0 0, length-payload)

-- The state after frame 99 of second 121, with no slab taken.
abbrev pub running : CapState
running = record {
  cur_idx = none;
  cur = 0;
  cur_frames = 0;
  cur_file_id = 4;
  started = true;
  file_start_sec = 120;
  have_prev = true;
  prev_sec = 121;
  prev_frame = 99;
  sec_cur = 121;
  sec_min = 0;
  sec_max = 99;
  sec_have = true;
}

pub running-IsReady : IsReady small [] running ready_pool.shared
unfolding capstate_init
running-IsReady = record {
  pool = IsPool-retimed ready_pool.ready.pool running ready_pool.shared.tel refl refl refl;
  room = omega arith;
  idle = λ e. refl;
}

abbrev pub generating : GenState
generating = record { sec = 121; frame = 100; gapctr = 1; gaps_injected = 6 }

pub running-IsTracking : IsTracking 15488100 running
running-IsTracking = record {
  started = refl;
  have_prev = refl;
  prev = omega arith;
  follows_prev = refl;
}

-- The two datagrams of the generator's next batch at a gap period of 3: frames 100 and 102.
abbrev pub two_messages : List Message
two_messages =
    record { len = 8032; buf = fill_vdif_header payload 121 100 52 0 0; ws_cut = []; ws_full = [] }
    ∷ record {
      len = 8032;
      buf = fill_vdif_header payload 121 102 52 0 0;
      ws_cut = [];
      ws_full = [];
    }
    ∷ []

pub two_messages_sent :
    buffers two_messages ≡ (fill_batch 3 stamp generating (payload ∷ payload ∷ [])).0
unfolding fill_batch
two_messages_sent = refl

pub two_messages-Stream : Stream 15488100 (buffers two_messages) 15488103
unfolding fill_batch
two_messages-Stream =
    (fill_batch-Stream 3 stamp {g = generating} (payload ∷ payload ∷ [])
      (omega (arith, length-payload)) (omega arith) (omega arith)).0

pub counters_zero :
    (ready_pool.shared.tel.gap_frames < 2 ^ 64)
    × (ready_pool.shared.tel.spsc_drops < 2 ^ 64)
    × (ready_pool.shared.tel.frames_seen < 2 ^ 64)
counters_zero = omega (
  arith,
  ap (λ (t : Telemetry). t.gap_frames) ready_pool.zeroed,
  ap (λ (t : Telemetry). t.spsc_drops) ready_pool.zeroed,
  ap (λ (t : Telemetry). t.frames_seen) ready_pool.zeroed,
)

pub words_zero :
    (ready_pool.shared.tel.bad_frames < 2 ^ 64)
    × (ready_pool.shared.tel.frames_seen < 2 ^ 64)
    × (ready_pool.shared.tel.spsc_drops < 2 ^ 64)
words_zero = omega (
  arith,
  ap (λ (t : Telemetry). t.bad_frames) ready_pool.zeroed,
  ap (λ (t : Telemetry). t.frames_seen) ready_pool.zeroed,
  ap (λ (t : Telemetry). t.spsc_drops) ready_pool.zeroed,
)

-- The writer before its first slab, and calls of which the first write fills the disk.
abbrev pub two_disks : Output
two_disks = record { ndisks = 2; min_free = 12000000000; use_odirect = true; secs_per_file = 10 }

abbrev pub no_files : Store
no_files = record {
  written = [];
  reserved = 0;
  sealed = [];
  sidecars = [];
  cur_file = none;
  cur_disk = 0;
  free_bytes = [];
  alarm = false;
}

abbrev pub closes : FinalCalls
closes = record {
  truncated = true;
  renamed = true;
  sidecar_opened = true;
  statvfs = λ d. some (5000000, 4096);
}

abbrev pub opens : OpenCalls
opens = record { statvfs = λ d. some (5000000, 4096); opened = true; fallocate = allocated }

abbrev pub answers : SlabCalls
answers = record {
  close_old = closes;
  open_new = opens;
  write_first = wrote 4096 ∷ no_space ∷ [];
  close_full = closes;
  open_next = opens;
  write_again = interrupted ∷ wrote 16384 ∷ [];
}

abbrev pub start : Writer
start = writer_init no_files

pub start-IsWriting : IsWriting start
unfolding writer_init
start-IsWriting = record {
  live = λ e. absurd (true≢false (sym e));
  idle = λ e. refl;
  holds = λ e. absurd (true≢false (sym e));
}

pub start_empty : (start.have_file ≡ false) × (start.file.frames ≡ 0)
unfolding writer_init
start_empty = (refl, refl)
