-- ===== src/Writer.antt =====
-- host/vdif_recorder.c, `writer_thread`: the slabs of `q_full` go to files, one after the other, and
-- back to `q_free`.
pub mod Steps
pub mod Kept
pub mod Refine
pub mod Attempts
pub mod Rolls
pub mod Rounds
pub mod Queue
pub mod Turns
pub mod Drain
pub mod Bytes
pub mod Slabs
mod Tests
use bvex_vdif_rfsoc.Base.{ℕ, ◌+◌, ◌*◌, List, [], ◌∷◌, Bool, true, false, not, ◌&&◌, ◌==◌}
use bvex_vdif_rfsoc.Base.{Option, none, some, if◌then◌else◌, get_or, sub32}
use bvex_vdif_rfsoc.Vdif.{vdif_frame_bytes, parse_vhdr}
use bvex_vdif_rfsoc.Telemetry.{Telemetry, RecState}
use bvex_vdif_rfsoc.Spsc.{Spsc, spsc_push, spsc_pop}
use bvex_vdif_rfsoc.Capture.{Config, slab_bytes, SlabDesc, Shared}
use bvex_vdif_rfsoc.Capture.Log.{desc_of}
use bvex_vdif_rfsoc.Disk.{
  Output, FileName, OFile, Fd, absent, live, stale, Store, FinalCalls, OpenCalls, WriteResult,
  WriteEnd, complete, gave_up, writing, SlabWritten,
}
use bvex_vdif_rfsoc.Files.{file_open, file_finalize, slab_write}

-- The thread's variables, with the files.
pub record Writer : Type 0 where
  pub file : OFile
  pub have_file : Bool
  pub cur_tag : ℕ
  pub start_disk : ℕ
  pub store : Store

-- The variables when the thread starts.
unfoldable pub writer_init : Store → Writer
writer_init st = record {
  file = record {
    fd = absent;
    path = record { on_disk = 0; start_utc = 0; of_thread = 0 };
    disk = 0;
    frames = 0;
    ref_epoch = 0;
    thread = 0;
    station = 0;
    first_sec = 0;
    first_frame = 0;
    last_sec = 0;
    last_frame = 0;
  };
  have_file = false;
  cur_tag = 0;
  start_disk = 0;
  store = st;
}

-- What the system calls answer while one slab is handled: those on the change of file, the writes,
-- and the same again after an error.
pub record SlabCalls : Type 0 where
  pub close_old : FinalCalls
  pub open_new : OpenCalls
  pub write_first : List WriteResult
  pub close_full : FinalCalls
  pub open_next : OpenCalls
  pub write_again : List WriteResult

-- How the handling of a slab ends: the next round, the end of the loop, or a write still under way.
pub data Handled : Type 0 where
  done halted : Writer → Shared → Handled
  under_way : Handled

-- `file_finalize(&cur); start_disk = cur.disk;`
pub close_file : Output → FinalCalls → ℕ → Writer → Writer
close_file c calls gaps w =
    let (f, st) = file_finalize c calls gaps w.file w.store in
    record w { file = f; store = st; start_disk = f.disk }

-- The call of `file_open` for the slab at offset `o`.
pub open_file : Output → OpenCalls → List ℕ → ℕ → Writer → Bool × Writer
open_file c calls m o w =
    let (ok, f, st) = file_open c calls m o w.start_disk w.file w.store in
    (ok, record w { file = f; store = st })

-- `cur_tag = d.file_id; have_file = 1;`
abbrev pub adopt : SlabDesc → Writer → Writer
adopt d w = record w { cur_tag = d.file_id; have_file = true }

-- No disk is left.
pub disk_full : ℕ → Writer → Shared → Handled
disk_full idx w sh =
    halted (record w { store = record w.store { alarm = true } })
      (record sh {
        q_free = (spsc_push sh.q_free idx).0;
        tel = record sh.tel { state = RecState.stopped_disk_full; stop = true };
      })

-- The end of a round: the header of the slab's last frame, and the slab back to the pool.
pub give_back : ℕ → ℕ → SlabDesc → Writer → Shared → Handled
give_back idx o d w sh =
    let h = parse_vhdr sh.arena (o + sub32 d.frames 1 * vdif_frame_bytes) in
    done (record w { file = record w.file { last_sec = h.sec; last_frame = h.frame } })
      (record sh { q_free = (spsc_push sh.q_free idx).0 })

abbrev pub put_writer : SlabWritten → Writer → Writer
put_writer r w = record w { file = r.file; store = record w.store { written = r.out } }

abbrev pub put_shared : SlabWritten → Shared → Shared
put_shared r sh = record sh { arena = r.arena; tel = r.tel }

-- The second attempt at a slab, on the next disk.
pub second_try : ℕ → ℕ → SlabDesc → Writer → Shared → SlabWritten → Handled
unfolding give_back disk_full
second_try idx o d w sh r = elim r.how [
  | complete ↦ give_back idx o d (adopt d (put_writer r w)) (put_shared r sh)
  | gave_up ↦ disk_full idx (put_writer r w) (put_shared r sh)
  | writing ↦ under_way
]

-- The second attempt, if the next disk gave a file.
pub on_next : Output → SlabCalls → ℕ → ℕ → SlabDesc → Shared → Bool × Writer → Handled
unfolding second_try disk_full
on_next c calls idx o d sh (true, w) =
    second_try idx o d w sh
      (slab_write c calls.write_again sh.arena o d.frames w.file w.store.written sh.tel)
on_next c calls idx o d sh (false, w) = disk_full idx w sh

-- `have_file = 0; start_disk = cur.disk + 1;`
abbrev pub from_next : Writer → Writer
from_next w = record w { have_file = false; start_disk = w.file.disk + 1 }

-- The disk filled up within a slab.
pub next_disk : Output → SlabCalls → ℕ → ℕ → SlabDesc → Writer → Shared → Handled
unfolding close_file open_file on_next
next_disk c calls idx o d w sh = on_next c calls idx o d sh (
    open_file c calls.open_next sh.arena o
      (from_next (close_file c calls.close_full sh.tel.gap_frames w)))

pub first_try : Output → SlabCalls → ℕ → ℕ → SlabDesc → Writer → Shared → SlabWritten → Handled
unfolding next_disk
first_try c calls idx o d w sh r = elim r.how [
  | complete ↦ give_back idx o d (put_writer r w) (put_shared r sh)
  | gave_up ↦ next_disk c calls idx o d (put_writer r w) (put_shared r sh)
  | writing ↦ under_way
]

-- The file for the slab: the open one if its tag is that of the slab, otherwise a new one.
abbrev pub tagged : SlabDesc → Bool × Writer → Bool × Writer
tagged d (true, w) = (true, adopt d w)
tagged d (false, w) = (false, w)

pub roll_file : Output → SlabCalls → ℕ → List ℕ → ℕ → SlabDesc → Writer → Bool × Writer
unfolding close_file open_file
roll_file c calls gaps m o d w =
    if w.have_file && d.file_id == w.cur_tag
    then (true, w)
    else tagged d (
        open_file c calls.open_new m o
          (if w.have_file then close_file c calls.close_old gaps w else w))

-- The first attempt, if there is a file.
pub on_file : Output → SlabCalls → ℕ → ℕ → SlabDesc → Shared → Bool × Writer → Handled
unfolding first_try disk_full
on_file c calls idx o d sh (true, w) =
    first_try c calls idx o d w sh
      (slab_write c calls.write_first sh.arena o d.frames w.file w.store.written sh.tel)
on_file c calls idx o d sh (false, w) = disk_full idx w sh

-- The loop's body on a slab that has been popped, its memory at offset `o`.
pub write_slab : Output → SlabCalls → ℕ → ℕ → SlabDesc → Writer → Shared → Handled
unfolding roll_file on_file
write_slab c calls idx o d w sh =
    on_file c calls idx o d sh (roll_file c calls sh.tel.gap_frames sh.arena o d w)

-- One round of the loop: what the other threads did before it, and between a pop that found nothing
-- and the load of `g_capture_running`; and the answers of the system calls.
pub record Round : Type 0 where
  pub meanwhile : Shared → Shared
  pub before_load : Shared → Shared
  pub calls : SlabCalls

-- Behind the loop: the last file is finalized.
abbrev pub ended : Output → FinalCalls → Writer → Shared → Option (Writer × Shared)
ended c fin w sh = some (close_file c fin sh.tel.gap_frames w, sh)

-- What becomes of a slab decides on the next round.
abbrev pub on_handled :
    Output
    → FinalCalls
    → Handled
    → (Writer → Shared → Option (Writer × Shared))
    → Option (Writer × Shared)
on_handled c fin (done w sh) next = next w sh
on_handled c fin (halted w sh) next = ended c fin w sh
on_handled c fin under_way next = none

-- A slab; or no slab, and the load decides, in the state that it meets.
abbrev pub on_popped :
    Config
    → Output
    → FinalCalls
    → Round
    → Writer
    → Shared
    → Spsc × Option ℕ
    → (Writer → Shared → Option (Writer × Shared))
    → Option (Writer × Shared)
on_popped cfg c fin r w sh (q, none) next =
    let sh1 = r.before_load (record sh { q_full = q }) in
    if sh1.capture_running then next w sh1 else ended c fin w sh1
on_popped cfg c fin r w sh (q, some idx) next =
    on_handled c fin
      (write_slab c r.calls idx (idx * slab_bytes cfg) (desc_of sh.desc idx) w
        (record sh { q_full = q }))
      next

-- The thread over a list of rounds; it ends by the break after a pop that found nothing and a load
-- that found the capture ended, or by `disk_full`, and then finalizes the file. `none` is a thread that has not ended.
unfoldable pub writer_thread :
    Config → Output → FinalCalls → List Round → Writer → Shared → Option (Writer × Shared)
writer_thread cfg c fin [] w sh = none
writer_thread cfg c fin (r ∷ rs) w sh0 =
    let next = writer_thread cfg c fin rs in
    let sh = r.meanwhile sh0 in on_popped cfg c fin r w sh (spsc_pop sh.q_full) next
