-- ===== src/Disk.antt =====
-- host/vdif_recorder.c, the state behind the output files: `ofile_t`, the sidecar, the status fields
-- of the writer, and what the system calls answer.
--
-- The system calls are outside: what each of them answers is an argument. A call that succeeds does
-- to the file what its manual page says, and the files are those that this program writes: the one
-- behind the open descriptor, and those that it has finalized, in that order.
use bvex_vdif_rfsoc.Base.{ℕ, List, Bool, Option}
use bvex_vdif_rfsoc.Telemetry.{Telemetry}

-- The settings that the writer reads: `g_ndisks`, `g_min_free_gb * 1e9` as bytes, `g_use_odirect`,
-- `g_secs_per_file`.
pub record Output : Type 0 where
  pub ndisks : ℕ
  pub min_free : ℕ
  pub use_odirect : Bool
  pub secs_per_file : ℕ

abbrev pub page : ℕ
page = 4096

-- `fd`: -1, a descriptor that is open, or the number of one that has been closed.
pub data Fd : Type 0 where
  absent live stale : Fd

-- What `path` is printed from: the disk, the second of the time stamp, the thread.
pub record FileName : Type 0 where
  pub on_disk : ℕ
  pub start_utc : ℕ
  pub of_thread : ℕ

-- `ofile_t`; `tmp` is `path` with a suffix.
pub record OFile : Type 0 where
  pub fd : Fd
  pub path : FileName
  pub disk : ℕ
  pub frames : ℕ
  pub ref_epoch : ℕ
  pub thread : ℕ
  pub station : ℕ
  pub first_sec : ℕ
  pub first_frame : ℕ
  pub last_sec : ℕ
  pub last_frame : ℕ

-- What `write_sidecar` prints.
pub record Sidecar : Type 0 where
  pub file : FileName
  pub thread_id : ℕ
  pub station_id : ℕ
  pub epoch : ℕ
  pub start_utc : ℕ
  pub first_sec : ℕ
  pub first_frame : ℕ
  pub last_sec : ℕ
  pub last_frame : ℕ
  pub frame_count : ℕ
  pub expected_count : ℕ
  pub gap_frames_total_at_close : ℕ
  pub bytes : ℕ
  pub disk : ℕ

-- A file that has been closed by `file_finalize`, under its final name or still under `tmp`.
pub record Sealed : Type 0 where
  pub name : FileName
  pub revealed : Bool
  pub bytes : List ℕ

-- The files, and the status fields behind `st_lock`. `written` is what `write` has put into the open
-- file, and `reserved` is the size to which `fallocate` has grown it.
pub record Store : Type 0 where
  pub written : List ℕ
  pub reserved : ℕ
  pub sealed : List Sealed
  pub sidecars : List Sidecar
  pub cur_file : Option FileName
  pub cur_disk : ℕ
  pub free_bytes : List ℕ
  pub alarm : Bool

-- `statvfs` for a disk: it fails, or tells `f_bavail` and `f_frsize`.
abbrev pub Statvfs : Type 0
Statvfs = ℕ → Option (ℕ × ℕ)

-- `fallocate`: done, `ENOSPC`, or another error.
pub data Fallocate : Type 0 where
  allocated no_room unsupported : Fallocate

-- What the calls of `file_open` answer.
pub record OpenCalls : Type 0 where
  pub statvfs : Statvfs
  pub opened : Bool
  pub fallocate : Fallocate

-- What the calls of `file_finalize` answer.
pub record FinalCalls : Type 0 where
  pub truncated : Bool
  pub renamed : Bool
  pub sidecar_opened : Bool
  pub statvfs : Statvfs

-- `write`: some bytes, `EINTR`, `ENOSPC`, or another error.
pub data WriteResult : Type 0 where
  wrote : ℕ → WriteResult
  interrupted no_space failed : WriteResult

-- How the write loop ends; `writing` is a loop that goes on after the last result of the list.
pub data WriteEnd : Type 0 where
  complete gave_up writing : WriteEnd

-- What `slab_write` leaves.
pub record SlabWritten : Type 0 where
  pub how : WriteEnd
  pub file : OFile
  pub out : List ℕ
  pub arena : List ℕ
  pub tel : Telemetry
