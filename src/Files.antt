-- ===== src/Files.antt =====
-- host/vdif_recorder.c, the output files: `ofile_t`, `choose_disk`, `refresh_free`, `file_open`,
-- `write_sidecar`, `file_finalize` and `slab_write`.
mod Tests
pub mod Disks
pub mod Slab
pub mod Written
pub mod Seal
pub mod Open
use bvex_vdif_rfsoc.Base.{ℕ, zero, suc, ◌+◌, ◌-◌, ◌*◌, ◌/◌, ◌%◌, List, [], ◌∷◌, ◌++◌}
use bvex_vdif_rfsoc.Base.{Bool, true, false, not, ◌&&◌, Option, none, some, ltb, leb, ◌==◌}
use bvex_vdif_rfsoc.Base.{if◌then◌else◌, length, take, replicate, poke, block}
use bvex_vdif_rfsoc.Base.{u64, add32, sub32, add64}
use bvex_vdif_rfsoc.Vdif.{vdif_frame_bytes, frames_per_second, Vhdr, parse_vhdr}
use bvex_vdif_rfsoc.Telemetry.{Telemetry}
use bvex_vdif_rfsoc.Calendar.{vdif_to_unix}
use bvex_vdif_rfsoc.Disk.{
  Output, page, Fd, absent, live, stale, FileName, OFile, Sidecar, Sealed, Store, Statvfs,
  Fallocate, allocated, no_room, unsupported, OpenCalls, FinalCalls, WriteResult, wrote,
  interrupted, no_space, failed, WriteEnd, complete, gave_up, writing, SlabWritten,
}

abbrev pub free_of : Option (ℕ × ℕ) → ℕ
free_of none = 0
free_of (some (bavail, frsize)) = u64 (bavail * frsize)

-- The call succeeds, and the disk has the free space that the settings ask for.
abbrev pub has_room : Output → Option (ℕ × ℕ) → Bool
has_room c none = false
has_room c (some (bavail, frsize)) = leb c.min_free (u64 (bavail * frsize))

-- `choose_disk` from disk `d` on, with `left` disks to look at.
unfoldable pub choose_disk : Output → Statvfs → ℕ → ℕ → Option ℕ
choose_disk c statvfs zero d = none
choose_disk c statvfs (suc left) d =
    let rest = choose_disk c statvfs left (d + 1) in if has_room c (statvfs d) then some d else rest

-- `refresh_free` from disk `d` on.
pub refresh_free : Statvfs → ℕ → ℕ → List ℕ
refresh_free statvfs zero d = []
refresh_free statvfs (suc left) d = free_of (statvfs d) ∷ refresh_free statvfs left (d + 1)

-- What `file_open` notes about the file whose first frame has header `h`.
abbrev opening : Vhdr → ℕ → OFile → OFile
opening h d f = record f {
  path = record { on_disk = d; start_utc = vdif_to_unix h.ref_epoch h.sec; of_thread = h.thread };
  disk = d;
  frames = 0;
  ref_epoch = h.ref_epoch;
  thread = h.thread;
  station = h.station;
  first_sec = h.sec;
  first_frame = h.frame;
  last_sec = h.sec;
  last_frame = h.frame;
}

-- A new empty file of `size` reserved bytes, which is now the current one.
abbrev fresh : OFile → ℕ → Store → Store
fresh f size st = record st {
  written = [];
  reserved = size;
  cur_file = some f.path;
  cur_disk = f.disk;
}

-- `file_open`, for the frame at offset `o` of the memory `m`. The code closes the descriptor of a
-- file that finds no room, and leaves its number in `fd`.
pub file_open : Output → OpenCalls → List ℕ → ℕ → ℕ → OFile → Store → Bool × OFile × Store
unfolding choose_disk
file_open c calls m o start_disk f st =
    elim (choose_disk c calls.statvfs (c.ndisks - start_disk) start_disk) [
      | none ↦ (false, f, st)
      | some d ↦
          let g = opening (parse_vhdr m o) d f in
          let nominal = c.secs_per_file * frames_per_second * vdif_frame_bytes in
          if calls.opened
          then elim calls.fallocate [
            | allocated ↦ (true, record g { fd = live }, fresh g nominal st)
            | unsupported ↦ (true, record g { fd = live }, fresh g 0 st)
            | no_room ↦ (false, record g { fd = stale }, st)
          ]
          else (false, record g { fd = absent }, st)
    ]

-- `ftruncate`, and the bytes that a file holds.
abbrev pub resize : ℕ → List ℕ → List ℕ
resize n xs = take n xs ++ replicate (n - length xs) 0

abbrev pub content : Store → List ℕ
content st = st.written ++ replicate (st.reserved - length st.written) 0

-- `write_sidecar`
pub write_sidecar : OFile → ℕ → Sidecar
write_sidecar f gap_frames_at_close =
    let span_secs =
      if leb f.first_sec f.last_sec then add32 (sub32 f.last_sec f.first_sec) 1 else 1 in
    record {
      file = f.path;
      thread_id = f.thread;
      station_id = f.station;
      epoch = f.ref_epoch;
      start_utc = vdif_to_unix f.ref_epoch f.first_sec;
      first_sec = f.first_sec;
      first_frame = f.first_frame;
      last_sec = f.last_sec;
      last_frame = f.last_frame;
      frame_count = f.frames;
      expected_count = u64 (span_secs * frames_per_second);
      gap_frames_total_at_close = gap_frames_at_close;
      bytes = u64 (f.frames * vdif_frame_bytes);
      disk = f.disk;
    }

-- The end of `file_finalize`: the sidecar, if it can be opened, and the free space.
abbrev close_out : Output → FinalCalls → ℕ → OFile → Store → Store
close_out c calls gaps f st = record st {
  sidecars = st.sidecars ++ (if calls.sidecar_opened then (write_sidecar f gaps ∷ []) else []);
  free_bytes = refresh_free calls.statvfs c.ndisks 0;
}

-- `file_finalize`. On a descriptor that is closed already, `ftruncate`, `close` and `rename` fail.
pub file_finalize : Output → FinalCalls → ℕ → OFile → Store → OFile × Store
unfolding write_sidecar refresh_free
file_finalize c calls gaps f st =
    let exact = f.frames * vdif_frame_bytes in
    let closed = record f { fd = absent } in
    let bytes = if calls.truncated then resize exact (content st) else content st in
    elim f.fd [
      | absent ↦ (f, st)
      | stale ↦ (closed, close_out c calls gaps f st)
      | live ↦ (
        closed,
        close_out c calls gaps f (record st {
          written = [];
          reserved = 0;
          sealed =
              st.sealed ++ (record { name = f.path; revealed = calls.renamed; bytes = bytes } ∷ []);
        }),
      )
    ]

-- The loop of `slab_write` over the memory from offset `o` on.
pub write_loop : List WriteResult → List ℕ → ℕ → ℕ → ℕ → List ℕ → WriteEnd × List ℕ
write_loop [] m o off wlen out = (if leb wlen off then complete else writing, out)
write_loop (r ∷ rs) m o off wlen out =
    let round : WriteEnd × List ℕ = elim r [
      | wrote n ↦ write_loop rs m o (off + n) wlen (out ++ block m (o + off) n)
      | interrupted ↦ write_loop rs m o off wlen out
      | no_space ↦ (gave_up, out)
      | failed ↦ (gave_up, out)
    ] in
    if leb wlen off then (complete, out) else round

-- `wlen`
unfoldable pub write_length : Output → ℕ → ℕ
write_length c bytes =
    if c.use_odirect && not (bytes % page == 0) then (bytes + page - 1) / page * page else bytes

-- The slab's padding.
abbrev pub pad_slab : Output → List ℕ → ℕ → ℕ → List ℕ
pad_slab c m o bytes = poke m (o + bytes) (replicate (write_length c bytes - bytes) 0)

-- The end of `slab_write`, for a loop that has ended so with these bytes in the file.
pub finish_slab : ℕ → OFile → List ℕ → Telemetry → WriteEnd × List ℕ → SlabWritten
finish_slab frames f arena tel (complete, out) = record {
  how = complete;
  file = record f { frames = add64 f.frames frames };
  out = out;
  arena = arena;
  tel = record tel {
    frames_written = add64 tel.frames_written frames;
    bytes_written = add64 tel.bytes_written (frames * vdif_frame_bytes);
  };
}
finish_slab frames f arena tel (gave_up, out) = record {
  how = gave_up;
  file = f;
  out = out;
  arena = arena;
  tel = tel;
}
finish_slab frames f arena tel (writing, out) = record {
  how = writing;
  file = f;
  out = out;
  arena = arena;
  tel = tel;
}

-- `slab_write`, for the slab at offset `o` of the arena, onto what the file holds so far.
pub slab_write :
    Output → List WriteResult → List ℕ → ℕ → ℕ → OFile → List ℕ → Telemetry → SlabWritten
unfolding write_loop write_length finish_slab
slab_write c results arena o frames f out tel =
    let bytes = frames * vdif_frame_bytes in
    let arena' = pad_slab c arena o bytes in
    finish_slab frames f arena' tel (write_loop results arena' o 0 (write_length c bytes) out)
