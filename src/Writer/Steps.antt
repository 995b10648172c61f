-- ===== src/Writer/Steps.antt =====
-- The calls of the writer on the files, as steps that keep what has been recorded.
use mathlib.Core.List.{append_assoc, append-nil}
use bvex_vdif_rfsoc.Base.{ℕ, ◌+◌, ◌*◌, ◌^◌, ◌≤◌, ◌<◌, ◌≡◌, ◌≢◌, refl, ap, sym, ◌∙◌, ◌⊎◌, inl, inr}
use bvex_vdif_rfsoc.Base.{List, [], ◌++◌, arith, length, take, block, true, false, Bool}
use bvex_vdif_rfsoc.Vdif.{vdif_frame_bytes}
use bvex_vdif_rfsoc.Telemetry.{Telemetry}
use bvex_vdif_rfsoc.Capture.{SlabDesc}
use bvex_vdif_rfsoc.Disk.{
  Output, OFile, Fd, absent, live, Store, FinalCalls, OpenCalls, WriteResult, complete, SlabWritten,
}
use bvex_vdif_rfsoc.Files.Seal.{recorded, sealed_bytes, open_bytes, exact, file_finalize-Finalized}
use bvex_vdif_rfsoc.Files.Open.{Refuses, file_open-cases}
use bvex_vdif_rfsoc.Files.{has_room}
use bvex_vdif_rfsoc.Files.Written.{Appended, take-append_self}
use bvex_vdif_rfsoc.Writer.{Writer, close_file, open_file, put_writer}

abbrev pub saved : Writer → List ℕ
saved w = recorded w.file w.store

take_all : (xs : List ℕ) → take (length xs) xs ≡ xs
take_all xs = ap (take (length xs)) (sym (append-nil xs)) ∙ take-append_self xs []

open_bytes-live : (fd : Fd) (n : ℕ) (out : List ℕ) → fd ≡ live → open_bytes fd n out ≡ take n out
open_bytes-live fd n out e = rw e

-- A file is open and holds its frames and nothing else.
pub record IsOpen (w : Writer) : Type 0 where
  pub fd : w.file.fd ≡ live
  pub tight : length w.store.written ≡ exact w.file

-- `w'` has the file closed, and the same bytes saved.
pub record Closed (c : Output) (calls : FinalCalls) (gaps : ℕ) (w : Writer) : Type 0 where
  pub after : Writer
  pub returns : close_file c calls gaps w ≡ after
  pub fd : after.file.fd ≡ absent
  pub bytes : saved after ≡ saved w
  pub frames : after.file.frames ≡ w.file.frames
  pub same_disk : after.file.disk ≡ w.file.disk
  pub start : after.start_disk ≡ w.file.disk

pub close_file-Closed :
    (c : Output) (calls : FinalCalls) (gaps : ℕ) (w : Writer)
    → w.file.fd ≡ live
    → calls.truncated ≡ true
    → exact w.file ≤ length w.store.written
    → Closed c calls gaps w
unfolding close_file
close_file-Closed c calls gaps w opened trims holds =
    let k = file_finalize-Finalized c calls gaps w.file w.store opened trims holds in
    record {
      after = close_file c calls gaps w;
      returns = refl;
      fd = ap (λ (p : OFile × Store). p.0.fd) k.returns ∙ k.closed;
      bytes = ap (λ (p : OFile × Store). recorded p.0 p.1) k.returns ∙ k.recording;
      frames = ap (λ (p : OFile × Store). p.0.frames) k.returns ∙ k.same_frames;
      same_disk = ap (λ (p : OFile × Store). p.0.disk) k.returns ∙ k.same_disk;
      start = ap (λ (p : OFile × Store). p.0.disk) k.returns ∙ k.same_disk;
    }

-- `open_file` from a closed file.
pub record Fresh (c : Output) (calls : OpenCalls) (m : List ℕ) (o : ℕ) (w : Writer) : Type 0 where
  pub after : Writer
  pub returns : open_file c calls m o w ≡ (true, after)
  pub opened : IsOpen after
  pub empty : after.file.frames ≡ 0
  pub bytes : saved after ≡ saved w
  pub room : has_room c (calls.statvfs after.file.disk) ≡ true

pub record NoFile (c : Output) (calls : OpenCalls) (m : List ℕ) (o : ℕ) (w : Writer) : Type 0 where
  pub after : Writer
  pub returns : open_file c calls m o w ≡ (false, after)
  pub bytes : saved after ≡ saved w
  pub why : Refuses c calls w.start_disk

pub open_file-cases :
    (c : Output) (calls : OpenCalls) (m : List ℕ) (o : ℕ) (w : Writer)
    → w.file.fd ≡ absent
    → Fresh c calls m o w ⊎ NoFile c calls m o w
unfolding open_file
open_file-cases c calls m o w closed =
    elim (file_open-cases c calls m o w.start_disk w.file w.store) [
      | inl k ↦ inl (record {
        after = record w { file = k.after; store = k.store };
        returns =
            ap (λ (p : Bool × OFile × Store). (p.0, record w { file = p.1; store = p.2 }))
              k.returns;
        opened = record { fd = k.fd; tight = rw (k.nothing, k.empty) refl };
        empty = k.empty;
        bytes = rw (k.sealed, k.fd, k.nothing, closed, k.empty) refl;
        room = k.room;
      })
      | inr k ↦ inr (record {
        after = record w { file = k.after };
        returns =
            ap (λ (p : Bool × OFile × Store). (p.0, record w { file = p.1; store = p.2 }))
              k.returns;
        bytes =
            ap (λ t. sealed_bytes w.store.sealed ++ t)
              (k.not_live closed (exact k.after) w.store.written
                ∙ sym (ap (λ d. open_bytes d (exact w.file) w.store.written) closed));
        why = k.why;
      })
    ]

module _ (c : Output) (arena : List ℕ) (o : ℕ) (d : SlabDesc) (w : Writer) (tel : Telemetry)
    (results : List WriteResult) (r : SlabWritten) (opened : IsOpen w)
    (a : Appended c arena o d.frames w.file w.store.written tel results r) where
  -- A slab that was written whole.
  pub whole_exact :
      w.file.frames + d.frames < 2 ^ 64
      → r.how ≡ complete
      → exact r.file ≡ exact w.file + d.frames * vdif_frame_bytes
  whole_exact word e = omega (arith, ap (λ (f : OFile). f.frames) (a.file e))

  pub whole_saved :
      w.file.frames + d.frames < 2 ^ 64
      → r.how ≡ complete
      → saved (put_writer r w) ≡ saved w ++ block arena o (d.frames * vdif_frame_bytes)
  whole_saved word e =
      ap (λ t. sealed_bytes w.store.sealed ++ t) (grows ∙ ap (λ t. t ++ slab) (sym all))
      ∙ sym (
          append_assoc (sealed_bytes w.store.sealed)
            (open_bytes w.file.fd (exact w.file) w.store.written) slab)
    where
      slab : List ℕ
      slab = block arena o (d.frames * vdif_frame_bytes)

      all : open_bytes w.file.fd (exact w.file) w.store.written ≡ w.store.written
      all =
          open_bytes-live w.file.fd (exact w.file) w.store.written opened.fd
          ∙ ap (λ n. take n w.store.written) (sym opened.tight)
          ∙ take_all w.store.written

      longer : exact r.file ≡ length w.store.written + d.frames * vdif_frame_bytes
      longer = omega (arith, whole_exact word e, opened.tight)

      grows : open_bytes r.file.fd (exact r.file) r.out ≡ w.store.written ++ slab
      grows =
          open_bytes-live r.file.fd (exact r.file) r.out
            (ap (λ (f : OFile). f.fd) (a.file e) ∙ opened.fd)
          ∙ ap (λ n. take n r.out) longer
          ∙ a.grown e

  -- A slab that was not: the file still holds its frames.
  pub part_saved : r.how ≢ complete → saved (put_writer r w) ≡ saved w
  part_saved ne =
      ap (λ t. sealed_bytes w.store.sealed ++ t)
        (open_bytes-live r.file.fd (exact r.file) r.out
            (ap (λ (f : OFile). f.fd) (a.same_file ne) ∙ opened.fd)
          ∙ ap (λ n. take n r.out) same
          ∙ a.kept
          ∙ sym (take_all w.store.written)
          ∙ ap (λ n. take n w.store.written) opened.tight
          ∙ sym (open_bytes-live w.file.fd (exact w.file) w.store.written opened.fd))
    where
      same : exact r.file ≡ length w.store.written
      same = ap exact (a.same_file ne) ∙ sym opened.tight
