-- ===== src/Writer/Attempts.antt =====
-- The attempts at writing a slab: on the open file, then on the next disk.
use mathlib.Core.Path.{subst}
use bvex_vdif_rfsoc.Base.{ℕ, ◌+◌, ◌-◌, ◌*◌, ◌^◌, ◌≤◌, ◌<◌, ◌≡◌, ◌≢◌, refl, ap, sym, ◌∙◌, inl, inr}
use bvex_vdif_rfsoc.Base.{List, arith, length, block, true}
use bvex_vdif_rfsoc.Base.{length-poke, replicate}
use bvex_vdif_rfsoc.Vdif.{vdif_frame_bytes}
use bvex_vdif_rfsoc.Telemetry.{Telemetry}
use bvex_vdif_rfsoc.Capture.{SlabDesc, Shared}
use bvex_vdif_rfsoc.Disk.{Output, OFile, absent, live, WriteResult, complete, gave_up, SlabWritten}
use bvex_vdif_rfsoc.Files.{slab_write, write_length}
use bvex_vdif_rfsoc.Files.Seal.{exact}
use bvex_vdif_rfsoc.Files.Slab.{Fails, gave_up≢complete}
use bvex_vdif_rfsoc.Files.Open.{Refuses}
use bvex_vdif_rfsoc.Base.{◌⊎◌}
use bvex_vdif_rfsoc.Files.Written.{Appended, slab_write-Appended, block-padded}
use bvex_vdif_rfsoc.Writer.{
  Writer, SlabCalls, adopt, open_file, put_writer, put_shared, give_back, disk_full, second_try,
  next_disk, first_try, on_next, from_next,
}
use bvex_vdif_rfsoc.Writer.Steps.{saved, IsOpen, close_file-Closed, open_file-cases, part_saved}
use bvex_vdif_rfsoc.Writer.Refine.{
  Answers, EndsFor, EndsFor-map, NoSecond, Since, Ends-Since, Stopped-Since, stop-Stopped, finish,
}
use bvex_vdif_rfsoc.Writer.Kept.{Kept-all, Kept-put_shared}

module _ (c : Output) (calls : SlabCalls) (idx o : ℕ) (d : SlabDesc) (sh : Shared)
    (ok : Answers c calls d.frames) (small : d.frames < 2 ^ 64) where
  abbrev wlen : ℕ
  wlen = write_length c (d.frames * vdif_frame_bytes)

  -- The slab after a write that gave up.
  abandoned :
      (results : List WriteResult) (w : Writer) (sh0 : Shared) (r : SlabWritten)
      → IsOpen w
      → Appended c sh0.arena o d.frames w.file w.store.written sh0.tel results r
      → r.how ≡ gave_up
      → Since c o d w (put_writer r w) sh0 (put_shared r sh0)
  abandoned results w sh0 r opened a e =
      let ne : r.how ≢ complete = λ x. gave_up≢complete (sym e ∙ x) in
      record {
        bytes = part_saved c sh0.arena o d w sh0.tel results r opened a ne;
        slab =
            ap (λ m. block m o (d.frames * vdif_frame_bytes)) a.slab
            ∙ block-padded c results sh0.arena o d.frames w.file w.store.written sh0.tel;
        pool = refl;
        counted = ap (λ (t : Telemetry). t.frames_written) (a.same_tel ne);
        kept = Kept-put_shared c o (d.frames * vdif_frame_bytes) r sh0 a.slab;
      }

  -- Only the files have changed, and hold what they held.
  pub unchanged : (w w' : Writer) (sh0 : Shared) → saved w' ≡ saved w → Since c o d w w' sh0 sh0
  unchanged w w' sh0 e = record {
    bytes = e;
    slab = refl;
    pool = refl;
    counted = refl;
    kept = Kept-all o wlen sh0;
  }

  second_try-complete :
      (w : Writer) (sh0 : Shared) (r : SlabWritten)
      → r.how ≡ complete
      → second_try idx o d w sh0 r ≡ give_back idx o d (adopt d (put_writer r w)) (put_shared r sh0)
  unfolding second_try
  second_try-complete w sh0 r e = rw e

  second_try-gave_up :
      (w : Writer) (sh0 : Shared) (r : SlabWritten)
      → r.how ≡ gave_up
      → second_try idx o d w sh0 r ≡ disk_full idx (put_writer r w) (put_shared r sh0)
  unfolding second_try
  second_try-gave_up w sh0 r e = rw e

  first_try-complete :
      (w : Writer) (r : SlabWritten)
      → r.how ≡ complete
      → first_try c calls idx o d w sh r ≡ give_back idx o d (put_writer r w) (put_shared r sh)
  unfolding first_try
  first_try-complete w r e = rw e

  first_try-gave_up :
      (w : Writer) (r : SlabWritten)
      → r.how ≡ gave_up
      → first_try c calls idx o d w sh r
        ≡ next_disk c calls idx o d (put_writer r w) (put_shared r sh)
  unfolding first_try
  first_try-gave_up w r e = rw e

  second :
      (w : Writer) (sh0 : Shared) (r : SlabWritten)
      → IsOpen w
      → w.file.frames ≡ 0
      → Appended c sh0.arena o d.frames w.file w.store.written sh0.tel calls.write_again r
      → EndsFor (Fails calls.write_again wlen) c idx o d w sh0 (second_try idx o d w sh0 r)
  second w sh0 r opened empty a = elim a.ended [
    | inl e ↦
        subst (EndsFor (Fails calls.write_again wlen) c idx o d w sh0)
          (sym (second_try-complete w sh0 r e))
          (inl (
            finish c idx o d calls.write_again w sh0 r true d.file_id opened
              (omega (arith, empty, small)) a e refl refl))
    | inr e ↦
        subst (EndsFor (Fails calls.write_again wlen) c idx o d w sh0)
          (sym (second_try-gave_up w sh0 r e))
          (inr (
            Stopped-Since (abandoned calls.write_again w sh0 r opened a e)
                (stop-Stopped c idx o d (put_writer r w) (put_shared r sh0)),
            a.fails e,
          ))
  ]

  abbrev NotNext : ℕ → Type 0
  NotNext start = Refuses c calls.open_next start ⊎ Fails calls.write_again wlen

  -- The next disk, with the bytes saved so far.
  retried :
      (w : Writer) (sh0 : Shared)
      → w.file.fd ≡ absent
      → o + wlen ≤ length sh0.arena
      → EndsFor
          (NotNext w.start_disk)
          c
          idx
          o
          d
          w
          sh0
          (on_next c calls idx o d sh0 (open_file c calls.open_next sh0.arena o w))
  unfolding on_next
  retried w sh0 closed room = elim (open_file-cases c calls.open_next sh0.arena o w closed) [
    | inl g ↦
        subst (λ p. EndsFor (NotNext w.start_disk) c idx o d w sh0 (on_next c calls idx o d sh0 p))
          (sym g.returns)
          (Ends-Since (unchanged w g.after sh0 g.bytes) (omega (arith, g.empty)) (
            EndsFor-map inr (
              second g.after sh0
                (slab_write c calls.write_again sh0.arena o d.frames g.after.file
                  g.after.store.written sh0.tel)
                g.opened g.empty
                (slab_write-Appended c calls.write_again sh0.arena o d.frames g.after.file
                  g.after.store.written sh0.tel ok.settles_again room))))
    | inr g ↦
        subst (λ p. EndsFor (NotNext w.start_disk) c idx o d w sh0 (on_next c calls idx o d sh0 p))
          (sym g.returns)
          (inr (
            Stopped-Since (unchanged w g.after sh0 g.bytes) (stop-Stopped c idx o d g.after sh0),
            inl g.why,
          ))
  ]

  next_disk-Ends :
      (w : Writer) (sh0 : Shared)
      → w.file.fd ≡ live
      → exact w.file ≤ length w.store.written
      → o + wlen ≤ length sh0.arena
      → EndsFor
          (NoSecond c calls d.frames w.file.disk)
          c
          idx
          o
          d
          w
          sh0
          (next_disk c calls idx o d w sh0)
  unfolding next_disk
  next_disk-Ends w sh0 opened holds room =
      let k =
        close_file-Closed c calls.close_full sh0.tel.gap_frames w opened ok.trims_full holds in
      subst
        (λ x.
          EndsFor (NoSecond c calls d.frames w.file.disk) c idx o d w sh0
            (on_next c calls idx o d sh0 (open_file c calls.open_next sh0.arena o (from_next x))))
        (sym k.returns)
        (Ends-Since (unchanged w (from_next k.after) sh0 k.bytes) (omega (arith, k.frames)) (
          subst
            (λ n. EndsFor (NotNext (n + 1)) c idx o d (from_next k.after) sh0 (
              on_next c calls idx o d sh0
                (open_file c calls.open_next sh0.arena o (from_next k.after))))
            k.same_disk (retried (from_next k.after) sh0 k.fd room)))

  same_arena :
      (w : Writer) (r : SlabWritten)
      → Appended c sh.arena o d.frames w.file w.store.written sh.tel calls.write_first r
      → length r.arena ≡ length sh.arena
  same_arena w r a =
      ap (length {A = ℕ}) a.slab
      ∙ length-poke sh.arena (o + d.frames * vdif_frame_bytes)
          (replicate (wlen - d.frames * vdif_frame_bytes) 0)

  abbrev pub NotWhole : ℕ → Type 0
  NotWhole disk = Fails calls.write_first wlen × NoSecond c calls d.frames disk

  pub first :
      (w : Writer) (r : SlabWritten)
      → IsOpen w
      → w.have_file ≡ true
      → w.cur_tag ≡ d.file_id
      → w.file.frames + d.frames < 2 ^ 64
      → o + wlen ≤ length sh.arena
      → Appended c sh.arena o d.frames w.file w.store.written sh.tel calls.write_first r
      → EndsFor (NotWhole w.file.disk) c idx o d w sh (first_try c calls idx o d w sh r)
  first w r opened have tag word room a = elim a.ended [
    | inl e ↦
        subst (EndsFor (NotWhole w.file.disk) c idx o d w sh) (sym (first_try-complete w r e)) (
          inl (
            finish c idx o d calls.write_first w sh r w.have_file w.cur_tag opened word a e have
              tag))
    | inr e ↦
        subst (EndsFor (NotWhole w.file.disk) c idx o d w sh) (sym (first_try-gave_up w r e)) (
          Ends-Since (abandoned calls.write_first w sh r opened a e)
            (omega (
              arith,
              ap (λ (f : OFile). f.frames) (a.same_file (λ x. gave_up≢complete (sym e ∙ x))),
            ))
            (EndsFor-map
              (λ p. (
                a.fails e,
                subst (NoSecond c calls d.frames)
                    (ap (λ (f : OFile). f.disk) (a.same_file (λ x. gave_up≢complete (sym e ∙ x))))
                    p,
              ))
              (next_disk-Ends (put_writer r w) (put_shared r sh)
                (ap (λ (f : OFile). f.fd) (a.same_file (λ x. gave_up≢complete (sym e ∙ x)))
                  ∙ opened.fd)
                (omega (
                  arith,
                  ap exact (a.same_file (λ x. gave_up≢complete (sym e ∙ x))),
                  a.longer,
                  opened.tight,
                ))
                (omega (arith, room, same_arena w r a)))))
  ]
