-- ===== src/Writer/Rounds.antt =====
-- One round of the writer on a slab.
use mathlib.Core.Path.{subst}
use bvex_vdif_rfsoc.Base.{ℕ, ◌+◌, ◌*◌, ◌^◌, ◌≤◌, ◌<◌, ◌≡◌, sym, inl, inr}
use bvex_vdif_rfsoc.Base.{length, true}
use bvex_vdif_rfsoc.Vdif.{vdif_frame_bytes}
use bvex_vdif_rfsoc.Capture.{SlabDesc, Shared}
use bvex_vdif_rfsoc.Disk.{Output}
use bvex_vdif_rfsoc.Files.{slab_write, write_length}
use bvex_vdif_rfsoc.Files.Seal.{exact}
use bvex_vdif_rfsoc.Files.Written.{slab_write-Appended}
use bvex_vdif_rfsoc.Writer.{Writer, SlabCalls, write_slab, on_file}
use bvex_vdif_rfsoc.Writer.Attempts.{first, unchanged}
use bvex_vdif_rfsoc.Writer.Rolls.{roll_file-cases}
use bvex_vdif_rfsoc.Writer.Refine.{
  IsWriting, Answers, Ends, EndsFor-map, Ends-Since, Stopped-Since, stop-Stopped,
}

module _ (c : Output) (calls : SlabCalls) (idx o : ℕ) (d : SlabDesc) (sh : Shared)
    (ok : Answers c calls d.frames) (small : d.frames < 2 ^ 64) where
  -- A round on a popped slab, when a file that is open for the slab's tag holds whole frames only,
  -- the padded slab lies in the arena, `ftruncate` succeeds and every `write` loop comes to an end:
  -- either the slab's frames are saved byte for byte after all those saved before, in an open file
  -- with the slab's tag, whether or not a disk filled up in between; or the recorder stops with the
  -- alarm set, and what was saved before is saved still. It stops only when a new file was needed
  -- and was refused: no disk from the one to start from on has room, or on the first that has, `open`
  -- failed or `fallocate` found no room; or when a `write` of the slab failed, and the file on the
  -- disks after that one was refused or a `write` to it failed too. In all cases the slab goes back
  -- to the pool.
  pub write_slab-Ends :
      (w : Writer)
      → IsWriting w
      → (w.have_file ≡ true → w.cur_tag ≡ d.file_id → length w.store.written ≡ exact w.file)
      → w.file.frames + d.frames < 2 ^ 64
      → o + write_length c (d.frames * vdif_frame_bytes) ≤ length sh.arena
      → Ends c calls idx o d w sh (write_slab c calls idx o d w sh)
  unfolding write_slab on_file
  write_slab-Ends w v tight word room =
      elim (roll_file-cases c calls o d sh ok small w v tight word) [
        | inl k ↦
            subst (λ p. Ends c calls idx o d w sh (on_file c calls idx o d sh p)) (sym k.returns)
              (Ends-Since (unchanged c calls idx o d sh ok small w k.after sh k.bytes) k.fewer (
                EndsFor-map (λ p. inr (p.0, (k.after.file.disk, k.tried, p.1)))
                  (first c calls idx o d sh ok small k.after
                    (slab_write c calls.write_first sh.arena o d.frames k.after.file
                      k.after.store.written sh.tel)
                    k.opened k.have k.tag k.word room
                    (slab_write-Appended c calls.write_first sh.arena o d.frames k.after.file
                      k.after.store.written sh.tel ok.settles_first room))))
        | inr k ↦
            subst (λ p. Ends c calls idx o d w sh (on_file c calls idx o d sh p)) (sym k.returns)
              (inr (
                Stopped-Since (unchanged c calls idx o d sh ok small w k.after sh k.bytes)
                    (stop-Stopped c idx o d k.after sh),
                inl (k.needed, k.why),
              ))
      ]
