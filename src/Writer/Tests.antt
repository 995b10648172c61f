-- ===== src/Writer/Tests.antt =====
-- A slab of two frames, written to a new file after the first disk filled up within it.
use bvex_vdif_rfsoc.Base.{refl, false, arith, sym, ◌∙◌}
use bvex_vdif_rfsoc.Fixtures.{two_disks, answers, start, start-IsWriting, start_empty}
use bvex_vdif_rfsoc.Fixtures.{memory, length-memory, ready_pool}
use bvex_vdif_rfsoc.Capture.{SlabDesc, Shared}
use bvex_vdif_rfsoc.Files.{write_length}
use bvex_vdif_rfsoc.Writer.{write_slab}
use bvex_vdif_rfsoc.Writer.Refine.{Answers, Ends, true≢false}
use bvex_vdif_rfsoc.Writer.Rounds.{write_slab-Ends}

abbrev two_frames : SlabDesc
two_frames = record { frames = 2; file_id = 4; eof = false }

answered : Answers two_disks answers 2
unfolding write_length
answered = record {
  trims_old = refl;
  trims_full = refl;
  settles_first = omega arith;
  settles_again = omega arith;
}

-- The arena of the fixture, with nothing queued.
abbrev at_rest : Shared
at_rest = record ready_pool.shared { arena = memory }

write_slab-Ends_example :
    Ends two_disks answers 0 0 two_frames start at_rest
      (write_slab two_disks answers 0 0 two_frames start at_rest)
unfolding write_length
write_slab-Ends_example =
    write_slab-Ends two_disks answers 0 0 two_frames at_rest answered (omega arith) start
      start-IsWriting (λ e f. absurd (true≢false (sym e ∙ start_empty.0)))
      (omega (arith, start_empty.1)) (omega (arith, length-memory))
