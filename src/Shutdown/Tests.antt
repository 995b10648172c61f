-- ===== src/Shutdown/Tests.antt =====
-- A recording that ends with two frames in the slab that is being filled.
use bvex_vdif_rfsoc.Base.{
  ℕ, ◌≡◌, refl, length, List, [], ◌∷◌, some, true, false, arith, replicate, length-replicate,
}
use bvex_vdif_rfsoc.Telemetry.{Telemetry}
use bvex_vdif_rfsoc.Spsc.{Spsc, spsc_push}
use bvex_vdif_rfsoc.Spsc.Inv.{IsValid}
use bvex_vdif_rfsoc.Capture.{Config, CapState, Shared, push_sleeping, capstate_finish}
use bvex_vdif_rfsoc.Capture.Log.{no_desc, queue_log, current_log}
use bvex_vdif_rfsoc.Capture.Pool.{IsPool}
use bvex_vdif_rfsoc.Writer.{Writer, Round, writer_thread}
use bvex_vdif_rfsoc.Writer.Steps.{saved}
use bvex_vdif_rfsoc.Spsc.Refine.{contents}
use bvex_vdif_rfsoc.Fixtures.{
  running, ready_pool, two_disks, closes, answers, start, start-IsWriting,
}
use bvex_vdif_rfsoc.Shutdown.{writer_thread-misses}

abbrev one_slab : Config
one_slab = record { align_start = true; secs_per_file = 10; frames_per_slab = 128; nslabs = 1 }

arena : List ℕ
arena = replicate 1028096 7

length-arena : length arena ≡ 1028096
unfolding arena
length-arena = length-replicate {A = ℕ} 1028096 7

abbrev no_slabs : Spsc
no_slabs = record { head = 5; tail = 5; cap = 2; mask = 1; buf = 0 ∷ 0 ∷ [] }

no_slabs-IsValid : IsValid no_slabs
no_slabs-IsValid = record {
  log = 1;
  small = omega arith;
  cap_pow = refl;
  mask_ones = refl;
  room = refl;
  head_word = omega arith;
  tail_word = omega arith;
  fill = omega arith;
}

abbrev filling : CapState
filling = record running { cur_idx = some 0; cur_frames = 2 }

abbrev last : Shared
last = record {
  q_free = no_slabs;
  q_full = no_slabs;
  desc = no_desc ∷ [];
  arena = arena;
  tel = ready_pool.shared.tel;
  capture_running = true;
}

abbrev left : Shared
left = record last {
  q_full = record no_slabs { tail = 6 };
  desc = record { frames = 2; file_id = 4; eof = true } ∷ [];
  capture_running = false;
}

finish_left : capstate_finish [] filling last ≡ some left
unfolding capstate_finish push_sleeping spsc_push
finish_left = refl

last-IsPool : IsPool one_slab [] filling last
last-IsPool = record {
  free_valid = no_slabs-IsValid;
  full_valid = no_slabs-IsValid;
  free_cap = omega arith;
  full_cap = omega arith;
  one_owner = λ i. ground arith;
  all_there = refl;
  descs = refl;
  memory = length-arena;
  fits = λ i h. omega (arith, h);
  current = λ i e. ground arith;
  filled = omega arith;
}

abbrev two_rounds : List Round
two_rounds =
    record { meanwhile = λ sh. sh; before_load = λ sh. sh; calls = answers }
    ∷ record { meanwhile = λ sh. sh; before_load = λ sh. sh; calls = answers }
    ∷ []

-- The capture ends between the pop and the load.
abbrev late : Round
late = record { meanwhile = λ sh. sh; before_load = λ sh. left; calls = answers }

writer_thread-misses_example :
    (files : Writer) × (writer_thread one_slab two_disks closes (late ∷ []) start last
      ≡ some (files, left))
    × (saved files ≡ saved start)
    × (queue_log one_slab left.desc left.arena (contents left.q_full)
        ≡ current_log (some 0) 4 arena 0 2)
writer_thread-misses_example =
    writer_thread-misses one_slab two_disks closes [] late [] filling last left start last-IsPool
      refl finish_left refl refl refl start-IsWriting
