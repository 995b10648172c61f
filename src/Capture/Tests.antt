-- ===== src/Capture/Tests.antt =====
-- The capture side on concrete frames.
use bvex_vdif_rfsoc.Base.{ℕ, ◌≡◌, refl, [], arith}
use bvex_vdif_rfsoc.Vdif.{Vhdr}
use bvex_vdif_rfsoc.Vdif.Stream.{position}
use bvex_vdif_rfsoc.Telemetry.{add_gap, add_ooo}
use bvex_vdif_rfsoc.Setup.{telemetry_init}
use bvex_vdif_rfsoc.Fixtures.{
  small, small-IsSized, running, ready_pool, frame_zero, length-frame_zero,
}
use bvex_vdif_rfsoc.Capture.{account, remember, process_one_frame, capstate_init}
use bvex_vdif_rfsoc.Capture.Account.{account_refines, account_swap, judge, prev_position}
use bvex_vdif_rfsoc.Capture.Fate.{Processed}
use bvex_vdif_rfsoc.Capture.Frame.{process_one_frame-Processed}
use bvex_vdif_rfsoc.Capture.Finish.{Finished, capstate_finish-Finished}

abbrev header : ℕ → ℕ → Vhdr
header sec frame = record {
  sec = sec;
  frame = frame;
  ref_epoch = 52;
  thread = 0;
  station = 0;
  frame_len = 8032;
  bps_m1 = 1;
  data_type = 1;
}

gap_of_three : (account running (header 121 103) telemetry_init).gap_frames ≡ 3
unfolding account
gap_of_three = refl

account_refines_example :
    account running (header 122 1) telemetry_init
    ≡ judge (prev_position running) (position 122 1) telemetry_init
account_refines_example =
    account_refines running (header 122 1) telemetry_init refl (omega arith) (omega arith)

account_swap_example :
    account (remember (header 121 100) (remember (header 121 101) running)) (header 121 102) (
      account
        (remember (header 121 101) running)
        (header 121 100)
        (account running (header 121 101) telemetry_init))
    ≡ add_gap 1 (add_ooo (add_gap 1 telemetry_init))
account_swap_example =
    account_swap running (header 121 101) (header 121 100) (header 121 102) telemetry_init refl
      (omega arith) (omega arith) (omega arith) (omega arith) refl refl refl

process_one_frame-Processed_example :
    Processed small [] capstate_init ready_pool.shared frame_zero
      (process_one_frame small [] [] capstate_init ready_pool.shared frame_zero)
process_one_frame-Processed_example =
    process_one_frame-Processed small small-IsSized (omega arith) [] [] [] capstate_init
      ready_pool.shared frame_zero ready_pool.ready length-frame_zero

-- After the first frame of a recording.
recorded_one :
    Processed small [] capstate_init ready_pool.shared frame_zero
      (process_one_frame small [] [] capstate_init ready_pool.shared frame_zero)
recorded_one =
    process_one_frame-Processed small small-IsSized (omega arith) [] [] [] capstate_init
      ready_pool.shared frame_zero ready_pool.ready length-frame_zero

capstate_finish-Finished_example : Finished small [] recorded_one.after recorded_one.shared
capstate_finish-Finished_example =
    capstate_finish-Finished small [] [] recorded_one.after recorded_one.shared
      recorded_one.ready.pool
