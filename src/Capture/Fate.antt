-- ===== src/Capture/Fate.antt =====
-- What becomes of a frame that `process_one_frame` is given: the cases, and the steps before the cut.
use bvex_vdif_rfsoc.Base.{ℕ, ◌<◌, ◌≡◌, ◌≢◌, List, [], ◌∷◌, ◌++◌}
use bvex_vdif_rfsoc.Base.{true, false, none, some, arith, ◌⊎◌}
use bvex_vdif_rfsoc.Base.{if◌then◌else◌, add32, block}
use bvex_vdif_rfsoc.Vdif.{Vhdr, parse_vhdr, vdif_frame_bytes}
use bvex_vdif_rfsoc.Telemetry.{Telemetry, add_bad, add_seen, add_spsc_drop}
use bvex_vdif_rfsoc.Spsc.Refine.{contents}
use bvex_vdif_rfsoc.Capture.{
  Config, CapState, Shared, Outcome, next, start_gate, account, remember, second_state,
  second_verdict, with_tel,
}
use bvex_vdif_rfsoc.Capture.Log.{log}
use bvex_vdif_rfsoc.Capture.Pool.{IsPool}
use bvex_vdif_rfsoc.Capture.Cut.{at_boundary}

-- The telemetry after the accounting of a frame that passed the gate in state `s1`.
abbrev pub observed : Vhdr → CapState → Telemetry → Telemetry
observed h s1 t = second_verdict h (remember h s1) (account s1 h (add_seen t))

-- The capture state when the cut is reached.
abbrev pub timed : Vhdr → CapState → CapState
timed h s1 = second_state h (remember h s1)

pub second_state_slab :
    (h : Vhdr) (s : CapState)
    → ((second_state h s).cur_idx ≡ s.cur_idx)
      × ((second_state h s).cur ≡ s.cur)
      × ((second_state h s).cur_frames ≡ s.cur_frames)
      × ((second_state h s).cur_file_id ≡ s.cur_file_id)
unfolding second_state
second_state_slab h s = ground arith

pub second_state_timing :
    (h : Vhdr) (s : CapState)
    → ((second_state h s).started ≡ s.started)
      × ((second_state h s).have_prev ≡ s.have_prev)
      × ((second_state h s).prev_sec ≡ s.prev_sec)
      × ((second_state h s).prev_frame ≡ s.prev_frame)
      × ((second_state h s).file_start_sec ≡ s.file_start_sec)
unfolding second_state
second_state_timing h s = ground arith

pub start_gate_slab :
    (cfg : Config) (h : Vhdr) (s s1 : CapState)
    → start_gate cfg h s ≡ some s1
    → (s1.cur_idx ≡ s.cur_idx) × (s1.cur ≡ s.cur) × (s1.cur_frames ≡ s.cur_frames)
unfolding start_gate
start_gate_slab cfg h s s1 e = ground arith

pub start_gate_started :
    (cfg : Config) (h : Vhdr) (s s1 : CapState)
    → start_gate cfg h s ≡ some s1
    → (s1.started ≡ true)
      × ((s.started ≡ true) ⊎ (s.started ≡ false))
      × (s.started ≡ true → s1.cur_file_id ≡ s.cur_file_id)
unfolding start_gate
start_gate_started cfg h s s1 e = ground arith

pub start_gate_running :
    (cfg : Config) (h : Vhdr) (s : CapState) → s.started ≡ true → start_gate cfg h s ≡ some s
unfolding start_gate
start_gate_running cfg h s e = rw e

-- The verdict on the second touches no counter.
pub second_verdict_counts :
    (h : Vhdr) (s : CapState) (t : Telemetry)
    → ((second_verdict h s t).gap_frames ≡ t.gap_frames)
      × ((second_verdict h s t).frames_seen ≡ t.frames_seen)
      × ((second_verdict h s t).dup ≡ t.dup)
      × ((second_verdict h s t).ooo ≡ t.ooo)
      × ((second_verdict h s t).bad_frames ≡ t.bad_frames)
      × ((second_verdict h s t).spsc_drops ≡ t.spsc_drops)
unfolding second_verdict
second_verdict_counts h s t = ground arith

-- What holds between calls: the pool is in order, the current slab has room, and no slab is taken
-- before the recording starts.
pub record IsReady (cfg : Config) (hand : List ℕ) (s : CapState) (sh : Shared) : Type 0 where
  pub pool : IsPool cfg hand s sh
  pub room : s.cur_frames < cfg.frames_per_slab
  pub idle : s.started ≡ false → s.cur_idx ≡ none

-- What the state remembers of a frame with header `h` that passed the gate in state `s1`.
pub record Follows (cfg : Config) (h : Vhdr) (s1 after : CapState) : Type 0 where
  pub started : after.started ≡ true
  pub have_prev : after.have_prev ≡ true
  pub prev_sec : after.prev_sec ≡ h.sec
  pub prev_frame : after.prev_frame ≡ h.frame
  pub file :
      after.cur_file_id ≡ (if at_boundary cfg h s1 then add32 s1.cur_file_id 1 else s1.cur_file_id)
  pub start : after.file_start_sec ≡ (if at_boundary cfg h s1 then h.sec else s1.file_start_sec)

-- What became of a frame: it was rejected for its length, it came before the start, it stands at
-- the end of the log under the current file, or it was dropped since no slab was free.
pub data Fate (cfg : Config) (s : CapState) (sh : Shared) (vdif : List ℕ) (after : CapState)
    (shared : Shared) : Type 0 where
  rejected :
      (parse_vhdr vdif 0).frame_len ≢ vdif_frame_bytes
      → after ≡ s
      → shared ≡ with_tel add_bad sh
      → Fate cfg s sh vdif after shared
  awaited :
      (parse_vhdr vdif 0).frame_len ≡ vdif_frame_bytes
      → start_gate cfg (parse_vhdr vdif 0) s ≡ none
      → after ≡ s
      → shared ≡ with_tel add_seen sh
      → Fate cfg s sh vdif after shared
  stored :
      (s1 : CapState)
      → (parse_vhdr vdif 0).frame_len ≡ vdif_frame_bytes
      → start_gate cfg (parse_vhdr vdif 0) s ≡ some s1
      → Follows cfg (parse_vhdr vdif 0) s1 after
      → log cfg after shared
        ≡ log cfg s sh ++ ((after.cur_file_id, block vdif 0 vdif_frame_bytes) ∷ [])
      → shared.tel ≡ observed (parse_vhdr vdif 0) s1 sh.tel
      → Fate cfg s sh vdif after shared
  dropped :
      (s1 : CapState)
      → (parse_vhdr vdif 0).frame_len ≡ vdif_frame_bytes
      → start_gate cfg (parse_vhdr vdif 0) s ≡ some s1
      → Follows cfg (parse_vhdr vdif 0) s1 after
      → log cfg after shared ≡ log cfg s sh
      → shared.tel ≡ add_spsc_drop (observed (parse_vhdr vdif 0) s1 sh.tel)
      → contents sh.q_free ≡ []
      → Fate cfg s sh vdif after shared

-- The call returned 0, left the state ready for the next call, and decided the frame's fate.
pub record Processed (cfg : Config) (hand : List ℕ) (s : CapState) (sh : Shared) (vdif : List ℕ)
    (o : Outcome) : Type 0 where
  pub after : CapState
  pub shared : Shared
  pub returns : o ≡ next after shared
  pub ready : IsReady cfg hand after shared
  pub fate : Fate cfg s sh vdif after shared
