-- ===== src/Capture/Frame.antt =====
-- `process_one_frame` as a whole: what becomes of a frame, and that the call always returns.
use native.Mathlib.Decide.{ℕ_discrete}
use bvex_vdif_rfsoc.Base.{ℕ, ◌%◌, ◌≤◌, ◌<◌, ◌≡◌, ◌≢◌, refl, ap, ap₂, sym, ◌∙◌, List, [], ◌∷◌, ◌++◌}
use bvex_vdif_rfsoc.Base.{
  Bool, true, false, not, ◌&&◌, Option, none, some, arith, ◌==◌, inl, inr, ◌⊎◌,
}
use bvex_vdif_rfsoc.Base.{if◌then◌else◌, add32, block, length}
use bvex_vdif_rfsoc.Vdif.{Vhdr, parse_vhdr, vdif_frame_bytes}
use bvex_vdif_rfsoc.Telemetry.{Telemetry, add_bad, add_seen, add_spsc_drop}
use bvex_vdif_rfsoc.Spsc.Refine.{contents}
use bvex_vdif_rfsoc.Capture.{
  Config, CapState, Shared, Outcome, next, Wait, start_gate, account, remember, second_verdict,
  cut_file, pack_frame, process_one_frame, with_tel,
}
use bvex_vdif_rfsoc.Capture.Log.{Entry, log, queue_log, current_log}
use bvex_vdif_rfsoc.Capture.Pool.{IsSized, IsPool, IsPool-retimed}
use bvex_vdif_rfsoc.Capture.Pack.{Packed, SameTiming, pack_frame-Packed}
use bvex_vdif_rfsoc.Capture.Cut.{Cuts, cut_file-Cuts, at_boundary}
use bvex_vdif_rfsoc.Capture.Fate.{
  timed, second_state_slab, second_state_timing, start_gate_slab, start_gate_started, IsReady,
  Follows, rejected, awaited, stored, dropped, Processed,
}

current_log-cong :
    (o o' : Option ℕ) (f f' : ℕ) (m : List ℕ) (c c' n n' : ℕ)
    → o ≡ o'
    → c ≡ c'
    → n ≡ n'
    → (o' ≡ none) ⊎ (f ≡ f')
    → current_log o f m c n ≡ current_log o' f' m c' n'
current_log-cong o o' f f' m c c' n n' eo ec en (inl e) = rw (eo, e)
current_log-cong o o' f f' m c c' n n' eo ec en (inr e) = rw (eo, ec, en, e)

at_boundary-timed :
    (cfg : Config) (h : Vhdr) (s : CapState) → at_boundary cfg h (timed h s) ≡ at_boundary cfg h s
at_boundary-timed cfg h s =
    ap (λ (t : ℕ). h.frame == 0 && (h.sec % cfg.secs_per_file == 0 && not (h.sec == t)))
      (second_state_timing h (remember h s)).4

true≢false : true ≡ false → ⊥
true≢false e = cc

module _ (cfg : Config) (sized : IsSized cfg) (period : 0 < cfg.secs_per_file) (hand : List ℕ)
    (ws_cut ws_full : List Wait) (s : CapState) (sh : Shared) (vdif : List ℕ)
    (ready : IsReady cfg hand s sh) where
  abbrev hdr : Vhdr
  hdr = parse_vhdr vdif 0

  abbrev call : Outcome
  call = process_one_frame cfg ws_cut ws_full s sh vdif

  -- The path of a frame that passes the gate.
  module _ (s1 : CapState) (good : hdr.frame_len ≡ vdif_frame_bytes)
      (gate : start_gate cfg hdr s ≡ some s1) where
    abbrev entry : Shared
    entry =
        with_tel (second_verdict hdr (remember hdr s1))
          (with_tel (account s1 hdr) (with_tel add_seen sh))

    unfolds :
        call
        ≡ cut_file cfg ws_cut hdr
            (timed hdr s1)
            entry
            (λ s4 sh4. pack_frame cfg ws_full vdif s4 sh4)
    unfolding process_one_frame
    unfolds = rw (good, gate)

    log-entry : log cfg (timed hdr s1) entry ≡ log cfg s sh
    log-entry =
        ap (λ t. queue_log cfg sh.desc sh.arena (contents sh.q_full) ++ t)
          (current_log-cong (timed hdr s1).cur_idx s.cur_idx (timed hdr s1).cur_file_id
            s.cur_file_id sh.arena (timed hdr s1).cur s.cur (timed hdr s1).cur_frames s.cur_frames
            ((second_state_slab hdr (remember hdr s1)).0 ∙ (start_gate_slab cfg hdr s s1 gate).0)
            ((second_state_slab hdr (remember hdr s1)).1 ∙ (start_gate_slab cfg hdr s s1 gate).1)
            ((second_state_slab hdr (remember hdr s1)).2 ∙ (start_gate_slab cfg hdr s s1 gate).2)
            same_file)
      where
        same_file : (s.cur_idx ≡ none) ⊎ ((timed hdr s1).cur_file_id ≡ s.cur_file_id)
        same_file = elim (start_gate_started cfg hdr s s1 gate).1 [
          | inl t ↦ inr (
              (second_state_slab hdr (remember hdr s1)).3
              ∙ (start_gate_started cfg hdr s s1 gate).2 t)
          | inr f ↦ inl (ready.idle f)
        ]

    entry-IsPool : IsPool cfg hand (timed hdr s1) entry
    entry-IsPool =
        IsPool-retimed ready.pool (timed hdr s1) entry.tel
          ((second_state_slab hdr (remember hdr s1)).0 ∙ (start_gate_slab cfg hdr s s1 gate).0)
          ((second_state_slab hdr (remember hdr s1)).1 ∙ (start_gate_slab cfg hdr s s1 gate).1)
          ((second_state_slab hdr (remember hdr s1)).2 ∙ (start_gate_slab cfg hdr s s1 gate).2)

    cut : Cuts cfg hand ws_cut hdr (timed hdr s1) entry
    cut = cut_file-Cuts cfg sized period hand ws_cut hdr (timed hdr s1) entry entry-IsPool (
        omega (
          arith,
          ready.room,
          second_state_slab hdr (remember hdr s1),
          start_gate_slab cfg hdr s s1 gate,
        ))

    follows : (after : CapState) → SameTiming cut.after after → Follows cfg hdr s1 after
    follows after same = record {
      started =
          same.0
          ∙ cut.timing.0
          ∙ (second_state_timing hdr (remember hdr s1)).0
          ∙ (start_gate_started cfg hdr s s1 gate).0;
      have_prev = same.1 ∙ cut.timing.1 ∙ (second_state_timing hdr (remember hdr s1)).1;
      prev_sec = same.2 ∙ cut.timing.2 ∙ (second_state_timing hdr (remember hdr s1)).2;
      prev_frame = same.3 ∙ cut.timing.3 ∙ (second_state_timing hdr (remember hdr s1)).3;
      file =
          same.4
          ∙ cut.file
          ∙ ap₂ (λ (b : Bool) (n : ℕ). if b then add32 n 1 else n) (at_boundary-timed cfg hdr s1)
              (second_state_slab hdr (remember hdr s1)).3;
      start =
          same.5
          ∙ cut.start
          ∙ ap₂ (λ (b : Bool) (n : ℕ). if b then hdr.sec else n) (at_boundary-timed cfg hdr s1)
              (second_state_timing hdr (remember hdr s1)).4;
    }

    begun :
        (after : CapState)
        → SameTiming cut.after after
        → after.started ≡ false
        → after.cur_idx ≡ none
    begun after same e = absurd (true≢false (sym (follows after same).started ∙ e))

    passed :
        Packed cfg hand cut.after cut.shared vdif (pack_frame cfg ws_full vdif cut.after cut.shared)
        → Processed cfg hand s sh vdif call
    passed (inl k) = record {
      after = k.after;
      shared = k.shared;
      returns = unfolds ∙ cut.returns (λ s4 sh4. pack_frame cfg ws_full vdif s4 sh4) ∙ k.returns;
      ready = record { pool = k.pool; room = k.room; idle = begun k.after k.timing };
      fate =
          stored s1 good gate (follows k.after k.timing)
            (k.logged
              ∙ ap₂ (λ (t : List Entry) (f : ℕ). t ++ ((f, block vdif 0 vdif_frame_bytes) ∷ []))
                  (cut.logged ∙ log-entry) (sym k.timing.4))
            (k.counted ∙ cut.counted);
    }
    passed (inr (empty, k)) = record {
      after = k.after;
      shared = k.shared;
      returns = unfolds ∙ cut.returns (λ s4 sh4. pack_frame cfg ws_full vdif s4 sh4) ∙ k.returns;
      ready = record { pool = k.pool; room = k.room; idle = begun k.after k.timing };
      fate =
          dropped s1 good gate (follows k.after k.timing) (k.logged ∙ cut.logged ∙ log-entry)
            (k.counted ∙ ap add_spsc_drop cut.counted) (ap contents (sym cut.pool_left) ∙ empty);
    }

  retold : (f : Telemetry → Telemetry) → IsReady cfg hand s (with_tel f sh)
  retold f = record {
    pool = IsPool-retimed ready.pool s (f sh.tel) refl refl refl;
    room = ready.room;
    idle = ready.idle;
  }

  by_gate :
      (o : Option CapState)
      → start_gate cfg hdr s ≡ o
      → hdr.frame_len ≡ vdif_frame_bytes
      → vdif_frame_bytes ≤ length vdif
      → Processed cfg hand s sh vdif call
  unfolding process_one_frame
  by_gate none gate good whole = record {
    after = s;
    shared = with_tel add_seen sh;
    returns = rw (good, gate);
    ready = retold add_seen;
    fate = awaited good gate refl refl;
  }
  by_gate (some s1) gate good whole = passed s1 good gate (
      pack_frame-Packed cfg sized hand (cut s1 good gate).after (cut s1 good gate).shared vdif
        (cut s1 good gate).pool (cut s1 good gate).room whole ws_full)

  bad_length : hdr.frame_len ≢ vdif_frame_bytes → call ≡ next s (with_tel add_bad sh)
  unfolding process_one_frame
  bad_length ne = ground arith

  -- Between calls that are ready, with a positive file period, a slab size that fits an `int` and
  -- 8032 bytes of memory behind the pointer, `process_one_frame` returns 0 whatever its waits would
  -- do, leaves the state ready, and the frame's fate is one of: rejected for its length field,
  -- seen before the start, at the end of the log byte for byte under the current file number, or
  -- dropped and counted with no slab free; the log is otherwise unchanged.
  pub process_one_frame-Processed :
      vdif_frame_bytes ≤ length vdif
      → Processed cfg hand s sh vdif (process_one_frame cfg ws_cut ws_full s sh vdif)
  process_one_frame-Processed whole = elim (ℕ_discrete hdr.frame_len vdif_frame_bytes) [
    | yes good ↦ by_gate (start_gate cfg hdr s) refl good whole
    | no ne ↦ record {
      after = s;
      shared = with_tel add_bad sh;
      returns = bad_length ne;
      ready = retold add_bad;
      fate = rejected ne refl refl;
    }
  ]
