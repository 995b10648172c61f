-- ===== src/Status/Rounds.antt =====
-- The status loop over its rounds.
use mathlib.Core.Path.{subst}
use bvex_vdif_rfsoc.Base.{
  ℕ, ◌+◌, ◌^◌, ◌<◌, ◌≤◌, ◌≡◌, refl, ap, sym, ◌∙◌, List, [], ◌∷◌, ◌++◌, Bool, true, false, inl, inr,
  Bool-cases, if-true, if-false, Option, none, some, add64, sub64, if◌then◌else◌, arith,
}
use bvex_vdif_rfsoc.Telemetry.{Telemetry}
use bvex_vdif_rfsoc.Disk.{Output}
use bvex_vdif_rfsoc.Args.{RxMode, udp, raw, ring, xdp}
use bvex_vdif_rfsoc.Status.{
  Answers, Main, udp_drops, xdp_drops, packet_drops, update_drops, Report, report, StatusCalls,
  write_status, StatusRound, meanwhile, time_is_up, stop_if, take_counts, status_round, status_loop,
}

abbrev with_kernel : ℕ → Option ℕ → Main → Main
with_kernel n b s = record s { tel = record (s.tel) { kernel_drops = n }; base = b }

-- Only the drop counter and its base may have changed.
abbrev Leaves : Main → Main → Type 0
Leaves s s' = (n : ℕ) × (b : Option ℕ) × (with_kernel n b s ≡ s')

Leaves-all : (s : Main) → Leaves s s
Leaves-all s = (s.tel.kernel_drops, s.base, refl)

if-Leaves :
    (b : Bool) (s s1 s2 : Main) → Leaves s s1 → Leaves s s2 → Leaves s (if b then s1 else s2)
if-Leaves true s s1 s2 l1 l2 = l1
if-Leaves false s s1 s2 l1 l2 = l2

udp_drops-Leaves :
    (base : Option ℕ) (cur : ℕ) (s : Main) → base ≡ s.base → Leaves s (udp_drops base cur s)
udp_drops-Leaves none cur s e = (_, _, refl)
udp_drops-Leaves (some b) cur s e = (_, _, refl)

xdp_drops-Leaves : (a : Option (ℕ × ℕ × ℕ × ℕ)) (s : Main) → Leaves s (xdp_drops a s)
xdp_drops-Leaves none s = Leaves-all s
xdp_drops-Leaves (some (d, r, n, i)) s = (_, _, refl)

packet_drops-Leaves : (a : Option ℕ) (s : Main) → Leaves s (packet_drops a s)
packet_drops-Leaves none s = Leaves-all s
packet_drops-Leaves (some n) s = (_, _, refl)

update_drops-Leaves :
    (mode : RxMode) (fd : Bool) (a : Answers) (s : Main) → Leaves s (update_drops mode fd a s)
unfolding update_drops
update_drops-Leaves udp fd a s = udp_drops-Leaves s.base _ s refl
update_drops-Leaves xdp fd a s =
    if-Leaves fd s _ s (xdp_drops-Leaves a.xdp_statistics s) (Leaves-all s)
update_drops-Leaves raw fd a s =
    if-Leaves fd s _ s (packet_drops-Leaves a.tp_drops s) (Leaves-all s)
update_drops-Leaves ring fd a s =
    if-Leaves fd s _ s (packet_drops-Leaves a.tp_drops s) (Leaves-all s)

printed-Leaves :
    (mode : RxMode) (c : Output) (k : StatusCalls) (fps bytes : ℕ) (s : Main) (opened : Bool)
    → let r : Option Report × Main =
        if opened
        then (some (report c k.now fps bytes s), update_drops mode k.fd_open k.answers s)
        else (none, s) in
      Leaves s r.1
printed-Leaves mode c k fps bytes s true = update_drops-Leaves mode k.fd_open k.answers s
printed-Leaves mode c k fps bytes s false = Leaves-all s

write_status-Leaves :
    (mode : RxMode) (c : Output) (k : StatusCalls) (fps bytes : ℕ) (s : Main)
    → Leaves s (write_status mode c k fps bytes s).1
unfolding write_status
write_status-Leaves mode c k fps bytes s = printed-Leaves mode c k fps bytes s k.opened

-- Once the time is up, a round leaves the stop flag set.
status_round-stop :
    (mode : RxMode) (c : Output) (run_secs t0 : ℕ) (r : StatusRound) (s : Main)
    → time_is_up run_secs t0 r.time_now ≡ true
    → (status_round mode c run_secs t0 r s).1.tel.stop ≡ true
unfolding status_round
status_round-stop mode c run_secs t0 r s e =
    ap
      (λ (b : Bool).
        (stop_if b
          (write_status mode c r.calls
            (sub64 (meanwhile r s).tel.frames_written (meanwhile r s).prev_frames)
            (sub64 (meanwhile r s).tel.bytes_written (meanwhile r s).prev_bytes)
            (take_counts (meanwhile r s))).1).tel.stop)
      e

-- The loop has ended exactly when the stop flag is set.
status_loop-ended :
    (mode : RxMode) (c : Output) (run_secs t0 : ℕ) (rs : List StatusRound) (s : Main)
    → (status_loop mode c run_secs t0 rs s).2 ≡ (status_loop mode c run_secs t0 rs s).1.tel.stop
unfolding status_loop
status_loop-ended mode c run_secs t0 [] s = refl
status_loop-ended mode c run_secs t0 (r ∷ rs) s =
    ground (arith, status_loop-ended mode c run_secs t0 rs (status_round mode c run_secs t0 r s).1)

status_loop-stopped :
    (mode : RxMode) (c : Output) (run_secs t0 : ℕ) (rs : List StatusRound) (s : Main)
    → s.tel.stop ≡ true
    → (status_loop mode c run_secs t0 rs s).2 ≡ true
unfolding status_loop
status_loop-stopped mode c run_secs t0 [] s e = e
status_loop-stopped mode c run_secs t0 (r ∷ rs) s e = ground arith

reaches_end :
    (mode : RxMode) (c : Output) (run_secs t0 : ℕ) (before after : List StatusRound)
    (r : StatusRound) (s : Main)
    → time_is_up run_secs t0 r.time_now ≡ true
    → (status_loop mode c run_secs t0 (before ++ r ∷ after) s).2 ≡ true
unfolding status_loop
reaches_end mode c run_secs t0 [] after r s up =
    let s1 = (status_round mode c run_secs t0 r s).1 in
    ground (
      arith,
      status_loop-stopped mode c run_secs t0 after s1 (status_round-stop mode c run_secs t0 r s up),
    )
reaches_end mode c run_secs t0 (b ∷ before) after r s up = ground (
  arith,
  reaches_end mode c run_secs t0 before after r (status_round mode c run_secs t0 b s).1 up,
)

-- With a running time set, the status loop ends by the round in which the clock shows that it is over,
-- whatever the other threads do and the calls answer; the stop flag is then set.
pub status_loop-ends :
    (mode : RxMode) (c : Output) (run_secs t0 : ℕ) (before after : List StatusRound)
    (r : StatusRound) (s : Main)
    → 0 < run_secs
    → run_secs < 2 ^ 63
    → t0 + run_secs ≤ r.time_now
    → let (reports, s', ended) = status_loop mode c run_secs t0 (before ++ r ∷ after) s in
      (ended ≡ true) × (s'.tel.stop ≡ true)
status_loop-ends mode c run_secs t0 before after r s pos long over =
    let e = reaches_end mode c run_secs t0 before after r s (ground arith) in
    (e, sym (status_loop-ended mode c run_secs t0 (before ++ r ∷ after) s) ∙ e)

-- The frame rates reported, and the counter at the start, as a `uint64_t`.
abbrev pub frames_reported : ℕ → List (Option Report) → ℕ
frames_reported n [] = n
frames_reported n (none ∷ reps) = frames_reported n reps
frames_reported n (some rep ∷ reps) = frames_reported (add64 n rep.fps_capture) reps

-- Every report is written, and the other threads keep the counter a `uint64_t`.
abbrev pub AllOpened : List StatusRound → Type 0
AllOpened [] = Unit {0}
AllOpened (r ∷ rs) =
    (r.calls.opened ≡ true)
    × ((t : Telemetry) → (r.counted t).frames_written < 2 ^ 64)
    × AllOpened rs

stop_if-prev_frames : (b : Bool) (s : Main) → (stop_if b s).prev_frames ≡ s.prev_frames
stop_if-prev_frames true s = refl
stop_if-prev_frames false s = refl

rate_adds : (fw prev : ℕ) → fw < 2 ^ 64 → prev < 2 ^ 64 → add64 prev (sub64 fw prev) ≡ fw
rate_adds fw prev h k = omega arith

-- A round with a report: its rate leads from the old count to the new one.
status_round-frames :
    (mode : RxMode) (c : Output) (run_secs t0 : ℕ) (r : StatusRound) (s : Main)
    → r.calls.opened ≡ true
    → (r.counted s.tel).frames_written < 2 ^ 64
    → s.prev_frames < 2 ^ 64
    → let (o, s1) = status_round mode c run_secs t0 r s in
      (rep : Report) × (o ≡ some rep)
      × (add64 s.prev_frames rep.fps_capture ≡ s1.prev_frames)
      × (s1.prev_frames < 2 ^ 64)
unfolding status_round write_status
status_round-frames mode c run_secs t0 r s opened small before =
    let s0 = take_counts (meanwhile r s) in
    let fps = sub64 (r.counted s.tel).frames_written s.prev_frames in
    let bytes = sub64 (r.counted s.tel).bytes_written s.prev_bytes in
    let l = write_status-Leaves mode c r.calls fps bytes s0 in
    let kept : (status_round mode c run_secs t0 r s).1.prev_frames
        ≡ (r.counted s.tel).frames_written =
      stop_if-prev_frames (time_is_up run_secs t0 r.time_now)
        (write_status mode c r.calls fps bytes s0).1
      ∙ sym (ap (λ (x : Main). x.prev_frames) l.2) in
    (
      report c r.calls.now fps bytes s0,
      ap (λ (x : Option Report × Main). x.0) (if-true r.calls.opened _ _ opened),
      rate_adds (r.counted s.tel).frames_written s.prev_frames small before ∙ sym kept,
      subst (λ (n : ℕ). n < 2 ^ 64) (sym kept) small,
    )

abbrev Ended : Type 0
Ended = List (Option Report) × Main × Bool

-- When every report is written, the frame rates of the reports add up, as `uint64_t`, to the frames
-- written: from the count taken at the start to the count taken in the last round.
pub status_loop-frames :
    (mode : RxMode) (c : Output) (run_secs t0 : ℕ) (rs : List StatusRound) (s : Main)
    → AllOpened rs
    → s.prev_frames < 2 ^ 64
    → let (reports, s', ended) = status_loop mode c run_secs t0 rs s in
      frames_reported s.prev_frames reports ≡ s'.prev_frames
unfolding status_loop
status_loop-frames mode c run_secs t0 [] s a small = refl
status_loop-frames mode c run_secs t0 (r ∷ rs) s a small =
    let s1 = (status_round mode c run_secs t0 r s).1 in
    let f = status_round-frames mode c run_secs t0 r s a.0 (a.1 s.tel) small in
    let rest = status_loop-frames mode c run_secs t0 rs s1 a.2 f.3 in
    elim (Bool-cases s.tel.stop) [
      | inl e ↦
          ap (λ (x : Ended). frames_reported s.prev_frames x.0) (if-true s.tel.stop _ _ e)
          ∙ sym (ap (λ (x : Ended). x.1.prev_frames) (if-true s.tel.stop _ _ e))
      | inr e ↦
          ap (λ (x : Ended). frames_reported s.prev_frames x.0) (if-false s.tel.stop _ _ e)
          ∙ ap
              (λ (o : Option Report).
                frames_reported s.prev_frames (o ∷ (status_loop mode c run_secs t0 rs s1).0))
              f.1
          ∙ ap (λ (n : ℕ). frames_reported n (status_loop mode c run_secs t0 rs s1).0) f.2
          ∙ rest
          ∙ sym (ap (λ (x : Ended). x.1.prev_frames) (if-false s.tel.stop _ _ e))
    ]
