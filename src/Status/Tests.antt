-- ===== src/Status/Tests.antt =====
-- The main thread on concrete answers.
use bvex_vdif_rfsoc.Base.{ℕ, ◌+◌, ◌≡◌, refl, List, [], ◌∷◌, true, false, none, some, arith, u64}
use bvex_vdif_rfsoc.Text.{codes, same}
use bvex_vdif_rfsoc.Setup.{telemetry_init}
use bvex_vdif_rfsoc.Disk.{Output}
use bvex_vdif_rfsoc.Args.{udp, raw, ring}
use bvex_vdif_rfsoc.Status.{Answers, Main, StatusRound, status_loop, udp_rcvbuf_errors}
use bvex_vdif_rfsoc.Status.Drops.{updates, updates_lem}
use bvex_vdif_rfsoc.Status.Rcvbuf.{
  AreCounters, AllOthers, Counter, line, names, values, value_of, udp_rcvbuf_errors-line,
}
use bvex_vdif_rfsoc.Status.Rounds.{frames_reported, status_loop-ends, status_loop-frames}

abbrev counters : List Counter
counters = (codes "In", 123456) ∷ (codes "RcvbufErrors", 42) ∷ []

ip_other : AllOthers (codes "Ip: 1 2\n" ∷ [])
unfolding same
ip_other = (refl, tt)

counters-AreCounters : AreCounters counters
counters-AreCounters = (
  (refl, (refl, tt)),
  omega arith,
  (
    (
      refl,
      (refl, (refl, (refl, (refl, (refl, (refl, (refl, (refl, (refl, (refl, (refl, tt))))))))))),
    ),
    omega arith,
    tt,
  ),
)

udp_rcvbuf_errors-line_example :
    udp_rcvbuf_errors
      (some (codes "Ip: 1 2\n" ∷ line (names counters) ∷ line (values counters) ∷ []))
    ≡ value_of counters
udp_rcvbuf_errors-line_example =
    udp_rcvbuf_errors-line (codes "Ip: 1 2\n" ∷ []) counters [] ip_other counters-AreCounters

abbrev quiet : Answers
quiet = record { snmp = none; xdp_statistics = none; tp_drops = none }

abbrev dropping : Answers
dropping = record quiet { tp_drops = some 5 }

abbrev main_start : Main
main_start = record {
  tel = telemetry_init;
  store = record {
    written = [];
    reserved = 0;
    sealed = [];
    sidecars = [];
    cur_file = none;
    cur_disk = 0;
    free_bytes = [];
    alarm = false;
  };
  base = none;
  prev_frames = 0;
  prev_bytes = 0;
}

updates_lem_example :
    ((updates raw (dropping ∷ quiet ∷ dropping ∷ []) main_start).tel.kernel_drops ≡ u64 (0 + 10))
    × ((updates ring (dropping ∷ quiet ∷ dropping ∷ []) main_start).tel.kernel_drops ≡ u64 (0 + 10))
    × ((updates udp (dropping ∷ quiet ∷ dropping ∷ []) main_start).tel.kernel_drops ≡ 0)
unfolding udp_rcvbuf_errors
updates_lem_example = updates_lem dropping (quiet ∷ []) dropping main_start refl (omega arith)

abbrev output : Output
output = record { ndisks = 1; min_free = 0; use_odirect = false; secs_per_file = 10 }

abbrev second_at : ℕ → StatusRound
second_at t = record {
  counted = λ t. record t { frames_written = 1000 };
  noted = λ s. s;
  calls = record { opened = true; now = t; fd_open = true; answers = quiet };
  time_now = t;
}

status_loop-ends_example :
    let (reports, s', ended) =
      status_loop raw output 2 100
        (second_at 101 ∷ second_at 102 ∷ second_at 103 ∷ [])
        main_start in
    (ended ≡ true) × (s'.tel.stop ≡ true)
status_loop-ends_example =
    status_loop-ends raw output 2 100 (second_at 101 ∷ []) (second_at 103 ∷ []) (second_at 102)
      main_start (omega arith) (omega arith) (omega arith)

status_loop-frames_example :
    let (reports, s', ended) =
      status_loop raw output 2 100 (second_at 101 ∷ second_at 102 ∷ []) main_start in
    frames_reported 0 reports ≡ s'.prev_frames
status_loop-frames_example =
    status_loop-frames raw output 2 100 (second_at 101 ∷ second_at 102 ∷ []) main_start
      ((refl, (λ t. omega arith), (refl, (λ t. omega arith), tt))) (omega arith)
