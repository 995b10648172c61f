-- ===== src/Capture.antt =====
-- host/vdif_recorder.c, the capture side: `capstate_t`, `capstate_init`, `process_one_frame` and
-- `capstate_finish`, with the slab descriptors and the arena that they write.
--
-- The state that the threads share is passed along explicitly. Where the code waits for room in
-- `q_full`, each round of the loop is one entry of a list that says how `g_stop` reads and what the
-- other threads did to the shared state meanwhile; `spin` is a loop that is still waiting when the
-- list ends.
mod Tests
pub mod Account
pub mod Log
pub mod Pool
pub mod Pack
pub mod Cut
pub mod Fate
pub mod Frame
pub mod Finish
pub mod Tally
use bvex_vdif_rfsoc.Base.{ℕ, ◌+◌, ◌*◌, ◌%◌, List, [], ◌∷◌, Bool, true, false, not, ◌&&◌, ◌||◌}
use bvex_vdif_rfsoc.Base.{Option, none, some, ltb, leb, ◌==◌, if◌then◌else◌, set, poke, block}
use bvex_vdif_rfsoc.Base.{add32, sub32, add64, sub64, u32, u64}
use mathlib.Core.Option
use bvex_vdif_rfsoc.Vdif.{vdif_frame_bytes, frames_per_second, Vhdr, parse_vhdr}
use bvex_vdif_rfsoc.Telemetry.{Telemetry, add_bad, add_seen, add_dup, add_ooo, add_gap}
use bvex_vdif_rfsoc.Telemetry.{add_spsc_drop}
use bvex_vdif_rfsoc.Spsc.{Spsc, spsc_push, spsc_pop}

-- The settings that the capture thread reads: `g_align_start`, `g_secs_per_file`,
-- `g_frames_per_slab`, `g_nslabs`.
pub record Config : Type 0 where
  pub align_start : Bool
  pub secs_per_file : ℕ
  pub frames_per_slab : ℕ
  pub nslabs : ℕ

-- `g_slab_bytes`, an `unsigned` product
abbrev pub slab_bytes : Config → ℕ
slab_bytes cfg = u32 (cfg.frames_per_slab * vdif_frame_bytes)

-- `slabdesc_t`
pub record SlabDesc : Type 0 where
  pub frames : ℕ
  pub file_id : ℕ
  pub eof : Bool

-- `capstate_t`; a `cur_idx` of -1 is `none`, and `cur` is an offset into the arena.
pub record CapState : Type 0 where
  pub cur_idx : Option ℕ
  pub cur : ℕ
  pub cur_frames : ℕ
  pub cur_file_id : ℕ
  pub started : Bool
  pub file_start_sec : ℕ
  pub have_prev : Bool
  pub prev_sec : ℕ
  pub prev_frame : ℕ
  pub sec_cur : ℕ
  pub sec_min : ℕ
  pub sec_max : ℕ
  pub sec_have : Bool

-- What the threads share.
pub record Shared : Type 0 where
  pub q_free : Spsc
  pub q_full : Spsc
  pub desc : List SlabDesc
  pub arena : List ℕ
  pub tel : Telemetry
  pub capture_running : Bool

abbrev pub with_tel : (Telemetry → Telemetry) → Shared → Shared
with_tel f sh = record sh { tel = f sh.tel }

-- How a call ends: it returns 0 or 1, still waits, or divides by zero.
pub data Outcome : Type 0 where
  next stop : CapState → Shared → Outcome
  spin fault : Outcome

unfoldable pub capstate_init : CapState
capstate_init = record {
  cur_idx = none;
  cur = 0;
  cur_frames = 0;
  cur_file_id = 0;
  started = false;
  file_start_sec = 0;
  have_prev = false;
  prev_sec = 0;
  prev_frame = 0;
  sec_cur = 0;
  sec_min = 0xffffffff;
  sec_max = 0;
  sec_have = false;
}

-- The gate on the first frame; `none` is the early return.
pub start_gate : Config → Vhdr → CapState → Option CapState
start_gate cfg h s =
    if s.started
    then some s
    else if cfg.align_start && not (h.frame == 0)
    then none
    else some (record s {
      started = true;
      file_start_sec = h.sec;
      cur_file_id = 0;
      have_prev = false;
      sec_cur = h.sec;
      sec_min = 0xffffffff;
      sec_max = 0;
      sec_have = false;
    })

-- The expected successor of the previous frame, `es` and `ef`.
abbrev pub prev_last : CapState → Bool
prev_last s = leb frames_per_second (add32 s.prev_frame 1)

abbrev pub expected_sec : CapState → ℕ
expected_sec s = if prev_last s then add32 s.prev_sec 1 else s.prev_sec

abbrev pub expected_frame : CapState → ℕ
expected_frame s = if prev_last s then 0 else add32 s.prev_frame 1

-- `miss`: one branch is `uint32_t` arithmetic, the other `uint64_t`.
abbrev pub missing : Vhdr → ℕ → ℕ → ℕ
missing h es ef =
    if h.sec == es
    then sub32 h.frame ef
    else sub64 (add64 (u64 (sub32 h.sec es * frames_per_second)) h.frame) ef

-- The frame-number accounting.
pub account : CapState → Vhdr → Telemetry → Telemetry
account s h t =
    let es = expected_sec s in
    let ef = expected_frame s in
    if not s.have_prev
    then t
    else if h.sec == es && h.frame == ef
    then t
    else if h.sec == s.prev_sec && h.frame == s.prev_frame
    then add_dup t
    else if ltb es h.sec || h.sec == es && ltb ef h.frame
    then add_gap (missing h es ef) t
    else add_ooo t

abbrev pub remember : Vhdr → CapState → CapState
remember h s = record s { prev_sec = h.sec; prev_frame = h.frame; have_prev = true }

-- The bookkeeping of the current second, and the verdict on the one that ended.
pub second_state : Vhdr → CapState → CapState
second_state h s =
    if h.sec == s.sec_cur
    then record s {
      sec_min = if ltb h.frame s.sec_min then h.frame else s.sec_min;
      sec_max = if ltb s.sec_max h.frame then h.frame else s.sec_max;
    }
    else record s { sec_cur = h.sec; sec_min = h.frame; sec_max = h.frame; sec_have = true }

pub second_verdict : Vhdr → CapState → Telemetry → Telemetry
second_verdict h s t =
    if not (h.sec == s.sec_cur) && s.sec_have
    then record t { time_ok = s.sec_min == 0 && s.sec_max == 127999 }
    else t

-- One round of a wait: how `g_stop` reads, and what the other threads have done by the next try.
pub record Wait : Type 0 where
  pub stop_seen : Bool
  pub meanwhile : Shared → Shared

-- `while (!spsc_push(&q_full, idx)) { if (g_stop) return 1; sched_yield(); }`, and then `k`.
pub push_full : List Wait → CapState → ℕ → Shared → (Shared → Outcome) → Outcome
push_full [] s idx sh k =
    let (q, done) = spsc_push sh.q_full idx in if done then k (record sh { q_full = q }) else spin
push_full (w ∷ ws) s idx sh k =
    let retry = push_full ws s idx (w.meanwhile sh) k in
    let (q, done) = spsc_push sh.q_full idx in
    if done then k (record sh { q_full = q }) else if w.stop_seen then stop s sh else retry

-- Hand the current slab over: its descriptor, the push, and an empty hand.
pub hand_over : List Wait → Bool → CapState → ℕ → Shared → (CapState → Shared → Outcome) → Outcome
unfolding push_full
hand_over ws eof s idx sh k =
    let d : SlabDesc = record { frames = s.cur_frames; file_id = s.cur_file_id; eof = eof } in
    push_full ws s idx (record sh { desc = set sh.desc idx d })
      (λ sh'. k (record s { cur_idx = none; cur_frames = 0 }) sh')

-- `s->cur_idx >= 0 && s->cur_frames > 0`
abbrev pub held : CapState → Option ℕ
held s = if ltb 0 s.cur_frames then s.cur_idx else none

-- The cut of a file at a second that the period divides, `k` being the rest of the function.
pub cut_file :
    Config → List Wait → Vhdr → CapState → Shared → (CapState → Shared → Outcome) → Outcome
unfolding hand_over
cut_file cfg ws h s sh k =
    let new_file : CapState → Shared → Outcome = λ s' sh'.
      k (record s' { cur_file_id = add32 s'.cur_file_id 1; file_start_sec = h.sec }) sh' in
    let flush : Outcome = elim (held s) [
      | none ↦ new_file s sh
      | some idx ↦ hand_over ws true s idx sh new_file
    ] in
    if not (h.frame == 0)
    then k s sh
    else if cfg.secs_per_file == 0
    then fault
    else if h.sec % cfg.secs_per_file == 0 && not (h.sec == s.file_start_sec)
    then flush
    else k s sh

-- The copy into slab `idx`, and the hand-over of a slab that is full.
pub store_frame : Config → List Wait → List ℕ → CapState → ℕ → Shared → Outcome
unfolding hand_over
store_frame cfg ws vdif s idx sh =
    let s' = record s { cur_frames = add32 s.cur_frames 1 } in
    let o = s.cur + s.cur_frames * vdif_frame_bytes in
    let sh' = record sh { arena = poke sh.arena o (block vdif 0 vdif_frame_bytes) } in
    if s'.cur_frames == cfg.frames_per_slab then hand_over ws false s' idx sh' next else next s' sh'

-- `spsc_pop(&q_free, &s->cur_idx)` when there is no current slab.
pub take_slab : Config → List Wait → List ℕ → CapState → Shared → Spsc × Option ℕ → Outcome
unfolding store_frame
take_slab cfg ws vdif s sh (q, none) = next s (record sh { q_free = q; tel = add_spsc_drop sh.tel })
take_slab cfg ws vdif s sh (q, some idx) =
    store_frame cfg ws vdif
      (record s { cur_idx = some idx; cur = idx * slab_bytes cfg; cur_frames = 0 }) idx
      (record sh { q_free = q })

-- The slab to fill: the current one, or one from the pool.
pub pack_frame : Config → List Wait → List ℕ → CapState → Shared → Outcome
unfolding store_frame take_slab
pack_frame cfg ws vdif s sh = elim s.cur_idx [
  | some idx ↦ store_frame cfg ws vdif s idx sh
  | none ↦ take_slab cfg ws vdif s sh (spsc_pop sh.q_free)
]

-- `process_one_frame`, on the memory from `vdif` on. The two lists are for its two waits.
pub process_one_frame : Config → List Wait → List Wait → CapState → Shared → List ℕ → Outcome
unfolding start_gate account second_state second_verdict cut_file pack_frame
process_one_frame cfg ws_cut ws_full s sh vdif =
    let h = parse_vhdr vdif 0 in
    let sh1 = with_tel add_seen sh in
    let go : CapState → Outcome = λ s1.
      let sh2 = with_tel (account s1 h) sh1 in
      let s2 = remember h s1 in
      let sh3 = with_tel (second_verdict h s2) sh2 in
      let s3 = second_state h s2 in
      cut_file cfg ws_cut h s3 sh3 (λ s4 sh4. pack_frame cfg ws_full vdif s4 sh4) in
    if not (h.frame_len == vdif_frame_bytes)
    then next s (with_tel add_bad sh)
    else elim (start_gate cfg h s) [ none ↦ next s sh1 | some s1 ↦ go s1 ]

-- The wait of `capstate_finish` does not look at `g_stop`; `none` is a wait that has not ended.
unfoldable pub push_sleeping : List (Shared → Shared) → ℕ → Shared → Option Shared
push_sleeping [] idx sh =
    let (q, done) = spsc_push sh.q_full idx in
    if done then some (record sh { q_full = q }) else none
push_sleeping (meanwhile ∷ ws) idx sh =
    let retry = push_sleeping ws idx (meanwhile sh) in
    let (q, done) = spsc_push sh.q_full idx in
    if done then some (record sh { q_full = q }) else retry

abbrev pub halt_capture : Shared → Shared
halt_capture sh = record sh { capture_running = false }

-- `capstate_finish`: hand over a slab that holds frames, give back one that holds none.
unfoldable pub capstate_finish : List (Shared → Shared) → CapState → Shared → Option Shared
unfolding push_sleeping
capstate_finish ws s sh = elim s.cur_idx [
  | none ↦ some (halt_capture sh)
  | some idx ↦
      let d : SlabDesc = record { frames = s.cur_frames; file_id = s.cur_file_id; eof = true } in
      if ltb 0 s.cur_frames
      then Option.map halt_capture (push_sleeping ws idx (record sh { desc = set sh.desc idx d }))
      else some (halt_capture (record sh { q_free = (spsc_push sh.q_free idx).0 }))
]
