-- ===== src/Gen/Run.antt =====
-- host/vdif_gen.c, `main` from the buffers on: frames go out in batches, batches in ticks of one
-- millisecond, ticks until enough frames are sent.
--
-- What `sendmmsg` returns comes as a list for each batch, the batches as a list for each tick. Where
-- a list ends before its loop does, the model says that the loop is still under way. The sleep
-- between two ticks is outside.
mod Tests
pub mod Keeps
pub mod Counts
pub mod Ends
use bvex_vdif_rfsoc.Base.{
  ℕ, zero, suc, ◌+◌, ◌-◌, ◌*◌, ◌/◌, List, [], ◌∷◌, ◌++◌, Bool, ltb, leb, ◌==◌, u8, poke, replicate,
  take, drop, if◌then◌else◌,
}
use bvex_vdif_rfsoc.Vdif.{vdif_frame_bytes}
use bvex_vdif_rfsoc.Gen.{
  GenState, Stamp, fill_batch, SendResult, SendEnd, all_sent, error, waiting, send_all,
}

-- `BATCH`
abbrev pub batch : ℕ
batch = 64

-- `buf[b]` after the sparse fill, whose loop makes one round.
abbrev pub initial_buffer : ℕ → List ℕ
initial_buffer b =
    poke (replicate vdif_frame_bytes 0) (vdif_frame_bytes - 8)
      (u8 (b * 131 + (vdif_frame_bytes - 8)) ∷ [])

-- The buffers from `b` on.
unfoldable pub initial_buffers : ℕ → ℕ → List (List ℕ)
initial_buffers zero b = []
initial_buffers (suc left) b = initial_buffer b ∷ initial_buffers left (b + 1)

-- The numbering, the buffers, `sent`, and the datagrams that went out.
pub record Sending : Type 0 where
  pub numbers : GenState
  pub bufs : List (List ℕ)
  pub sent : ℕ
  pub out : List (List ℕ)

-- How a loop ends: with its work done, by the error return, or not yet.
pub data Ended : Type 0 where
  done broken pending : Sending → Ended

abbrev pub on_done : Ended → (Sending → Ended) → Ended
on_done (done s) next = next s
on_done (broken s) next = broken s
on_done (pending s) next = pending s

-- `sent += n` behind the send loop.
abbrev pub settle : SendEnd → ℕ → Sending → Ended
settle (all_sent gone) n s = done (record s { sent = s.sent + n; out = s.out ++ gone })
settle (error gone) n s = broken (record s { out = s.out ++ gone })
settle (waiting gone) n s = pending (record s { out = s.out ++ gone })

-- `n = (this_tick < BATCH) ? this_tick : BATCH`
abbrev pub batch_size : ℕ → ℕ
batch_size this_tick = if ltb this_tick batch then this_tick else batch

-- A batch of `n` frames: fill the first `n` buffers, and send them.
unfoldable pub send_batch : ℕ → Stamp → ℕ → List SendResult → Sending → Ended
unfolding fill_batch send_all
send_batch gap_period st n rs s =
    let (filled, g) = fill_batch gap_period st s.numbers (take n s.bufs) in
    settle (send_all rs [] filled) n (record s { numbers = g; bufs = filled ++ drop n s.bufs })

-- `while (this_tick > 0)`, with the `break` when enough is sent.
unfoldable pub tick : ℕ → ℕ → Stamp → List (List SendResult) → ℕ → Sending → Ended
unfolding send_batch
tick total gap_period st [] this_tick s = if this_tick == 0 then done s else pending s
tick total gap_period st (rs ∷ more) this_tick s =
    let n = batch_size this_tick in
    let rest = tick total gap_period st more (this_tick - n) in
    if this_tick == 0
    then done s
    else on_done (send_batch gap_period st n rs s)
        (λ s'. if leb total s'.sent then done s' else rest s')

-- `per_ms`
abbrev pub per_ms : ℕ → ℕ
per_ms rate = if ltb (rate / 1000) 1 then 1 else rate / 1000

-- `while (sent < total)`
unfoldable pub run_ticks : ℕ → ℕ → ℕ → Stamp → List (List (List SendResult)) → Sending → Ended
unfolding tick
run_ticks total rate gap_period st [] s = if ltb s.sent total then pending s else done s
run_ticks total rate gap_period st (rss ∷ more) s =
    let rest = run_ticks total rate gap_period st more in
    if ltb s.sent total then on_done (tick total gap_period st rss (per_ms rate) s) rest else done s

-- The run from the first frame of second `sec` on, for `rate * run_secs` frames.
unfoldable pub source : ℕ → ℕ → ℕ → Stamp → ℕ → List (List (List SendResult)) → Ended
unfolding run_ticks initial_buffers
source rate run_secs gap_period st sec answers =
    run_ticks (rate * run_secs) rate gap_period st answers (record {
      numbers = record { sec = sec; frame = 0; gapctr = 0; gaps_injected = 0 };
      bufs = initial_buffers batch 0;
      sent = 0;
      out = [];
    })
