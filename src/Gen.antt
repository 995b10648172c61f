-- ===== src/Gen.antt =====
-- host/vdif_gen.c: the synthetic source. `put_le32`, `fill_vdif_header`, and the loops of `main`
-- that number, fill and send the frames. `sendmmsg` is outside: its results come as a list.
mod Tests
pub mod RoundTrip
pub mod Sequence
pub mod Run
pub mod Epoch
pub mod Args
use bvex_vdif_rfsoc.Base.{
  ℕ, zero, suc, ◌+◌, ◌-◌, ◌*◌, ◌/◌, ◌%◌, ◌^◌, bit_and, bit_or, List, [], ◌∷◌, ◌++◌,
}
use bvex_vdif_rfsoc.Base.{◌<<◌, ◌>>◌, u8, replicate, poke, add32, add64, leb, ltb, Bool, ◌&&◌}
use bvex_vdif_rfsoc.Base.{if◌then◌else◌, Option, none, some, take, drop, length}

-- `put_le32(m + o, w)`: each assignment cuts the shifted word to a byte.
unfoldable pub put_le32 : List ℕ → ℕ → ℕ → List ℕ
put_le32 m o w = poke m o (u8 w ∷ u8 (w >> 8) ∷ u8 (w >> 16) ∷ u8 (w >> 24) ∷ [])

-- The four header words. The `int` arguments are their bit patterns.
abbrev pub word0 : ℕ → ℕ
word0 sec = bit_and sec 0x3FFFFFFF

abbrev pub word1 : ℕ → ℕ → ℕ
word1 frame ref_epoch = bit_or (bit_and frame 0xFFFFFF) (bit_and ref_epoch 0x3F << 24)

abbrev pub word2 : ℕ
word2 = bit_and 1004 0xFFFFFF

abbrev pub word3 : ℕ → ℕ → ℕ
word3 thread station =
    bit_or (bit_or (bit_or (bit_and station 0xFFFF) (bit_and thread 0x3FF << 16)) (1 << 26))
      (1 << 31)

-- `fill_vdif_header(v, sec, frame, ref_epoch, thread, station)`; the last write is the `memset`.
unfoldable pub fill_vdif_header : List ℕ → ℕ → ℕ → ℕ → ℕ → ℕ → List ℕ
unfolding put_le32
fill_vdif_header v sec frame ref_epoch thread station =
    let v0 = put_le32 v 0 (word0 sec) in
    let v1 = put_le32 v0 4 (word1 frame ref_epoch) in
    let v2 = put_le32 v1 8 word2 in
    let v3 = put_le32 v2 12 (word3 thread station) in poke v3 16 (replicate 16 0)

-- `FPS`
abbrev pub fps : ℕ
fps = 128000

-- The variables of `main` that number the frames. `gapctr` is a `long` that is reset before it
-- grows past `gap_period`.
pub record GenState : Type 0 where
  pub sec : ℕ
  pub frame : ℕ
  pub gapctr : ℕ
  pub gaps_injected : ℕ

-- `frame++; if(frame>=FPS){frame=0;sec++;}`
unfoldable pub advance : GenState → GenState
advance g =
    let frame' = add32 g.frame 1 in
    if leb fps frame'
    then record g { frame = 0; sec = add32 g.sec 1 }
    else record g { frame = frame' }

-- The injected gap. A `gap_period` of 0 (or less) injects none.
unfoldable pub inject_gap : ℕ → GenState → GenState
unfolding advance
inject_gap gap_period g =
    if ltb 0 gap_period
    then (if leb gap_period (g.gapctr + 1)
        then record (advance g) { gapctr = 0; gaps_injected = add64 g.gaps_injected 1 }
        else record g { gapctr = g.gapctr + 1 })
    else g

-- The arguments that all headers share.
pub record Stamp : Type 0 where
  pub ref_epoch : ℕ
  pub thread : ℕ
  pub station : ℕ

-- `for (b = 0; b < n; b++)` over the buffers of the batch: skip, fill, advance.
unfoldable pub fill_batch : ℕ → Stamp → GenState → List (List ℕ) → List (List ℕ) × GenState
unfolding inject_gap fill_vdif_header
fill_batch gap_period st g [] = ([], g)
fill_batch gap_period st g (buf ∷ bufs) =
    let g1 = inject_gap gap_period g in
    let filled = fill_vdif_header buf g1.sec g1.frame st.ref_epoch st.thread st.station in
    let (rest, g2) = fill_batch gap_period st (advance g1) bufs in (filled ∷ rest, g2)

-- What `sendmmsg` returns: a count, `ENOBUFS` or `EAGAIN`, or another error.
pub data SendResult : Type 0 where
  sent : ℕ → SendResult
  try_again failed : SendResult

-- How the send loop ends: all sent, an error return of `main`, or results are used up.
pub data SendEnd : Type 0 where
  all_sent error waiting : List (List ℕ) → SendEnd

-- `while (off < n)`, on the buffers from `msgs+off` on; the accumulator holds what went out.
pub send_all : List SendResult → List (List ℕ) → List (List ℕ) → SendEnd
send_all rs out [] = all_sent out
send_all [] out (b ∷ bs) = waiting out
send_all (sent k ∷ rs) out (b ∷ bs) = send_all rs (out ++ take k (b ∷ bs)) (drop k (b ∷ bs))
send_all (try_again ∷ rs) out (b ∷ bs) = send_all rs out (b ∷ bs)
send_all (failed ∷ rs) out (b ∷ bs) = error out
