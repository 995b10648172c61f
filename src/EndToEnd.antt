-- ===== src/EndToEnd.antt =====
-- host/vdif_gen.c feeding host/vdif_recorder.c over a link that loses nothing, as in
-- host/veth_selftest.sh.
mod Tests
use mathlib.Core.Path.{subst}
use bvex_vdif_rfsoc.Base.{
  ℕ, ◌+◌, ◌-◌, ◌*◌, ◌^◌, ◌≤◌, ◌<◌, ◌≡◌, refl, ap, sym, ◌∙◌, List, [], ◌∷◌, arith, true,
}
use bvex_vdif_rfsoc.Base.{length, u64}
use bvex_vdif_rfsoc.Vdif.Stream.{Stream}
use bvex_vdif_rfsoc.Capture.{Config, CapState, Shared}
use bvex_vdif_rfsoc.Capture.Pool.{IsSized}
use bvex_vdif_rfsoc.Capture.Fate.{IsReady}
use bvex_vdif_rfsoc.Backend.{Message, recv_batch}
use bvex_vdif_rfsoc.Backend.Step.{IsTracking}
use bvex_vdif_rfsoc.Backend.Stream.{AllLong, buffers, Received, recv_batch-Received}
use bvex_vdif_rfsoc.Gen.{GenState, Stamp, fill_batch}
use bvex_vdif_rfsoc.Gen.Sequence.{number, IsCounting, AllWhole, fill_batch-Stream}

length-buffers : (ms : List Message) → length (buffers ms) ≡ length ms
length-buffers [] = refl
length-buffers (m ∷ ms) = omega (arith, length-buffers ms)

-- With a positive file period and slabs of at least one frame whose size fits an `int`, on a state
-- that is ready and with counters that are 64-bit words: a batch that the generator fills with
-- numbers in range, starting at the position that a running recorder expects, and that arrives
-- whole and in order, is received to its end; `gap_frames` has then grown by the number of gaps
-- that the generator injected in that batch, and the recorder expects the generator's next number.
pub gap_frames-gaps_injected :
    (cfg : Config) (hand : List ℕ) (gp : ℕ) (st : Stamp) (g : GenState) (bufs : List (List ℕ))
    (ms : List Message) (s : CapState) (sh : Shared)
    → IsSized cfg
    → 0 < cfg.secs_per_file
    → AllWhole bufs
    → IsCounting (2 * length bufs) g
    → g.gaps_injected + length bufs < 2 ^ 64
    → buffers ms ≡ (fill_batch gp st g bufs).0
    → AllLong ms
    → IsReady cfg hand s sh
    → IsTracking (number g) s
    → sh.tel.gap_frames < 2 ^ 64
    → sh.tel.spsc_drops < 2 ^ 64
    → sh.tel.frames_seen < 2 ^ 64
    → let g' = (fill_batch gp st g bufs).1 in
      (r : Received cfg hand (number g) (number g') ms s sh (recv_batch cfg true ms s sh))
      × (r.shared.tel.gap_frames ≡ u64 (sh.tel.gap_frames + (g'.gaps_injected - g.gaps_injected)))
gap_frames-gaps_injected cfg hand gp st g bufs ms s sh sized period whole c few sent long ready k gw
      dw sw =
    (r, r.counted.gap_frames ∙ ap (λ (n : ℕ). u64 (sh.tel.gap_frames + n)) injected)
  where
    f :
        let (out, g') = fill_batch gp st g bufs in
        Stream (number g) out (number g')
        × (number g' + g.gaps_injected ≡ number g + length bufs + g'.gaps_injected)
        × (length out ≡ length bufs)
        × (g.gaps_injected ≤ g'.gaps_injected)
    f = fill_batch-Stream gp st bufs whole c few

    r :
        Received cfg hand
          (number g)
          (number (fill_batch gp st g bufs).1)
          ms
          s
          sh
          (recv_batch cfg true ms s sh)
    r =
        recv_batch-Received cfg sized period hand ms (number g) (number (fill_batch gp st g bufs).1)
          s sh long
          (subst (λ t. Stream (number g) t (number (fill_batch gp st g bufs).1)) (sym sent) f.0)
          ready k gw dw sw

    injected :
        number (fill_batch gp st g bufs).1 - (number g + length ms)
        ≡ (fill_batch gp st g bufs).1.gaps_injected - g.gaps_injected
    injected = omega (arith, f.1, f.2, f.3, length-buffers ms, ap (length {A = List ℕ}) sent)
