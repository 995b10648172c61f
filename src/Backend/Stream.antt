-- ===== src/Backend/Stream.antt =====
-- A stream of datagrams in order, with frames missing: what the counters and the log say after it.
use mathlib.Core.Path.{subst}
use mathlib.Core.List.{append-nil, append_assoc}
use bvex_vdif_rfsoc.Base.{ap, sym, ◌++◌, block, inl, inr}
use bvex_vdif_rfsoc.Base.{ℕ, ◌+◌, ◌-◌, ◌^◌, ◌≤◌, ◌<◌, ◌≡◌, refl, ◌∙◌, List, [], ◌∷◌}
use bvex_vdif_rfsoc.Base.{true, false, arith, length, u64, ltb}
use bvex_vdif_rfsoc.Vdif.{vdif_frame_bytes}
use bvex_vdif_rfsoc.Vdif.Stream.{Stream, IsFrame, frame_position}
use bvex_vdif_rfsoc.Capture.{Config, CapState, Shared, Outcome, next, process_one_frame}
use bvex_vdif_rfsoc.Capture.Pool.{IsSized}
use bvex_vdif_rfsoc.Capture.Log.{Entry, log, Sifted}
use bvex_vdif_rfsoc.Capture.Fate.{IsReady, Processed}
use bvex_vdif_rfsoc.Capture.Frame.{process_one_frame-Processed}
use bvex_vdif_rfsoc.Backend.{Message, recv_batch}
use bvex_vdif_rfsoc.Backend.Step.{IsTracking, Counted, Stepped, by-Fate}

-- Datagrams of the UDP socket, each at least a frame long.
abbrev pub AllLong : List Message → Type 0
AllLong [] = Unit {0}
AllLong (m ∷ ms) = (vdif_frame_bytes ≤ m.len) × AllLong ms

abbrev pub buffers : List Message → List (List ℕ)
buffers [] = []
buffers (m ∷ ms) = m.buf ∷ buffers ms

-- What a batch did.
pub record Received (cfg : Config) (hand : List ℕ) (lo hi : ℕ) (ms : List Message) (s : CapState)
    (sh : Shared) (o : Outcome) : Type 0 where
  pub after : CapState
  pub shared : Shared
  pub lost : ℕ
  pub returns : o ≡ next after shared
  pub ready : IsReady cfg hand after shared
  pub tracking : IsTracking hi after
  pub counted : Counted (hi - (lo + length ms)) (length ms) sh.tel shared.tel
  pub kept : length (log cfg after shared) + lost ≡ length (log cfg s sh) + length ms
  pub losses : shared.tel.spsc_drops ≡ u64 (sh.tel.spsc_drops + lost)
  pub stored : List Entry
  pub logged : log cfg after shared ≡ log cfg s sh ++ stored
  pub sifted : Sifted (buffers ms) stored lost

Stream-le : (lo : ℕ) (ms : List Message) (hi : ℕ) → Stream lo (buffers ms) hi → lo + length ms ≤ hi
Stream-le lo [] hi st = omega arith
Stream-le lo (m ∷ ms) hi st = omega (arith, st.1, Stream-le (frame_position m.buf + 1) ms hi st.2)

-- One frame in front of others.
Sifted-front :
    (b : List ℕ) (bs : List (List ℕ)) (es fs : List Entry) (m n : ℕ)
    → Sifted (b ∷ []) es m
    → Sifted bs fs n
    → Sifted (b ∷ bs) (es ++ fs) (m + n)
Sifted-front b bs es fs m n (inl (file, rest, e, (none, z))) t = inl (
  file,
  fs,
  ap (λ x. x ++ fs) (e ∙ ap (λ x. (file, block b 0 vdif_frame_bytes) ∷ x) none),
  subst (Sifted bs fs) (omega (arith, z)) t,
)
Sifted-front b bs es fs m n (inr (k, e, (none, z))) t =
    inr (n, omega (arith, e, z), subst (λ x. Sifted bs x n) (sym (ap (λ x. x ++ fs) none)) t)

module _ (cfg : Config) (sized : IsSized cfg) (period : 0 < cfg.secs_per_file) (hand : List ℕ) where
  recv-step :
      (m : Message) (ms : List Message) (s : CapState) (sh : Shared) (s' : CapState) (sh' : Shared)
      → vdif_frame_bytes ≤ m.len
      → process_one_frame cfg m.ws_cut m.ws_full s sh m.buf ≡ next s' sh'
      → recv_batch cfg true (m ∷ ms) s sh ≡ recv_batch cfg true ms s' sh'
  unfolding recv_batch
  recv-step m ms s sh s' sh' long e =
      let fits : ltb m.len vdif_frame_bytes ≡ false = ground arith in
      rw (fits, recv_batch) (rw (e, recv_batch))

  step :
      (m : Message) (lo : ℕ) (s : CapState) (sh : Shared)
      → IsFrame m.buf
      → lo ≤ frame_position m.buf
      → IsReady cfg hand s sh
      → IsTracking lo s
      → sh.tel.gap_frames < 2 ^ 64
      → sh.tel.spsc_drops < 2 ^ 64
      → Stepped cfg hand lo s sh m.buf (process_one_frame cfg m.ws_cut m.ws_full s sh m.buf)
  step m lo s sh g le ready k gw dw =
      by-Fate cfg hand lo s sh m.buf (process_one_frame cfg m.ws_cut m.ws_full s sh m.buf) k g le gw
        dw processed processed.fate
    where
      processed :
          Processed cfg hand s sh m.buf (process_one_frame cfg m.ws_cut m.ws_full s sh m.buf)
      processed =
          process_one_frame-Processed cfg sized period hand m.ws_cut m.ws_full s sh m.buf ready
            g.whole

  -- With a positive file period and slabs of at least one frame whose size fits an `int`, and on a
  -- state that is ready, with counters that are 64-bit words: a batch of UDP datagrams that carry
  -- whole frames at increasing positions, received while the recording runs, is processed to its
  -- end with no wait. `gap_frames` then has grown by exactly the number of positions that no
  -- datagram had, `frames_seen` by the number of datagrams, no frame has counted as duplicate, out
  -- of order or bad. The log has grown by the frames' bytes, in the order of the datagrams, each as
  -- one entry, but for the frames that `spsc_drops` has counted.
  pub recv_batch-Received :
      (ms : List Message) (lo hi : ℕ) (s : CapState) (sh : Shared)
      → AllLong ms
      → Stream lo (buffers ms) hi
      → IsReady cfg hand s sh
      → IsTracking lo s
      → sh.tel.gap_frames < 2 ^ 64
      → sh.tel.spsc_drops < 2 ^ 64
      → sh.tel.frames_seen < 2 ^ 64
      → Received cfg hand lo hi ms s sh (recv_batch cfg true ms s sh)
  recv_batch-Received [] lo hi s sh long st ready k gw dw sw = record {
    after = s;
    shared = sh;
    lost = 0;
    returns = unfold recv_batch in refl;
    ready = ready;
    tracking = subst (λ n. IsTracking n s) st k;
    counted = omega arith;
    kept = omega arith;
    losses = omega arith;
    stored = [];
    logged = sym (append-nil (log cfg s sh));
    sifted = (refl, refl);
  }
  recv_batch-Received (m ∷ ms) lo hi s sh long st ready k gw dw sw =
      let b = step m lo s sh st.0 st.1 ready k gw dw in
      let r =
        recv_batch-Received ms (frame_position m.buf + 1) hi b.after b.shared long.1 st.2 b.ready
          b.tracking (omega (arith, b.counted.gap_frames)) (omega (arith, b.losses))
          (omega (arith, b.counted.frames_seen)) in
      let room = Stream-le (frame_position m.buf + 1) ms hi st.2 in
      record {
        after = r.after;
        shared = r.shared;
        lost = b.lost + r.lost;
        returns = recv-step m ms s sh b.after b.shared long.0 b.returns ∙ r.returns;
        ready = r.ready;
        tracking = r.tracking;
        counted = omega (arith, b.counted, r.counted, st.1, room);
        kept = omega (arith, b.kept, r.kept);
        losses = omega (arith, b.losses, r.losses);
        stored = b.stored ++ r.stored;
        logged =
            r.logged
            ∙ ap (λ x. x ++ r.stored) b.logged
            ∙ append_assoc (log cfg s sh) b.stored r.stored;
        sifted = Sifted-front m.buf (buffers ms) b.stored r.stored b.lost r.lost b.sifted r.sifted;
      }
