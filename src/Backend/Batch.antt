-- ===== src/Backend/Batch.antt =====
-- Any batch of messages, good or bad: the loop gets through it, and no frame lies past its buffer.
use bvex_vdif_rfsoc.Base.{ℕ, ◌+◌, ◌≤◌, ◌<◌, ◌≡◌, refl, List, [], ◌∷◌}
use bvex_vdif_rfsoc.Base.{Bool, Option, none, some, arith, length}
use bvex_vdif_rfsoc.Base.{length-drop}
use bvex_vdif_rfsoc.Base.Bits.{and_mask}
use bvex_vdif_rfsoc.Vdif.{vdif_frame_bytes, byte_at}
use bvex_vdif_rfsoc.Telemetry.{add_bad}
use bvex_vdif_rfsoc.Capture.{Config, CapState, Shared, next, process_one_frame, with_tel}
use bvex_vdif_rfsoc.Capture.Pool.{IsSized}
use bvex_vdif_rfsoc.Capture.Log.{log}
use bvex_vdif_rfsoc.Capture.Fate.{IsReady}
use bvex_vdif_rfsoc.Capture.Frame.{process_one_frame-Processed}
use bvex_vdif_rfsoc.Backend.{Message, strip, recv_batch, ip_header_len}
use bvex_vdif_rfsoc.Capture.Tally.{
  AreWords, Tally-add_bad, Fate-Tally, Tally-AreWords, Tallied, Tallied-nil, Tallied-cons,
  IsReady-add_bad,
}

-- `BUFSZ`
abbrev pub buffer_size : ℕ
buffer_size = 9216

abbrev pub AllBuffers : List Message → Type 0
AllBuffers [] = Unit {0}
AllBuffers (m ∷ ms) = (length m.buf ≡ buffer_size) × AllBuffers ms

-- The memory that is handed on from a buffer of 9216 bytes holds a whole frame, whatever length the
-- IP header claims, for datagrams of a UDP socket and for raw packets.
pub strip_enough :
    (is_udp : Bool) (len : ℕ) (buf vdif : List ℕ)
    → length buf ≡ buffer_size
    → strip is_udp len buf ≡ some vdif
    → vdif_frame_bytes ≤ length vdif
unfolding strip
strip_enough is_udp len buf vdif size e =
    ground (arith, and_mask 4 (byte_at buf 14), length-drop (14 + ip_header_len buf + 8) buf)

module _ (cfg : Config) (sized : IsSized cfg) (period : 0 < cfg.secs_per_file) (hand : List ℕ)
    (is_udp : Bool) where
  skips :
      (m : Message) (ms : List Message) (s : CapState) (sh : Shared)
      → strip is_udp m.len m.buf ≡ none
      → recv_batch cfg is_udp (m ∷ ms) s sh ≡ recv_batch cfg is_udp ms s (with_tel add_bad sh)
  unfolding recv_batch
  skips m ms s sh e = rw (e, recv_batch)

  hands_on :
      (m : Message) (ms : List Message) (s : CapState) (sh : Shared) (vdif : List ℕ) (s' : CapState)
      (sh' : Shared)
      → strip is_udp m.len m.buf ≡ some vdif
      → process_one_frame cfg m.ws_cut m.ws_full s sh vdif ≡ next s' sh'
      → recv_batch cfg is_udp (m ∷ ms) s sh ≡ recv_batch cfg is_udp ms s' sh'
  unfolding recv_batch
  hands_on m ms s sh vdif s' sh' e e' = rw (e, recv_batch) (rw (e', recv_batch))

  -- The batch from its first message on, given the rest.
  from_first :
      (m : Message) (ms : List Message) (s : CapState) (sh : Shared)
      → length m.buf ≡ buffer_size
      → IsReady cfg hand s sh
      → AreWords sh.tel
      → ((s1 : CapState) (sh1 : Shared)
          → IsReady cfg hand s1 sh1
          → AreWords sh1.tel
          → Tallied cfg hand (length ms) s1 sh1 (recv_batch cfg is_udp ms s1 sh1))
      → (o : Option (List ℕ)) → strip is_udp m.len m.buf ≡ o
      → Tallied cfg hand (length (m ∷ ms)) s sh (recv_batch cfg is_udp (m ∷ ms) s sh)
  from_first m ms s sh size ready w rest none e =
      let k = Tally-add_bad sh.tel (length (log cfg s sh)) w in
      Tallied-cons (skips m ms s sh e) k
        (rest s (with_tel add_bad sh) (IsReady-add_bad ready) (Tally-AreWords k))
  from_first m ms s sh size ready w rest (some vdif) e =
      let p =
        process_one_frame-Processed cfg sized period hand m.ws_cut m.ws_full s sh vdif ready
          (strip_enough is_udp m.len m.buf vdif size e) in
      let k = Fate-Tally w p.fate in
      Tallied-cons (hands_on m ms s sh vdif p.after p.shared e p.returns) k
        (rest p.after p.shared p.ready (Tally-AreWords k))

  -- With a positive file period and slabs of at least one frame whose size fits an `int`: a batch
  -- of any messages, good or bad, in buffers of 9216 bytes, on a state that is ready and with
  -- counters that are 64-bit words: the loop gets through it with no wait, the state is ready
  -- again, and each message has been counted once: as bad, as seen before the start of the
  -- recording, as one more frame in the log, or as dropped. `bad_frames`, `frames_seen` and
  -- `spsc_drops` have grown by exactly these numbers, modulo 2 ^ 64.
  pub recv_batch-Tallied :
      (ms : List Message) (s : CapState) (sh : Shared)
      → AllBuffers ms
      → IsReady cfg hand s sh
      → AreWords sh.tel
      → Tallied cfg hand (length ms) s sh (recv_batch cfg is_udp ms s sh)
  recv_batch-Tallied [] s sh all ready w = Tallied-nil ready w (unfold recv_batch in refl)
  recv_batch-Tallied (m ∷ ms) s sh all ready w =
      from_first m ms s sh all.0 ready w
        (λ s1 sh1 ready1 w1. recv_batch-Tallied ms s1 sh1 all.1 ready1 w1)
        (strip is_udp m.len m.buf) refl
