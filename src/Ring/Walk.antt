-- ===== src/Ring/Walk.antt =====
-- Any block of packets: the walk gets through it, and each packet is counted once.
use bvex_vdif_rfsoc.Base.{ℕ, ◌≤◌, ◌<◌, ◌≡◌, refl, List, [], ◌∷◌}
use bvex_vdif_rfsoc.Base.{Option, none, some, arith, length}
use bvex_vdif_rfsoc.Base.{length-drop}
use bvex_vdif_rfsoc.Vdif.{vdif_frame_bytes}
use bvex_vdif_rfsoc.Telemetry.{add_bad}
use bvex_vdif_rfsoc.Capture.{Config, CapState, Shared, next, process_one_frame, with_tel}
use bvex_vdif_rfsoc.Capture.Pool.{IsSized}
use bvex_vdif_rfsoc.Capture.Log.{log}
use bvex_vdif_rfsoc.Capture.Fate.{IsReady}
use bvex_vdif_rfsoc.Capture.Frame.{process_one_frame-Processed}
use bvex_vdif_rfsoc.Packet.{frame_to_vdif}
use bvex_vdif_rfsoc.Packet.Valid.{frame_to_vdif_iff}
use bvex_vdif_rfsoc.Ring.{Captured, walk}
use bvex_vdif_rfsoc.Base.{drop}
use bvex_vdif_rfsoc.Capture.Tally.{
  AreWords, Tally-add_bad, Fate-Tally, Tally-AreWords, Tallied, Tallied-nil, Tallied-cons,
  IsReady-add_bad,
}

abbrev pub AllCaptured : List Captured → Type 0
AllCaptured [] = Unit {0}
AllCaptured (m ∷ ms) = (m.snap ≤ length m.eth) × AllCaptured ms

-- A frame that is handed on lies in the packet.
frame_enough :
    (dport snap : ℕ) (eth : List ℕ) (off : ℕ)
    → snap ≤ length eth
    → frame_to_vdif dport snap eth ≡ some off
    → vdif_frame_bytes ≤ length (drop off eth)
frame_enough dport snap eth off size e =
    omega (arith, length-drop off eth, ((frame_to_vdif_iff dport snap eth off).0 e).inside)

module _ (cfg : Config) (sized : IsSized cfg) (period : 0 < cfg.secs_per_file) (hand : List ℕ)
    (dport : ℕ) where
  skips :
      (m : Captured) (ms : List Captured) (s : CapState) (sh : Shared)
      → frame_to_vdif dport m.snap m.eth ≡ none
      → walk cfg dport (m ∷ ms) s sh ≡ walk cfg dport ms s (with_tel add_bad sh)
  unfolding walk
  skips m ms s sh e = rw (e, walk)

  hands_on :
      (m : Captured) (ms : List Captured) (s : CapState) (sh : Shared) (off : ℕ) (s' : CapState)
      (sh' : Shared)
      → frame_to_vdif dport m.snap m.eth ≡ some off
      → process_one_frame cfg m.ws_cut m.ws_full s sh (drop off m.eth) ≡ next s' sh'
      → walk cfg dport (m ∷ ms) s sh ≡ walk cfg dport ms s' sh'
  unfolding walk
  hands_on m ms s sh off s' sh' e e' = rw (e, walk) (rw (e', walk))

  -- The block from its first packet on, given the rest.
  from_first :
      (m : Captured) (ms : List Captured) (s : CapState) (sh : Shared)
      → m.snap ≤ length m.eth
      → IsReady cfg hand s sh
      → AreWords sh.tel
      → ((s1 : CapState) (sh1 : Shared)
          → IsReady cfg hand s1 sh1
          → AreWords sh1.tel
          → Tallied cfg hand (length ms) s1 sh1 (walk cfg dport ms s1 sh1))
      → (o : Option ℕ) → frame_to_vdif dport m.snap m.eth ≡ o
      → Tallied cfg hand (length (m ∷ ms)) s sh (walk cfg dport (m ∷ ms) s sh)
  from_first m ms s sh size ready w rest none e =
      let k = Tally-add_bad sh.tel (length (log cfg s sh)) w in
      Tallied-cons (skips m ms s sh e) k
        (rest s (with_tel add_bad sh) (IsReady-add_bad ready) (Tally-AreWords k))
  from_first m ms s sh size ready w rest (some off) e =
      let p =
        process_one_frame-Processed cfg sized period hand m.ws_cut m.ws_full s sh (drop off m.eth)
          ready (frame_enough dport m.snap m.eth off size e) in
      let k = Fate-Tally w p.fate in
      Tallied-cons (hands_on m ms s sh off p.after p.shared e p.returns) k
        (rest p.after p.shared p.ready (Tally-AreWords k))

  -- With a positive file period and slabs of at least one frame whose size fits an `int`: a block
  -- of any packets, good or bad, whose captured bytes are all there, on a state that is ready and
  -- with counters that are 64-bit words: the walk gets through it with no wait, the state is ready
  -- again, and each packet has been counted once: as bad, as seen before the start of the
  -- recording, as one more frame in the log, or as dropped. `bad_frames`, `frames_seen` and
  -- `spsc_drops` have grown by exactly these numbers, modulo 2 ^ 64.
  pub walk-Tallied :
      (ms : List Captured) (s : CapState) (sh : Shared)
      → AllCaptured ms
      → IsReady cfg hand s sh
      → AreWords sh.tel
      → Tallied cfg hand (length ms) s sh (walk cfg dport ms s sh)
  walk-Tallied [] s sh all ready w = Tallied-nil ready w (unfold walk in refl)
  walk-Tallied (m ∷ ms) s sh all ready w =
      from_first m ms s sh all.0 ready w
        (λ s1 sh1 ready1 w1. walk-Tallied ms s1 sh1 all.1 ready1 w1)
        (frame_to_vdif dport m.snap m.eth) refl
