-- ===== src/Status/Drops.antt =====
-- The drop counter over the calls of `write_status`.
use bvex_vdif_rfsoc.Base.{
  ℕ, ◌+◌, ◌-◌, ◌^◌, ◌<◌, ◌≡◌, refl, ap, ◌∙◌, List, [], ◌∷◌, ◌++◌, true, Option, none, some, leb,
  u64, if◌then◌else◌, arith,
}
use bvex_vdif_rfsoc.Args.{RxMode, udp, raw, ring, xdp}
use bvex_vdif_rfsoc.Status.{Answers, Main, udp_drops, update_drops, udp_rcvbuf_errors, packet_drops}

-- Calls one after the other, with the capture socket open.
abbrev pub updates : RxMode → List Answers → Main → Main
updates mode [] s = s
updates mode (a ∷ rs) s = updates mode rs (update_drops mode true a s)

abbrev pub newly : Option ℕ → ℕ
newly none = 0
newly (some n) = n

-- What the kernel says it dropped, each time since the call before.
abbrev pub newly_dropped : List Answers → ℕ
newly_dropped [] = 0
newly_dropped (a ∷ rs) = newly a.tp_drops + newly_dropped rs

pub updates-append :
    (mode : RxMode) (rs bs : List Answers) (s : Main)
    → updates mode (rs ++ bs) s ≡ updates mode bs (updates mode rs s)
updates-append mode [] bs s = refl
updates-append mode (a ∷ rs) bs s = updates-append mode rs bs (update_drops mode true a s)

-- The base stays, once it is taken.
updates-base :
    (rs : List Answers) (s : Main) {base : ℕ}
    → s.base ≡ some base
    → (updates udp rs s).base ≡ some base
unfolding update_drops
updates-base [] s e = e
updates-base (a ∷ rs) s {base} e =
    updates-base rs _ (ap (λ b. (udp_drops b (udp_rcvbuf_errors a.snmp) s).base) e ∙ e)

packet_drops-newly :
    (o : Option ℕ) (s : Main)
    → s.tel.kernel_drops < 2 ^ 64
    → (packet_drops o s).tel.kernel_drops ≡ u64 (s.tel.kernel_drops + newly o)
packet_drops-newly none s h = omega arith
packet_drops-newly (some n) s h = refl

-- A mode that reads the statistics of a packet socket.
abbrev pub ReadsPackets : RxMode → Type 0
ReadsPackets udp = ⊥
ReadsPackets raw = Unit {0}
ReadsPackets ring = Unit {0}
ReadsPackets xdp = ⊥

packet_sum :
    (mode : RxMode) (rs : List Answers) (s : Main)
    → ReadsPackets mode
    → s.tel.kernel_drops < 2 ^ 64
    → (updates mode rs s).tel.kernel_drops ≡ u64 (s.tel.kernel_drops + newly_dropped rs)
unfolding update_drops
packet_sum udp rs s m small = absurd m
packet_sum xdp rs s m small = absurd m
packet_sum raw [] s m small = omega arith
packet_sum ring [] s m small = omega arith
packet_sum raw (a ∷ rs) s m small =
    let n = packet_drops-newly a.tp_drops s small in
    packet_sum raw rs (packet_drops a.tp_drops s) m (omega (arith, n)) ∙ omega (arith, n)
packet_sum ring (a ∷ rs) s m small =
    let n = packet_drops-newly a.tp_drops s small in
    packet_sum ring rs (packet_drops a.tp_drops s) m (omega (arith, n)) ∙ omega (arith, n)

-- With the socket open, and a counter of 64 bits: in the modes `raw` and `ring`, whose statistics
-- the kernel resets when they are read, `kernel_drops` grows by all that the calls read.
-- In the mode `udp`, from the first call on, it is how much the kernel's count has grown since that
-- call, or 0 when the count is smaller.
pub updates_lem :
    (first : Answers) (rs : List Answers) (last : Answers) (s : Main)
    → s.base ≡ none
    → s.tel.kernel_drops < 2 ^ 64
    → let all = first ∷ rs ++ last ∷ [] in
      let base = udp_rcvbuf_errors first.snmp in
      let cur = udp_rcvbuf_errors last.snmp in
      ((updates raw all s).tel.kernel_drops ≡ u64 (s.tel.kernel_drops + newly_dropped all))
      × ((updates ring all s).tel.kernel_drops ≡ u64 (s.tel.kernel_drops + newly_dropped all))
      × ((updates udp all s).tel.kernel_drops ≡ (if leb base cur then cur - base else 0))
unfolding update_drops
updates_lem first rs last s fresh small =
    let all = first ∷ rs ++ last ∷ [] in
    let base = udp_rcvbuf_errors first.snmp in
    let cur = udp_rcvbuf_errors last.snmp in
    let s1 = update_drops udp true first s in
    let taken : s1.base ≡ some base = ap (λ b. (udp_drops b base s).base) fresh in
    let kept = updates-base rs s1 taken in
    (
      packet_sum raw all s tt small,
      packet_sum ring all s tt small,
      ap (λ (x : Main). x.tel.kernel_drops) (updates-append udp rs (last ∷ []) s1)
          ∙ ap (λ b. (udp_drops b cur (updates udp rs s1)).tel.kernel_drops) kept,
    )
