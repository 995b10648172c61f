-- ===== src/Gen/Sequence.antt =====
-- The numbers that the generator gives its frames: in order, with one left out for each gap.
use mathlib.Core.Path.{subst}
use mathlib.Core.List.{append_assoc, append-nil}
use bvex_vdif_rfsoc.Base.{
  ℕ, zero, suc, ◌+◌, ◌-◌, ◌*◌, ◌^◌, ◌≤◌, ◌<◌, ◌≡◌, refl, ap, sym, ◌∙◌, List, [], ◌∷◌, ◌++◌,
}
use bvex_vdif_rfsoc.Base.{arith, take, drop, length}
use bvex_vdif_rfsoc.Vdif.{Vhdr, parse_vhdr}
use bvex_vdif_rfsoc.Vdif.Stream.{Stream, IsFrame, frame_position}
use bvex_vdif_rfsoc.Gen.RoundTrip.{parse_vhdr-fill_vdif_header, length-fill_vdif_header}
use bvex_vdif_rfsoc.Gen.{
  fps, GenState, advance, inject_gap, Stamp, fill_batch, fill_vdif_header, SendResult, sent,
  try_again, failed, all_sent, send_all,
}

abbrev pub number : GenState → ℕ
number g = g.sec * fps + g.frame

-- A state whose frame number lies within its second, with room for `n` more seconds.
pub record IsCounting (n : ℕ) (g : GenState) : Type 0 where
  pub in_second : g.frame < fps
  pub seconds : g.sec + n < 2 ^ 30

pub advance_lem :
    {n : ℕ} {g : GenState}
    → IsCounting (suc n) g
    → IsCounting n (advance g)
      × (number (advance g) ≡ number g + 1)
      × ((advance g).gapctr ≡ g.gapctr)
      × ((advance g).gaps_injected ≡ g.gaps_injected)
unfolding advance
advance_lem c = ground arith

take-append-drop : (k : ℕ) (xs : List (List ℕ)) → take k xs ++ drop k xs ≡ xs
take-append-drop zero xs = refl
take-append-drop (suc k) [] = refl
take-append-drop (suc k) (x ∷ xs) = ap (λ t. x ∷ t) (take-append-drop k xs)

-- However `sendmmsg` splits a batch, when the send loop ends with everything sent the datagrams that
-- went out are those of the batch, each once and in order.
pub send_all_lem :
    (rs : List SendResult) (out bs done : List (List ℕ))
    → send_all rs out bs ≡ all_sent done
    → done ≡ out ++ bs
unfolding send_all
send_all_lem rs out [] done e = ground (arith, append-nil out)
send_all_lem [] out (b ∷ bs) done e = cc
send_all_lem (sent k ∷ rs) out (b ∷ bs) done e =
    send_all_lem rs (out ++ take k (b ∷ bs)) (drop k (b ∷ bs)) done e
    ∙ append_assoc out (take k (b ∷ bs)) (drop k (b ∷ bs))
    ∙ ap (λ t. out ++ t) (take-append-drop k (b ∷ bs))
send_all_lem (try_again ∷ rs) out (b ∷ bs) done e = send_all_lem rs out (b ∷ bs) done e
send_all_lem (failed ∷ rs) out (b ∷ bs) done e = cc

-- Every call sends something, as `sendmmsg` documents of a call that does not fail.
abbrev pub Progress : List SendResult → Type 0
Progress [] = Unit {0}
Progress (sent k ∷ rs) = (0 < k) × Progress rs
Progress (try_again ∷ rs) = ⊥
Progress (failed ∷ rs) = ⊥

length-drop : (k : ℕ) (xs : List (List ℕ)) → length (drop k xs) ≡ length xs - k
length-drop zero xs = omega arith
length-drop (suc k) [] = omega arith
length-drop (suc k) (x ∷ xs) = omega (arith, length-drop k xs)

-- The send loop ends with everything sent after at most one call for each datagram, when every call
-- sends something.
pub send_all_ends :
    (rs : List SendResult) (out bs : List (List ℕ))
    → Progress rs
    → length bs ≤ length rs
    → send_all rs out bs ≡ all_sent (out ++ bs)
unfolding send_all
send_all_ends rs out [] p h = ground (arith, append-nil out)
send_all_ends [] out (b ∷ bs) p h = absurd (omega arith)
send_all_ends (sent k ∷ rs) out (b ∷ bs) p h =
    send_all_ends rs (out ++ take k (b ∷ bs)) (drop k (b ∷ bs)) p.1
      (omega (arith, p.0, length-drop k (b ∷ bs)))
    ∙ ap all_sent (
        append_assoc out (take k (b ∷ bs)) (drop k (b ∷ bs))
        ∙ ap (λ t. out ++ t) (take-append-drop k (b ∷ bs)))
send_all_ends (try_again ∷ rs) out (b ∷ bs) p h = absurd p
send_all_ends (failed ∷ rs) out (b ∷ bs) p h = absurd p

-- An injected gap moves the number on by one and counts one; no gap leaves both.
pub inject_gap_lem :
    {n : ℕ} {g : GenState} (gp : ℕ)
    → IsCounting (suc n) g
    → g.gaps_injected + 1 < 2 ^ 64
    → IsCounting n (inject_gap gp g)
      × (number (inject_gap gp g) + g.gaps_injected ≡ number g + (inject_gap gp g).gaps_injected)
      × (g.gaps_injected ≤ (inject_gap gp g).gaps_injected)
      × ((inject_gap gp g).gaps_injected ≤ g.gaps_injected + 1)
unfolding inject_gap
inject_gap_lem {n} {g} gp c few = ground (arith, advance_lem c)

-- The buffers that the generator sends: 8032 bytes each.
abbrev pub AllWhole : List (List ℕ) → Type 0
AllWhole [] = Unit {0}
AllWhole (b ∷ bs) = (8032 ≤ length b) × AllWhole bs

pub filled-IsFrame :
    {n : ℕ} {g : GenState} (st : Stamp) (buf : List ℕ)
    → IsCounting n g
    → 8032 ≤ length buf
    → let b = fill_vdif_header buf g.sec g.frame st.ref_epoch st.thread st.station in
      IsFrame b × (frame_position b ≡ number g)
filled-IsFrame {n} {g} st buf c whole =
    let e =
      parse_vhdr-fill_vdif_header buf g.sec g.frame st.ref_epoch st.thread st.station
        (omega arith) in
    let s : (parse_vhdr (fill_vdif_header buf g.sec g.frame st.ref_epoch st.thread st.station)
          0).sec
        ≡ g.sec =
      ap (λ (h : Vhdr). h.sec) e ∙ omega arith in
    let f : (parse_vhdr (fill_vdif_header buf g.sec g.frame st.ref_epoch st.thread st.station)
          0).frame
        ≡ g.frame =
      ap (λ (h : Vhdr). h.frame) e ∙ omega arith in
    (
      record {
        good_len = ap (λ (h : Vhdr). h.frame_len) e;
        timed = omega arith;
        whole =
            omega
              (arith, length-fill_vdif_header buf g.sec g.frame st.ref_epoch st.thread st.station);
      },
      omega arith,
    )

-- With the numbers within range, a batch of whole buffers goes out as frames at increasing
-- positions from the next number on, and the positions left out are as many as the gaps counted.
pub fill_batch-Stream :
    (gp : ℕ) (st : Stamp) {g : GenState} (bufs : List (List ℕ))
    → AllWhole bufs
    → IsCounting (2 * length bufs) g
    → g.gaps_injected + length bufs < 2 ^ 64
    → let (out, g') = fill_batch gp st g bufs in
      Stream (number g) out (number g')
      × (number g' + g.gaps_injected ≡ number g + length bufs + g'.gaps_injected)
      × (length out ≡ length bufs)
      × (g.gaps_injected ≤ g'.gaps_injected)
unfolding fill_batch
fill_batch-Stream gp st [] w c few = (refl, omega arith, refl, omega arith)
fill_batch-Stream gp st {g} (buf ∷ bufs) w c few =
    let i = inject_gap_lem {n = suc (2 * length bufs)} {g = g} gp (omega arith) (omega arith) in
    let a = advance_lem i.0 in
    let b = filled-IsFrame st buf i.0 w.0 in
    let r = fill_batch-Stream gp st {g = advance (inject_gap gp g)} bufs w.1 a.0 (omega arith) in
    (
      (
        b.0,
        omega arith,
        subst
            (λ t.
              Stream t (fill_batch gp st (advance (inject_gap gp g)) bufs).0
                (number (fill_batch gp st (advance (inject_gap gp g)) bufs).1))
            (a.1 ∙ sym (ap (λ (t : ℕ). t + 1) b.1)) r.0,
      ),
      omega arith,
      omega arith,
      omega arith,
    )
