-- ===== src/Gen/Run/Keeps.antt =====
-- What every step of the run keeps.
use mathlib.Core.Path.{subst}
use bvex_vdif_rfsoc.Base.{
  ℕ, zero, suc, ◌+◌, ◌-◌, ◌*◌, ◌^◌, ◌<◌, ◌≤◌, ◌≡◌, refl, ap, sym, ◌∙◌, List, [], ◌∷◌, ◌++◌, take,
  drop, length, length-append, arith,
}
use bvex_vdif_rfsoc.Vdif.Stream.{Stream, frame_position}
use bvex_vdif_rfsoc.Gen.{
  GenState, Stamp, fill_batch, inject_gap, advance, SendResult, SendEnd, all_sent, error, waiting,
  send_all,
}
use bvex_vdif_rfsoc.Gen.RoundTrip.{length-fill_vdif_header}
use bvex_vdif_rfsoc.Gen.Sequence.{
  number, IsCounting, AllWhole, fill_batch-Stream, send_all_lem, advance_lem, inject_gap_lem,
}
use bvex_vdif_rfsoc.Gen.Run.{batch, initial_buffers, Sending, done, settle, send_batch}

Stream-append :
    (a b c : ℕ) (xs ys : List (List ℕ)) → Stream a xs b → Stream b ys c → Stream a (xs ++ ys) c
Stream-append a b c [] ys s t = subst (λ (n : ℕ). Stream n ys c) (sym s) t
Stream-append a b c (x ∷ xs) ys s t =
    (s.0, s.1, Stream-append (frame_position x + 1) b c xs ys s.2 t)

AllWhole-append : (xs ys : List (List ℕ)) → AllWhole xs → AllWhole ys → AllWhole (xs ++ ys)
AllWhole-append [] ys h k = k
AllWhole-append (x ∷ xs) ys h k = (h.0, AllWhole-append xs ys h.1 k)

AllWhole-take : (n : ℕ) (xs : List (List ℕ)) → AllWhole xs → AllWhole (take n xs)
AllWhole-take zero xs h = tt
AllWhole-take (suc n) [] h = tt
AllWhole-take (suc n) (x ∷ xs) h = (h.0, AllWhole-take n xs h.1)

AllWhole-drop : (n : ℕ) (xs : List (List ℕ)) → AllWhole xs → AllWhole (drop n xs)
AllWhole-drop zero xs h = h
AllWhole-drop (suc n) [] h = tt
AllWhole-drop (suc n) (x ∷ xs) h = AllWhole-drop n xs h.1

pub length-take-drop :
    (n : ℕ) (xs : List (List ℕ))
    → n ≤ length xs
    → (length (take n xs) ≡ n) × (length (drop n xs) + n ≡ length xs)
length-take-drop zero xs h = (refl, omega arith)
length-take-drop (suc n) [] h = absurd (omega arith)
length-take-drop (suc n) (x ∷ xs) h =
    let r = length-take-drop n xs (omega arith) in (omega (arith, r.0), omega (arith, r.1))

AllWhole-fill_batch :
    (gp : ℕ) (st : Stamp) (g : GenState) (bufs : List (List ℕ))
    → AllWhole bufs
    → AllWhole (fill_batch gp st g bufs).0
unfolding fill_batch
AllWhole-fill_batch gp st g [] h = tt
AllWhole-fill_batch gp st g (b ∷ bs) h =
    let i = inject_gap gp g in
    (
      omega (arith, h.0, length-fill_vdif_header b i.sec i.frame st.ref_epoch st.thread st.station),
      AllWhole-fill_batch gp st (advance i) bs h.1,
    )

IsCounting-fill_batch :
    (gp : ℕ) (st : Stamp) (k : ℕ) (g : GenState) (bufs : List (List ℕ))
    → IsCounting (k + 2 * length bufs) g
    → g.gaps_injected + length bufs < 2 ^ 64
    → IsCounting k (fill_batch gp st g bufs).1
      × ((fill_batch gp st g bufs).1.gaps_injected ≤ g.gaps_injected + length bufs)
unfolding fill_batch
IsCounting-fill_batch gp st k g [] c few = (omega arith, omega arith)
IsCounting-fill_batch gp st k g (b ∷ bs) c few =
    let i = inject_gap_lem {n = suc (k + 2 * length bs)} {g = g} gp (omega arith) (omega arith) in
    let a = advance_lem i.0 in
    let r = IsCounting-fill_batch gp st k (advance (inject_gap gp g)) bs a.0 (omega arith) in
    (r.0, omega (arith, r.1))

pub initial_buffers-whole :
    (left b : ℕ) → AllWhole (initial_buffers left b) × (length (initial_buffers left b) ≡ left)
unfolding initial_buffers
initial_buffers-whole zero b = (tt, refl)
initial_buffers-whole (suc left) b =
    let r = initial_buffers-whole left (b + 1) in ((omega arith, r.0), ap suc r.1)

-- The run so far: with room for `total` frames and one more batch, the datagrams are a stream from
-- the first number to the next, as many as were sent, less the numbers left out for gaps.
pub record Sent (total : ℕ) (g0 : GenState) (s : Sending) : Type 0 where
  pub streams : Stream (number g0) s.out (number s.numbers)
  pub counted : number s.numbers + g0.gaps_injected ≡ number g0 + s.sent + s.numbers.gaps_injected
  pub whole : length s.out ≡ s.sent
  pub buffered : AllWhole s.bufs
  pub buffers : length s.bufs ≡ batch
  pub counting : IsCounting (2 * (total + batch - s.sent)) s.numbers
  pub few_gaps : s.numbers.gaps_injected ≤ g0.gaps_injected + s.sent
  pub more_gaps : g0.gaps_injected ≤ s.numbers.gaps_injected

-- The state behind a batch of `n` that went out whole.
abbrev pub after_batch : ℕ → Stamp → ℕ → Sending → Sending
after_batch gp st n s =
    let (filled, g) = fill_batch gp st s.numbers (take n s.bufs) in
    record { numbers = g; bufs = filled ++ drop n s.bufs; sent = s.sent + n; out = s.out ++ filled }

settle-done :
    (r : SendEnd) (n : ℕ) (s : Sending) {s' : Sending}
    → settle r n s ≡ done s'
    → (gone : List (List ℕ)) × (r ≡ all_sent gone)
      × (record s { sent = s.sent + n; out = s.out ++ gone } ≡ s')
settle-done (all_sent gone) n s e = (gone, refl, ground arith)
settle-done (error gone) n s e = cc
settle-done (waiting gone) n s e = cc

pub send_batch-after :
    (gp : ℕ) (st : Stamp) (n : ℕ) (rs : List SendResult) (s : Sending) {s' : Sending}
    → send_batch gp st n rs s ≡ done s'
    → s' ≡ after_batch gp st n s
unfolding send_batch
send_batch-after gp st n rs s {s'} e =
    let filled = (fill_batch gp st s.numbers (take n s.bufs)).0 in
    let next : Sending = record s {
      numbers = (fill_batch gp st s.numbers (take n s.bufs)).1;
      bufs = filled ++ drop n s.bufs;
    } in
    let (gone, all, is_next) = settle-done (send_all rs [] filled) n next e in
    sym is_next
    ∙ ap (λ (t : List (List ℕ)). record next { sent = s.sent + n; out = s.out ++ t })
        (send_all_lem rs [] filled gone all)

pub after_batch-Sent :
    (total gp : ℕ) (st : Stamp) (n : ℕ) (g0 : GenState) (s : Sending)
    → g0.gaps_injected + total + batch < 2 ^ 64
    → n ≤ batch
    → s.sent < total
    → Sent total g0 s
    → Sent total g0 (after_batch gp st n s)
after_batch-Sent total gp st n g0 s few fits more t =
    let l = length-take-drop n s.bufs (omega (arith, t.buffers)) in
    let bufs = take n s.bufs in
    let whole = AllWhole-take n s.bufs t.buffered in
    let c =
      IsCounting-fill_batch gp st (2 * (total + batch - (s.sent + n))) s.numbers bufs
        (omega (arith, l.0, t.counting)) (omega (arith, l.0, t.few_gaps)) in
    let f =
      fill_batch-Stream gp st {g = s.numbers} bufs whole (omega (arith, l.0, t.counting))
        (omega (arith, l.0, t.few_gaps)) in
    let filled = (fill_batch gp st s.numbers bufs).0 in
    record {
      streams = Stream-append (number g0) (number s.numbers) _ s.out filled t.streams f.0;
      counted = omega (arith, t.counted, f.1, l.0);
      whole = omega (arith, length-append s.out filled, f.2, l.0, t.whole);
      buffered =
          AllWhole-append filled (drop n s.bufs) (AllWhole-fill_batch gp st s.numbers bufs whole)
            (AllWhole-drop n s.bufs t.buffered);
      buffers = omega (arith, length-append filled (drop n s.bufs), f.2, l.0, l.1, t.buffers);
      counting = c.0;
      few_gaps = omega (arith, c.1, l.0, t.few_gaps);
      more_gaps = omega (arith, f.3, t.more_gaps);
    }
