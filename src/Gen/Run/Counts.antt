-- ===== src/Gen/Run/Counts.antt =====
-- How many frames the run sends.
use mathlib.Core.Path.{subst}
use bvex_vdif_rfsoc.Base.{
  ℕ, ◌+◌, ◌-◌, ◌*◌, ◌^◌, ◌<◌, ◌≤◌, ◌≡◌, refl, ap, sym, inl, inr, List, [], ◌∷◌, if-cases, ltb→lt,
  leb-false→lt, ltb-false→le, leb, ltb, ◌==◌, arith,
}
use bvex_vdif_rfsoc.Gen.{GenState, Stamp, SendResult}
use bvex_vdif_rfsoc.Gen.Run.{
  batch, initial_buffers, Sending, Ended, done, broken, pending, on_done, batch_size, send_batch,
  tick, per_ms, run_ticks, source,
}
use bvex_vdif_rfsoc.Gen.Run.Keeps.{Sent, send_batch-after, after_batch-Sent, initial_buffers-whole}

on_done-done :
    (r : Ended) (next : Sending → Ended) {s' : Sending}
    → on_done r next ≡ done s'
    → (s1 : Sending) × (r ≡ done s1) × (next s1 ≡ done s')
on_done-done (done s) next e = (s, refl, e)
on_done-done (broken s) next e = cc
on_done-done (pending s) next e = cc

done-injective : {s s' : Sending} → done s ≡ done s' → s ≡ s'
done-injective e = ground arith

-- The run has sent at most one batch more than asked for.
module _ (total : ℕ) (g0 : GenState) where
  abbrev pub InRun : Sending → Type 0
  InRun s = Sent total g0 s × (s.sent < total + batch)

  module _ (few : g0.gaps_injected + total + batch < 2 ^ 64) (gp : ℕ) (st : Stamp) where
    pub tick-InRun :
        (rss : List (List SendResult)) (this_tick : ℕ) (s s' : Sending)
        → tick total gp st rss this_tick s ≡ done s'
        → s.sent < total
        → Sent total g0 s
        → InRun s'
    unfolding tick
    tick-InRun [] this_tick s s' e more t =
        elim (if-cases (this_tick == 0) (done s) (pending s) e) [
          | inl (_, same) ↦ subst InRun (done-injective same) (t, omega arith)
          | inr (_, stuck) ↦ cc
        ]
    tick-InRun (rs ∷ rss) this_tick s s' e more t =
        let n = batch_size this_tick in
        elim (if-cases (this_tick == 0) (done s) _ e) [
          | inl (_, same) ↦ subst InRun (done-injective same) (t, omega arith)
          | inr (_, e1) ↦
              let (s1, sent, e2) = on_done-done (send_batch gp st n rs s) _ e1 in
              let is_after = send_batch-after gp st n rs s sent in
              let small : n ≤ batch = ground arith in
              let t1 : Sent total g0 s1 =
                subst (Sent total g0) (sym is_after)
                  (after_batch-Sent total gp st n g0 s few small more t) in
              let k : s1.sent ≡ s.sent + n = ap (λ (x : Sending). x.sent) is_after in
              elim (if-cases (leb total s1.sent) (done s1) _ e2) [
                | inl (_, same) ↦ subst InRun (done-injective same) (t1, omega arith)
                | inr (few_sent, e3) ↦
                    tick-InRun rss (this_tick - n) s1 s' e3 (leb-false→lt total s1.sent few_sent) t1
              ]
        ]

    run_ticks-InRun :
        (rate : ℕ) (answers : List (List (List SendResult))) (s s' : Sending)
        → run_ticks total rate gp st answers s ≡ done s'
        → InRun s
        → InRun s' × (total ≤ s'.sent)
    unfolding run_ticks
    run_ticks-InRun rate [] s s' e t = elim (if-cases (ltb s.sent total) (pending s) (done s) e) [
      | inl (_, stuck) ↦ cc
      | inr (enough, same) ↦
          subst (λ x. InRun x × (total ≤ x.sent)) (done-injective same)
            (t, ltb-false→le s.sent total enough)
    ]
    run_ticks-InRun rate (rss ∷ more) s s' e t = elim (if-cases (ltb s.sent total) _ (done s) e) [
      | inl (less, e1) ↦
          let (s1, ticked, e2) = on_done-done (tick total gp st rss (per_ms rate) s) _ e1 in
          run_ticks-InRun rate more s1 s' e2
            (tick-InRun rss (per_ms rate) s s1 ticked (ltb→lt s.sent total less) t.0)
      | inr (enough, same) ↦
          subst (λ x. InRun x × (total ≤ x.sent)) (done-injective same)
            (t, ltb-false→le s.sent total enough)
    ]

-- The numbers of the first frame.
abbrev pub first_numbers : ℕ → GenState
first_numbers sec = record { sec = sec; frame = 0; gapctr = 0; gaps_injected = 0 }

abbrev pub first_state : ℕ → Sending
first_state sec = record {
  numbers = first_numbers sec;
  bufs = initial_buffers batch 0;
  sent = 0;
  out = [];
}

pub first_state-InRun :
    (total sec : ℕ)
    → sec + 2 * (total + batch) < 2 ^ 30
    → InRun total (first_numbers sec) (first_state sec)
first_state-InRun total sec room =
    let b = initial_buffers-whole batch 0 in
    (
      record {
        streams = refl;
        counted = omega arith;
        whole = refl;
        buffered = b.0;
        buffers = b.1;
        counting = record { in_second = omega arith; seconds = omega (arith, room) };
        few_gaps = omega arith;
        more_gaps = omega arith;
      },
      omega arith,
    )

-- However `sendmmsg` answers, when the run ends by itself it has sent the frames asked for and less
-- than one batch more. What went out is a stream of frames from the first number of second `sec` on,
-- as many as were sent, and the numbers left out are as many as the gaps counted. The seconds are to
-- stay within their field even at two seconds for each frame.
pub source-Sent :
    (rate run_secs gap_period : ℕ) (st : Stamp) (sec : ℕ) (answers : List (List (List SendResult)))
    {s : Sending}
    → sec + 2 * (rate * run_secs + batch) < 2 ^ 30
    → source rate run_secs gap_period st sec answers ≡ done s
    → Sent (rate * run_secs) (first_numbers sec) s
      × (rate * run_secs ≤ s.sent)
      × (s.sent < rate * run_secs + batch)
unfolding source
source-Sent rate run_secs gap_period st sec answers {s} room e =
    let total = rate * run_secs in
    let r =
      run_ticks-InRun total (first_numbers sec) (omega (arith, room)) gap_period st rate answers
        (first_state sec) s e (first_state-InRun total sec room) in
    (r.0.0, r.1, r.0.1)
