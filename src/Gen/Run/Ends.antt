-- ===== src/Gen/Run/Ends.antt =====
-- The run ends when `sendmmsg` answers as documented.
use bvex_vdif_rfsoc.Base.{
  ℕ, suc, ◌+◌, ◌-◌, ◌*◌, ◌^◌, ◌<◌, ◌≤◌, ◌≡◌, refl, ap, ◌∙◌, ◌⊎◌, inl, inr, List, [], ◌∷◌, ◌++◌,
  take, drop, length, Bool-cases, if-true, if-false, leb, ltb, ltb→lt, ◌==◌, if◌then◌else◌, arith,
}
use bvex_vdif_rfsoc.Gen.{GenState, Stamp, advance, inject_gap, fill_batch, SendResult}
use bvex_vdif_rfsoc.Gen.Sequence.{Progress, send_all_ends}
use bvex_vdif_rfsoc.Gen.Run.{
  batch, Sending, Ended, done, on_done, settle, batch_size, send_batch, tick, per_ms, run_ticks,
  source,
}
use bvex_vdif_rfsoc.Gen.Run.Keeps.{Sent, after_batch, after_batch-Sent, length-take-drop}
use bvex_vdif_rfsoc.Gen.Run.Counts.{
  InRun, first_numbers, tick-InRun, first_state, first_state-InRun,
}

-- Enough answers for a batch, and every call sends something.
abbrev pub IsAnswered : List SendResult → Type 0
IsAnswered rs = Progress rs × (batch ≤ length rs)

abbrev pub AllAnswered : List (List SendResult) → Type 0
AllAnswered [] = Unit {0}
AllAnswered (rs ∷ rss) = IsAnswered rs × AllAnswered rss

-- Enough batches for each tick.
abbrev pub Plenty : ℕ → List (List (List SendResult)) → Type 0
Plenty rate [] = Unit {0}
Plenty rate (rss ∷ more) = AllAnswered rss × (per_ms rate ≤ length rss) × Plenty rate more

length-fill_batch :
    (gp : ℕ) (st : Stamp) (g : GenState) (bufs : List (List ℕ))
    → length (fill_batch gp st g bufs).0 ≡ length bufs
unfolding fill_batch
length-fill_batch gp st g [] = refl
length-fill_batch gp st g (b ∷ bs) = ap suc (length-fill_batch gp st (advance (inject_gap gp g)) bs)

send_batch-ends :
    (gp : ℕ) (st : Stamp) (n : ℕ) (rs : List SendResult) (s : Sending)
    → n ≤ batch
    → length s.bufs ≡ batch
    → IsAnswered rs
    → send_batch gp st n rs s ≡ done (after_batch gp st n s)
unfolding send_batch
send_batch-ends gp st n rs s small bufs a =
    let filled = (fill_batch gp st s.numbers (take n s.bufs)).0 in
    let l = length-take-drop n s.bufs (omega (arith, bufs)) in
    let k = length-fill_batch gp st s.numbers (take n s.bufs) in
    ap
      (λ r. settle r n (record s {
        numbers = (fill_batch gp st s.numbers (take n s.bufs)).1;
        bufs = filled ++ drop n s.bufs;
      }))
      (send_all_ends rs [] filled a.0 (omega (arith, a.1, k, l.0)))

module _ (total : ℕ) (g0 : GenState) (few : g0.gaps_injected + total + batch < 2 ^ 64) (gp : ℕ)
    (st : Stamp) where
  tick-ends :
      (rss : List (List SendResult)) (this_tick : ℕ) (s : Sending)
      → AllAnswered rss
      → this_tick ≤ length rss
      → s.sent < total
      → Sent total g0 s
      → (s' : Sending) × (tick total gp st rss this_tick s ≡ done s')
        × (s.sent ≤ s'.sent)
        × ((this_tick ≡ 0) ⊎ (s.sent < s'.sent))
  unfolding tick
  tick-ends [] this_tick s a enough more t =
      (s, if-true (this_tick == 0) _ _ (ground arith), omega arith, inl (omega arith))
  tick-ends (rs ∷ rss) this_tick s a enough more t =
      let n = batch_size this_tick in
      let small : n ≤ batch = ground arith in
      let s1 = after_batch gp st n s in
      let next : Sending → Ended =
        λ s'. if leb total s'.sent then done s' else tick total gp st rss (this_tick - n) s' in
      elim (Bool-cases (this_tick == 0)) [
        | inl z ↦ (s, if-true (this_tick == 0) _ _ z, omega arith, inl (ground arith))
        | inr pos ↦
            let some_frames : 0 < n = ground arith in
            let sends : tick total gp st (rs ∷ rss) this_tick s ≡ next s1 =
              if-false (this_tick == 0) _ _ pos
              ∙ ap (λ r. on_done r next) (send_batch-ends gp st n rs s small t.buffers a.0) in
            elim (Bool-cases (leb total s1.sent)) [
              | inl enough_sent ↦ (
                s1,
                sends ∙ if-true (leb total s1.sent) _ _ enough_sent,
                omega arith,
                inr (omega arith),
              )
              | inr less ↦
                  let r =
                    tick-ends rss (this_tick - n) s1 a.1 (omega arith) (ground arith)
                      (after_batch-Sent total gp st n g0 s few small more t) in
                  (
                    r.0,
                    sends ∙ if-false (leb total s1.sent) _ _ less ∙ r.1,
                    omega (arith, r.2),
                    inr (omega (arith, r.2)),
                  )
            ]
      ]

  run_ticks-ends :
      (rate : ℕ) (answers : List (List (List SendResult))) (s : Sending)
      → Plenty rate answers
      → total ≤ s.sent + length answers
      → InRun total g0 s
      → (s' : Sending) × (run_ticks total rate gp st answers s ≡ done s')
  unfolding run_ticks
  run_ticks-ends rate [] s p enough t = (s, if-false (ltb s.sent total) _ _ (ground arith))
  run_ticks-ends rate (rss ∷ more) s p enough t = elim (Bool-cases (ltb s.sent total)) [
    | inr all ↦ (s, if-false (ltb s.sent total) _ _ all)
    | inl less ↦
        let (s1, ticks, _, grows) =
          tick-ends rss (per_ms rate) s p.0 p.1 (ltb→lt s.sent total less) t.0 in
        let r = run_ticks-ends rate more s1 p.2 (ground arith) (
          tick-InRun total g0 few gp st rss (per_ms rate) s s1 ticks (ltb→lt s.sent total less)
            t.0) in
        (
          r.0,
          if-true (ltb s.sent total) _ _ less
              ∙ ap (λ x. on_done x (run_ticks total rate gp st more)) ticks
              ∙ r.1,
        )
  ]

-- A run whose seconds stay in 30 bits even at two seconds for each of its frames, that is with
-- `sec + 2 * (rate * run_secs + 64) < 2 ^ 30`, ends by itself after at most one tick for each frame,
-- when every call of `sendmmsg` sends something, and there are enough answers for the calls.
pub source-ends :
    (rate run_secs gap_period : ℕ) (st : Stamp) (sec : ℕ) (answers : List (List (List SendResult)))
    → sec + 2 * (rate * run_secs + batch) < 2 ^ 30
    → Plenty rate answers
    → rate * run_secs ≤ length answers
    → (s : Sending) × (source rate run_secs gap_period st sec answers ≡ done s)
unfolding source
source-ends rate run_secs gap_period st sec answers room plenty enough =
    run_ticks-ends (rate * run_secs) (first_numbers sec) (omega (arith, room)) gap_period st rate
      answers (first_state sec) plenty (omega (arith, enough))
      (first_state-InRun (rate * run_secs) sec room)
