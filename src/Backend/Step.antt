-- ===== src/Backend/Step.antt =====
-- One frame of a stream in order: what it does to the counters and to the log.
use mathlib.Core.Path.{subst}
use bvex_vdif_rfsoc.Base.{ℕ, ◌+◌, ◌-◌, ◌^◌, ◌≤◌, ◌<◌, ◌≡◌, ap, sym, ◌∙◌, List, [], ◌∷◌}
use mathlib.Core.List.{append-nil}
use bvex_vdif_rfsoc.Base.{block, length-append, ◌++◌, refl, inl, inr}
use bvex_vdif_rfsoc.Base.{true, none, some, arith, length, u64}
use bvex_vdif_rfsoc.Vdif.{Vhdr, parse_vhdr, vdif_frame_bytes}
use bvex_vdif_rfsoc.Vdif.Stream.{IsFrame, IsTimed, position, frame_position}
use bvex_vdif_rfsoc.Telemetry.{Telemetry, add_seen, add_spsc_drop}
use bvex_vdif_rfsoc.Capture.{
  Config, CapState, Shared, Outcome, next, start_gate, account, second_verdict, remember,
}
use bvex_vdif_rfsoc.Capture.Account.{
  PrevTimed, prev_position, judge, account_refines, judge_later, account_drops,
}
use bvex_vdif_rfsoc.Capture.Log.{Entry, log, Sifted}
use bvex_vdif_rfsoc.Capture.Fate.{
  IsReady, Follows, Fate, rejected, awaited, stored, dropped, Processed, observed,
  start_gate_running, second_verdict_counts,
}

-- The recording has begun, and `next` is the position after the last frame.
pub record IsTracking (at : ℕ) (s : CapState) : Type 0 where
  pub started : s.started ≡ true
  pub have_prev : s.have_prev ≡ true
  pub prev : PrevTimed s
  pub follows_prev : prev_position s + 1 ≡ at

-- The counters of the accounting that a stream in order must leave alone, and those that it moves.
pub record Counted (missing seen : ℕ) (t t' : Telemetry) : Type 0 where
  pub gap_frames : t'.gap_frames ≡ u64 (t.gap_frames + missing)
  pub frames_seen : t'.frames_seen ≡ u64 (t.frames_seen + seen)
  pub dup : t'.dup ≡ t.dup
  pub ooo : t'.ooo ≡ t.ooo
  pub bad_frames : t'.bad_frames ≡ t.bad_frames

pub Counted-observed :
    (h : Vhdr) (s : CapState) (t : Telemetry) {at : ℕ}
    → IsTracking at s
    → IsTimed h
    → at ≤ position h.sec h.frame
    → t.gap_frames < 2 ^ 64
    → Counted (position h.sec h.frame - at) 1 t (observed h s t)
Counted-observed h s t {at} k v le word = record {
  gap_frames =
      sv.0
      ∙ ap (λ (t : Telemetry). t.gap_frames) acc
      ∙ jl.0
      ∙ ap (λ (n : ℕ). u64 (t.gap_frames + (position h.sec h.frame - n))) k.follows_prev;
  frames_seen = sv.1 ∙ ap (λ (t : Telemetry). t.frames_seen) acc ∙ jl.1;
  dup = sv.2 ∙ ap (λ (t : Telemetry). t.dup) acc ∙ jl.2;
  ooo = sv.3 ∙ ap (λ (t : Telemetry). t.ooo) acc ∙ jl.3;
  bad_frames = sv.4 ∙ ap (λ (t : Telemetry). t.bad_frames) acc ∙ jl.4;
}
  where
    acc : account s h (add_seen t) ≡ judge (prev_position s) (position h.sec h.frame) (add_seen t)
    acc = account_refines s h (add_seen t) k.have_prev k.prev v

    sv :
        let t' = account s h (add_seen t) in
        ((second_verdict h (remember h s) t').gap_frames ≡ t'.gap_frames)
        × ((second_verdict h (remember h s) t').frames_seen ≡ t'.frames_seen)
        × ((second_verdict h (remember h s) t').dup ≡ t'.dup)
        × ((second_verdict h (remember h s) t').ooo ≡ t'.ooo)
        × ((second_verdict h (remember h s) t').bad_frames ≡ t'.bad_frames)
        × ((second_verdict h (remember h s) t').spsc_drops ≡ t'.spsc_drops)
    sv = second_verdict_counts h (remember h s) (account s h (add_seen t))

    jl :
        let t' = judge (prev_position s) (position h.sec h.frame) (add_seen t) in
        (t'.gap_frames ≡ u64 (t.gap_frames + (position h.sec h.frame - (prev_position s + 1))))
        × (t'.frames_seen ≡ u64 (t.frames_seen + 1))
        × (t'.dup ≡ t.dup)
        × (t'.ooo ≡ t.ooo)
        × (t'.bad_frames ≡ t.bad_frames)
    jl = judge_later (prev_position s) (position h.sec h.frame) (add_seen t) (omega arith) word

Counted-trans :
    {m n k l : ℕ} {t t' t'' : Telemetry}
    → Counted m n t t'
    → Counted k l t' t''
    → Counted (m + k) (n + l) t t''
Counted-trans a b = omega arith

-- What one datagram did to the log and to the drop counter.
pub record Stepped (cfg : Config) (hand : List ℕ) (at : ℕ) (s : CapState) (sh : Shared) (b : List ℕ)
    (o : Outcome) : Type 0 where
  pub after : CapState
  pub shared : Shared
  pub lost : ℕ
  pub returns : o ≡ next after shared
  pub ready : IsReady cfg hand after shared
  pub tracking : IsTracking (frame_position b + 1) after
  pub counted : Counted (frame_position b - at) 1 sh.tel shared.tel
  pub kept : length (log cfg after shared) + lost ≡ length (log cfg s sh) + 1
  pub losses : shared.tel.spsc_drops ≡ u64 (sh.tel.spsc_drops + lost)
  pub stored : List Entry
  pub logged : log cfg after shared ≡ log cfg s sh ++ stored
  pub sifted : Sifted (b ∷ []) stored lost

none≢some : {s : CapState} → none ≡ some s → ⊥
none≢some e = cc

some-inj : (s s1 : CapState) → some s ≡ some s1 → s1 ≡ s
some-inj s s1 e = cc

Follows-IsTracking :
    {cfg : Config} {b : List ℕ} {s1 after : CapState}
    → Follows cfg (parse_vhdr b 0) s1 after
    → IsFrame b
    → IsTracking (frame_position b + 1) after
Follows-IsTracking f g = record {
  started = f.started;
  have_prev = f.have_prev;
  prev = omega (arith, f.prev_sec, f.prev_frame, g.timed);
  follows_prev = omega (arith, f.prev_sec, f.prev_frame);
}

observed_drops :
    (h : Vhdr) (s : CapState) (t : Telemetry) → (observed h s t).spsc_drops ≡ t.spsc_drops
observed_drops h s t =
    (second_verdict_counts h (remember h s) (account s h (add_seen t))).5
    ∙ account_drops s h (add_seen t)

add_spsc_drop-Counted :
    {m n : ℕ} {t t' : Telemetry} → Counted m n t t' → Counted m n t (add_spsc_drop t')
add_spsc_drop-Counted c = omega arith

module _ (cfg : Config) (hand : List ℕ) (at : ℕ) (s : CapState) (sh : Shared) (b : List ℕ)
    (o : Outcome) (k : IsTracking at s) (g : IsFrame b) (le : at ≤ frame_position b)
    (gap_word : sh.tel.gap_frames < 2 ^ 64) (drop_word : sh.tel.spsc_drops < 2 ^ 64)
    (p : Processed cfg hand s sh b o) where
  -- The gate is open, so the accounting starts from `s` itself.
  from_here :
      (s1 : CapState)
      → start_gate cfg (parse_vhdr b 0) s ≡ some s1
      → Counted (frame_position b - at) 1 sh.tel (observed (parse_vhdr b 0) s1 sh.tel)
  from_here s1 gate =
      subst (λ c. Counted (frame_position b - at) 1 sh.tel (observed (parse_vhdr b 0) c sh.tel))
        (sym (some-inj s s1 (sym (start_gate_running cfg (parse_vhdr b 0) s k.started) ∙ gate)))
        (Counted-observed (parse_vhdr b 0) s sh.tel k g.timed le gap_word)

  pub by-Fate : Fate cfg s sh b p.after p.shared → Stepped cfg hand at s sh b o
  by-Fate (rejected bad e1 e2) = absurd (bad g.good_len)
  by-Fate (awaited good gate e1 e2) =
      absurd (none≢some (sym gate ∙ start_gate_running cfg (parse_vhdr b 0) s k.started))
  by-Fate (stored s1 good gate f l t) = record {
    after = p.after;
    shared = p.shared;
    lost = 0;
    returns = p.returns;
    ready = p.ready;
    tracking = Follows-IsTracking f g;
    counted = subst (Counted (frame_position b - at) 1 sh.tel) (sym t) (from_here s1 gate);
    kept = omega (
      arith,
      ap (length {A = Entry}) l,
      length-append (log cfg s sh) ((p.after.cur_file_id, block b 0 vdif_frame_bytes) ∷ []),
    );
    losses =
        ap (λ (u : Telemetry). u.spsc_drops) t
        ∙ observed_drops (parse_vhdr b 0) s1 sh.tel
        ∙ omega arith;
    stored = (p.after.cur_file_id, block b 0 vdif_frame_bytes) ∷ [];
    logged = l;
    sifted = inl (p.after.cur_file_id, [], refl, (refl, refl));
  }
  by-Fate (dropped s1 good gate f l t e) = record {
    after = p.after;
    shared = p.shared;
    lost = 1;
    returns = p.returns;
    ready = p.ready;
    tracking = Follows-IsTracking f g;
    counted =
        subst (Counted (frame_position b - at) 1 sh.tel) (sym t)
          (add_spsc_drop-Counted (from_here s1 gate));
    kept = ap (λ xs. length xs + 1) l;
    losses =
        ap (λ (u : Telemetry). u.spsc_drops) t
        ∙ ap (λ (n : ℕ). u64 (n + 1)) (observed_drops (parse_vhdr b 0) s1 sh.tel);
    stored = [];
    logged = l ∙ sym (append-nil (log cfg s sh));
    sifted = inr (0, refl, (refl, refl));
  }
