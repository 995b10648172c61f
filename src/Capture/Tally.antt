-- ===== src/Capture/Tally.antt =====
-- What became of the packets that a receive loop got through: each is counted once.
use mathlib.Core.Path.{subst}
use bvex_vdif_rfsoc.Base.{suc}
use bvex_vdif_rfsoc.Capture.{Outcome, next}
use bvex_vdif_rfsoc.Capture.Pool.{IsPool-retimed}
use bvex_vdif_rfsoc.Capture.Fate.{IsReady}
use bvex_vdif_rfsoc.Base.{ℕ, ◌+◌, ◌^◌, ◌<◌, ◌≡◌, refl, ap, ◌∙◌, List, [], ◌∷◌}
use bvex_vdif_rfsoc.Base.{arith, length, u64, length-append}
use bvex_vdif_rfsoc.Base.{block}
use bvex_vdif_rfsoc.Vdif.{Vhdr, parse_vhdr, vdif_frame_bytes}
use bvex_vdif_rfsoc.Telemetry.{Telemetry, add_seen, add_bad}
use bvex_vdif_rfsoc.Capture.{Config, CapState, Shared, account, remember, with_tel}
use bvex_vdif_rfsoc.Capture.Account.{account_counts}
use bvex_vdif_rfsoc.Capture.Log.{Entry, log}
use bvex_vdif_rfsoc.Capture.Fate.{
  Fate, rejected, awaited, stored, dropped, observed, second_verdict_counts,
}

-- What became of `n` messages.
pub record Tally (n : ℕ) (t t' : Telemetry) (before after : ℕ) : Type 0 where
  pub bad : ℕ
  pub waiting : ℕ
  pub kept : ℕ
  pub lost : ℕ
  pub all : bad + waiting + kept + lost ≡ n
  pub bad_frames : t'.bad_frames ≡ u64 (t.bad_frames + bad)
  pub frames_seen : t'.frames_seen ≡ u64 (t.frames_seen + (waiting + kept + lost))
  pub spsc_drops : t'.spsc_drops ≡ u64 (t.spsc_drops + lost)
  pub logged : after ≡ before + kept

-- The counters are 64-bit words.
abbrev pub AreWords : Telemetry → Type 0
AreWords t = (t.bad_frames < 2 ^ 64) × (t.frames_seen < 2 ^ 64) × (t.spsc_drops < 2 ^ 64)

pub Tally-trans :
    {m n i j k : ℕ} {t t' t'' : Telemetry}
    → Tally m t t' i j
    → Tally n t' t'' j k
    → Tally (m + n) t t'' i k
Tally-trans a b = record {
  bad = a.bad + b.bad;
  waiting = a.waiting + b.waiting;
  kept = a.kept + b.kept;
  lost = a.lost + b.lost;
  all = omega (arith, a.all, b.all);
  bad_frames = omega (arith, a.bad_frames, b.bad_frames);
  frames_seen = omega (arith, a.frames_seen, b.frames_seen);
  spsc_drops = omega (arith, a.spsc_drops, b.spsc_drops);
  logged = omega (arith, a.logged, b.logged);
}

observed_counts :
    (h : Vhdr) (s : CapState) (t : Telemetry)
    → ((observed h s t).bad_frames ≡ t.bad_frames)
      × ((observed h s t).frames_seen ≡ u64 (t.frames_seen + 1))
      × ((observed h s t).spsc_drops ≡ t.spsc_drops)
observed_counts h s t =
    let v = second_verdict_counts h (remember h s) (account s h (add_seen t)) in
    let a = account_counts s h (add_seen t) in (v.4 ∙ a.0, v.1 ∙ a.1, v.5 ∙ a.2)

pub Tally-add_bad : (t : Telemetry) (n : ℕ) → AreWords t → Tally 1 t (add_bad t) n n
Tally-add_bad t n w = record {
  bad = 1;
  waiting = 0;
  kept = 0;
  lost = 0;
  all = refl;
  bad_frames = refl;
  frames_seen = omega (arith, w);
  spsc_drops = omega (arith, w);
  logged = omega arith;
}

Tally-add_seen : (t : Telemetry) (n : ℕ) → AreWords t → Tally 1 t (add_seen t) n n
Tally-add_seen t n w = record {
  bad = 0;
  waiting = 1;
  kept = 0;
  lost = 0;
  all = refl;
  bad_frames = omega (arith, w);
  frames_seen = omega arith;
  spsc_drops = omega (arith, w);
  logged = omega arith;
}

unmoved :
    (cfg : Config) {s after : CapState} {sh shared : Shared} (g : Telemetry → Telemetry)
    → after ≡ s
    → shared ≡ with_tel g sh
    → Tally 1 sh.tel (g sh.tel) (length (log cfg s sh)) (length (log cfg s sh))
    → Tally 1 sh.tel shared.tel (length (log cfg s sh)) (length (log cfg after shared))
unmoved cfg g e1 e2 k = rw (e1, e2) k

pub Fate-Tally :
    {cfg : Config} {s : CapState} {sh : Shared} {vdif : List ℕ} {after : CapState} {shared : Shared}
    → AreWords sh.tel
    → Fate cfg s sh vdif after shared
    → Tally 1 sh.tel shared.tel (length (log cfg s sh)) (length (log cfg after shared))
Fate-Tally {cfg} {s} {sh} w (rejected bad e1 e2) =
    unmoved cfg add_bad e1 e2 (Tally-add_bad sh.tel (length (log cfg s sh)) w)
Fate-Tally {cfg} {s} {sh} w (awaited good gate e1 e2) =
    unmoved cfg add_seen e1 e2 (Tally-add_seen sh.tel (length (log cfg s sh)) w)
Fate-Tally {cfg} {s} {sh} {vdif} {after} {shared} w (stored s1 good gate f l t) =
    let c = observed_counts (parse_vhdr vdif 0) s1 sh.tel in
    record {
      bad = 0;
      waiting = 0;
      kept = 1;
      lost = 0;
      all = refl;
      bad_frames = ap (λ (u : Telemetry). u.bad_frames) t ∙ c.0 ∙ omega (arith, w);
      frames_seen = ap (λ (u : Telemetry). u.frames_seen) t ∙ c.1 ∙ omega arith;
      spsc_drops = ap (λ (u : Telemetry). u.spsc_drops) t ∙ c.2 ∙ omega (arith, w);
      logged =
          ap (length {A = Entry}) l
          ∙ length-append (log cfg s sh) ((after.cur_file_id, block vdif 0 vdif_frame_bytes) ∷ []);
    }
Fate-Tally {cfg} {s} {sh} {vdif} {after} {shared} w (dropped s1 good gate f l t empty) =
    let c = observed_counts (parse_vhdr vdif 0) s1 sh.tel in
    record {
      bad = 0;
      waiting = 0;
      kept = 0;
      lost = 1;
      all = refl;
      bad_frames = ap (λ (u : Telemetry). u.bad_frames) t ∙ c.0 ∙ omega (arith, w);
      frames_seen = ap (λ (u : Telemetry). u.frames_seen) t ∙ c.1 ∙ omega arith;
      spsc_drops = ap (λ (u : Telemetry). u.spsc_drops) t ∙ ap (λ (n : ℕ). u64 (n + 1)) c.2;
      logged = ap (length {A = Entry}) l ∙ omega arith;
    }

-- The counters stay words.
pub Tally-AreWords : {n i j : ℕ} {t t' : Telemetry} → Tally n t t' i j → AreWords t'
Tally-AreWords k = omega (arith, k.bad_frames, k.frames_seen, k.spsc_drops)

-- A loop that got through `n` messages.
pub record Tallied (cfg : Config) (hand : List ℕ) (n : ℕ) (s : CapState) (sh : Shared) (o : Outcome)
    : Type 0 where
  pub after : CapState
  pub shared : Shared
  pub returns : o ≡ next after shared
  pub ready : IsReady cfg hand after shared
  pub tally : Tally n sh.tel shared.tel (length (log cfg s sh)) (length (log cfg after shared))

pub Tallied-nil :
    {cfg : Config} {hand : List ℕ} {s : CapState} {sh : Shared} {o : Outcome}
    → IsReady cfg hand s sh
    → AreWords sh.tel
    → o ≡ next s sh
    → Tallied cfg hand 0 s sh o
Tallied-nil {s = s} {sh = sh} ready w e = record {
  after = s;
  shared = sh;
  returns = e;
  ready = ready;
  tally = record {
    bad = 0;
    waiting = 0;
    kept = 0;
    lost = 0;
    all = refl;
    bad_frames = omega (arith, w);
    frames_seen = omega (arith, w);
    spsc_drops = omega (arith, w);
    logged = omega arith;
  };
}

-- A loop that goes on with the rest after one message.
pub Tallied-cons :
    {cfg : Config} {hand : List ℕ} {n : ℕ} {s s1 : CapState} {sh sh1 : Shared} {o o1 : Outcome}
    → o ≡ o1
    → Tally 1 sh.tel sh1.tel (length (log cfg s sh)) (length (log cfg s1 sh1))
    → Tallied cfg hand n s1 sh1 o1
    → Tallied cfg hand (suc n) s sh o
Tallied-cons {cfg} {n = n} {s = s} {sh = sh} e k r = record {
  after = r.after;
  shared = r.shared;
  returns = e ∙ r.returns;
  ready = r.ready;
  tally =
      subst
        (λ j.
          Tally j sh.tel r.shared.tel (length (log cfg s sh)) (length (log cfg r.after r.shared)))
        {x = 1 + n} {y = suc n} (omega arith) (Tally-trans k r.tally);
}

-- A message that is counted as bad changes nothing else.
pub IsReady-add_bad :
    {cfg : Config} {hand : List ℕ} {s : CapState} {sh : Shared}
    → IsReady cfg hand s sh
    → IsReady cfg hand s (with_tel add_bad sh)
IsReady-add_bad {s = s} {sh = sh} ready = record {
  pool = IsPool-retimed ready.pool s (add_bad sh.tel) refl refl refl;
  room = ready.room;
  idle = ready.idle;
}
