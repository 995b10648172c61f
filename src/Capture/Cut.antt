-- ===== src/Capture/Cut.antt =====
-- The cut of a file: the current slab goes to the writer with its own file number, and the next
-- frames belong to the next file.
use bvex_vdif_rfsoc.Base.{ℕ, zero, suc, ◌%◌, ◌<◌, ◌≡◌, refl, ap, sym, ◌∙◌, List, [], ◌++◌}
use bvex_vdif_rfsoc.Base.{
  Bool, true, false, not, ◌&&◌, Option, none, some, arith, ltb, ◌==◌, inl, inr, ◌⊎◌,
}
use bvex_vdif_rfsoc.Base.{if◌then◌else◌, Bool-cases, add32}
use bvex_vdif_rfsoc.Vdif.{Vhdr}
use bvex_vdif_rfsoc.Spsc.Refine.{contents}
use bvex_vdif_rfsoc.Capture.{Config, CapState, Shared, Outcome, Wait, held, cut_file, hand_over}
use bvex_vdif_rfsoc.Capture.Log.{log, queue_log, current_log}
use bvex_vdif_rfsoc.Capture.Pool.{
  IsSized, IsPool, IsPool-retimed, emptied, handed, pushed, handed-IsPool, log-handed,
  hand_over_lem,
}

-- The first frame of a second that the period divides, other than the second that the file began in.
abbrev pub at_boundary : Config → Vhdr → CapState → Bool
at_boundary cfg h s =
    h.frame == 0 && (h.sec % cfg.secs_per_file == 0 && not (h.sec == s.file_start_sec))

-- What the cut leaves for the rest of the function, whatever that is.
pub record Cuts (cfg : Config) (hand : List ℕ) (ws : List Wait) (h : Vhdr) (s : CapState)
    (sh : Shared) : Type 0 where
  pub after : CapState
  pub shared : Shared
  pub returns : (k : CapState → Shared → Outcome) → cut_file cfg ws h s sh k ≡ k after shared
  pub pool : IsPool cfg hand after shared
  pub room : after.cur_frames < cfg.frames_per_slab
  pub logged : log cfg after shared ≡ log cfg s sh
  pub counted : shared.tel ≡ sh.tel
  pub pool_left : shared.q_free ≡ sh.q_free
  pub file :
      after.cur_file_id ≡ (if at_boundary cfg h s then add32 s.cur_file_id 1 else s.cur_file_id)
  pub start : after.file_start_sec ≡ (if at_boundary cfg h s then h.sec else s.file_start_sec)
  pub timing :
      (after.started ≡ s.started)
      × (after.have_prev ≡ s.have_prev)
      × (after.prev_sec ≡ s.prev_sec)
      × (after.prev_frame ≡ s.prev_frame)

Option-cases : (o : Option ℕ) → (o ≡ none) ⊎ ((i : ℕ) × (o ≡ some i))
Option-cases none = inl refl
Option-cases (some i) = inr (i, refl)

held-cur_idx : (s : CapState) (i : ℕ) → held s ≡ some i → s.cur_idx ≡ some i
held-cur_idx s i e = ground arith

-- A slab that holds no frame adds nothing to the log.
no_frames :
    (o : Option ℕ) (n file o' : ℕ) (m : List ℕ)
    → (if ltb 0 n then o else none) ≡ none
    → current_log o file m o' n ≡ []
no_frames none n file o' m e = refl
no_frames (some i) zero file o' m e = refl
no_frames (some i) (suc n) file o' m e = ground arith

abbrev renamed : Vhdr → CapState → CapState
renamed h s = record s { cur_file_id = add32 s.cur_file_id 1; file_start_sec = h.sec }

module _ (cfg : Config) (ws : List Wait) (h : Vhdr) (s : CapState) (sh : Shared)
    (k : CapState → Shared → Outcome) where
  cut-inside :
      0 < cfg.secs_per_file → at_boundary cfg h s ≡ false → cut_file cfg ws h s sh k ≡ k s sh
  unfolding cut_file
  cut-inside pos e = ground arith

  cut-empty :
      0 < cfg.secs_per_file
      → at_boundary cfg h s ≡ true
      → held s ≡ none
      → cut_file cfg ws h s sh k ≡ k (renamed h s) sh
  unfolding cut_file
  cut-empty pos e n = ground arith

  cut-slab :
      (idx : ℕ)
      → 0 < cfg.secs_per_file
      → at_boundary cfg h s ≡ true
      → held s ≡ some idx
      → cut_file cfg ws h s sh k ≡ hand_over ws true s idx sh (λ s' sh'. k (renamed h s') sh')
  unfolding cut_file
  cut-slab idx pos e n = ground arith

module _ (cfg : Config) (sized : IsSized cfg) (period : 0 < cfg.secs_per_file) (hand : List ℕ)
    (ws : List Wait) (h : Vhdr) (s : CapState) (sh : Shared) (pool : IsPool cfg hand s sh)
    (room : s.cur_frames < cfg.frames_per_slab) where
  abbrev given : (idx : ℕ) → held s ≡ some idx → Shared
  given idx n =
      handed cfg hand s sh idx true (pushed cfg hand s sh idx true pool (held-cur_idx s idx n)).ring

  cut_at_boundary : at_boundary cfg h s ≡ true → Cuts cfg hand ws h s sh
  cut_at_boundary e = elim (Option-cases (held s)) [
    | inl n ↦ record {
      after = renamed h s;
      shared = sh;
      returns = λ k. cut-empty cfg ws h s sh k period e n;
      pool = IsPool-retimed pool _ sh.tel refl refl refl;
      room = room;
      logged =
          ap (λ t. queue_log cfg sh.desc sh.arena (contents sh.q_full) ++ t)
            (no_frames s.cur_idx s.cur_frames (add32 s.cur_file_id 1) s.cur sh.arena n
              ∙ sym (no_frames s.cur_idx s.cur_frames s.cur_file_id s.cur sh.arena n));
      counted = refl;
      pool_left = refl;
      file = rw e;
      start = rw e;
      timing = (refl, refl, refl, refl);
    }
    | inr (idx, n) ↦ record {
      after = renamed h (emptied cfg hand s sh idx true);
      shared = given idx n;
      returns = λ k.
          cut-slab cfg ws h s sh k idx period e n
          ∙ hand_over_lem cfg hand s sh idx true pool (held-cur_idx s idx n) ws
              (λ s' sh'. k (renamed h s') sh');
      pool =
          IsPool-retimed (handed-IsPool cfg hand s sh idx true pool (held-cur_idx s idx n)) _ sh.tel
            refl refl refl;
      room = sized.some_frames;
      logged = log-handed cfg hand s sh idx true pool (held-cur_idx s idx n);
      counted = refl;
      pool_left = refl;
      file = rw e;
      start = rw e;
      timing = (refl, refl, refl, refl);
    }
  ]

  -- The cut waits for nothing, keeps the pool and the log, and starts a new file exactly at a
  -- boundary.
  pub cut_file-Cuts : Cuts cfg hand ws h s sh
  cut_file-Cuts = elim (Bool-cases (at_boundary cfg h s)) [
    | inl e ↦ cut_at_boundary e
    | inr e ↦ record {
      after = s;
      shared = sh;
      returns = λ k. cut-inside cfg ws h s sh k period e;
      pool = pool;
      room = room;
      logged = refl;
      counted = refl;
      pool_left = refl;
      file = rw e;
      start = rw e;
      timing = (refl, refl, refl, refl);
    }
  ]
