-- ===== src/Writer/Rolls.antt =====
-- The change of file before a slab is written.
use mathlib.Core.Path.{subst}
use bvex_vdif_rfsoc.Base.{
  ℕ, ◌+◌, ◌^◌, ◌<◌, ◌≤◌, ◌≡◌, refl, ap, ap₂, sym, ◌∙◌, ◌⊎◌, inl, inr, ==_iff,
}
use bvex_vdif_rfsoc.Base.{arith, length, true, false, Bool, Bool-cases}
use bvex_vdif_rfsoc.Base.{◌&&◌, ◌==◌, if◌then◌else◌}
use bvex_vdif_rfsoc.Capture.{SlabDesc, Shared}
use bvex_vdif_rfsoc.Disk.{Output, absent}
use bvex_vdif_rfsoc.Files.Seal.{exact}
use bvex_vdif_rfsoc.Writer.{Writer, SlabCalls, adopt, close_file, open_file, roll_file, tagged}
use bvex_vdif_rfsoc.Writer.Steps.{saved, IsOpen, close_file-Closed, open_file-cases}
use bvex_vdif_rfsoc.Writer.Refine.{IsWriting, Answers, IsTried, first_disk, true≢false}
use bvex_vdif_rfsoc.Base.{◌≢◌, if-true, if-false}
use bvex_vdif_rfsoc.Files.Open.{Refuses}

module _ (c : Output) (calls : SlabCalls) (o : ℕ) (d : SlabDesc) (sh : Shared)
    (ok : Answers c calls d.frames) (small : d.frames < 2 ^ 64) where
  -- A file is open for the slab, with the bytes saved so far.
  pub record Rolled (w : Writer) (p : Bool × Writer) : Type 0 where
    pub after : Writer
    pub returns : p ≡ (true, after)
    pub opened : IsOpen after
    pub have : after.have_file ≡ true
    pub tag : after.cur_tag ≡ d.file_id
    pub bytes : saved after ≡ saved w
    pub word : after.file.frames + d.frames < 2 ^ 64
    pub fewer : after.file.frames ≤ w.file.frames
    pub tried : IsTried c calls w after.file.disk

  pub record NotRolled (w : Writer) (p : Bool × Writer) : Type 0 where
    pub after : Writer
    pub returns : p ≡ (false, after)
    pub bytes : saved after ≡ saved w
    pub needed : w.have_file ≡ true → d.file_id ≢ w.cur_tag
    pub why : Refuses c calls.open_new (first_disk w)

  -- From a writer `w'` whose file is closed, at any point of the round that started with `w`.
  roll_new :
      (w w' : Writer)
      → w'.file.fd ≡ absent
      → saved w' ≡ saved w
      → w'.file.frames ≡ w.file.frames
      → first_disk w ≡ w'.start_disk
      → (w.have_file ≡ true → d.file_id ≢ w.cur_tag)
      → let p = tagged d (open_file c calls.open_new sh.arena o w') in Rolled w p ⊎ NotRolled w p
  roll_new w w' closed bytes frames start needed =
      elim (open_file-cases c calls.open_new sh.arena o w' closed) [
        | inl g ↦ inl (record {
          after = adopt d g.after;
          returns = ap (tagged d) g.returns;
          opened = record { fd = g.opened.fd; tight = g.opened.tight };
          have = refl;
          tag = refl;
          bytes = g.bytes ∙ bytes;
          word = omega (arith, g.empty, small);
          fewer = omega (arith, g.empty);
          tried = inr g.room;
        })
        | inr g ↦ inr (record {
          after = g.after;
          returns = ap (tagged d) g.returns;
          bytes = g.bytes ∙ bytes;
          needed = needed;
          why = subst (Refuses c calls.open_new) (sym start) g.why;
        })
      ]

  abbrev pub rolled : Writer → Bool × Writer
  rolled w = roll_file c calls sh.tel.gap_frames sh.arena o d w

  abbrev same_tag : Writer → Bool
  same_tag w = d.file_id == w.cur_tag

  -- `roll_file` by its two tests.
  abbrev rolling : Writer → Bool → Bool → Bool × Writer
  rolling w have same =
      if have && same
      then (true, w)
      else tagged d (
          open_file c calls.open_new sh.arena o
            (if have then close_file c calls.close_old sh.tel.gap_frames w else w))

  rolled-rolling :
      (w : Writer) {have same : Bool}
      → w.have_file ≡ have
      → same_tag w ≡ same
      → rolled w ≡ rolling w have same
  unfolding roll_file
  rolled-rolling w h e = ap₂ (rolling w) h e

  abbrev MaybeRolled : Writer → Bool × Writer → Type 0
  MaybeRolled w p = Rolled w p ⊎ NotRolled w p

  roll_changed :
      (w : Writer)
      → IsWriting w
      → w.have_file ≡ true
      → d.file_id ≢ w.cur_tag
      → MaybeRolled w (rolling w true false)
  roll_changed w v have other =
      let k =
        close_file-Closed c calls.close_old sh.tel.gap_frames w (v.live have) ok.trims_old
          (v.holds have) in
      subst (λ x. MaybeRolled w (tagged d (open_file c calls.open_new sh.arena o x)))
        (sym k.returns)
        (roll_new w k.after k.fd k.bytes k.frames
          (if-true w.have_file w.file.disk w.start_disk have ∙ sym k.start) (λ e. other))

  pub roll_file-cases :
      (w : Writer)
      → IsWriting w
      → (w.have_file ≡ true → w.cur_tag ≡ d.file_id → length w.store.written ≡ exact w.file)
      → w.file.frames + d.frames < 2 ^ 64
      → MaybeRolled w (rolled w)
  roll_file-cases w v tight word = elim (Bool-cases w.have_file) [
    | inr none ↦ subst (MaybeRolled w) (sym (rolled-rolling w none refl)) (
        roll_new w w (v.idle none) refl refl (if-false w.have_file w.file.disk w.start_disk none)
          (λ e. absurd (true≢false (sym e ∙ none))))
    | inl have ↦ elim (Bool-cases (same_tag w)) [
      | inr other ↦
          subst (MaybeRolled w) (sym (rolled-rolling w have other)) (
            roll_changed w v have
              (λ e. true≢false (sym ((==_iff d.file_id w.cur_tag).1 e) ∙ other)))
      | inl same ↦
          let tag = sym ((==_iff d.file_id w.cur_tag).0 same) in
          subst (MaybeRolled w) (sym (rolled-rolling w have same)) (
            inl (record {
              after = w;
              returns = refl;
              opened = record { fd = v.live have; tight = tight have tag };
              have = have;
              tag = tag;
              bytes = refl;
              word = word;
              fewer = omega arith;
              tried = inl refl;
            }))
    ]
  ]
