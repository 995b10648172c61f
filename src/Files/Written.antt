-- ===== src/Files/Written.antt =====
-- `slab_write` as a whole: what the file holds after it, on every end of the write loop.
use mathlib.Core.Path.{subst}
use bvex_vdif_rfsoc.Base.{
  ℕ, zero, suc, ◌+◌, ◌-◌, ◌*◌, ◌≤◌, ◌≡◌, ◌≢◌, refl, ap, sym, ◌∙◌, List, [], ◌∷◌, ◌++◌,
}
use bvex_vdif_rfsoc.Base.{arith, length, length-append, take, drop, block, replicate}
use bvex_vdif_rfsoc.Base.{block-poke_apart, inl, length-poke, length-block, add64}
use bvex_vdif_rfsoc.Vdif.{vdif_frame_bytes}
use bvex_vdif_rfsoc.Telemetry.{Telemetry}
use bvex_vdif_rfsoc.Disk.{
  Output, OFile, WriteResult, WriteEnd, complete, gave_up, writing, SlabWritten,
}
use bvex_vdif_rfsoc.Files.{write_loop, write_length, pad_slab, slab_write, finish_slab}
use bvex_vdif_rfsoc.Files.Slab.{
  gave_up≢complete, Ended, Fails, write_loop-Fails, Settles, Settles-Obeys, write_loop-Ended,
  Prefix, write_loop-Prefix, write_length_lem,
}

pub take-append : (xs ys : List ℕ) (n : ℕ) → take (length xs + n) (xs ++ ys) ≡ xs ++ take n ys
take-append [] ys n = ap (λ t. take t ys) {x = 0 + n} {y = n} (omega arith)
take-append (x ∷ xs) ys n =
    ap (λ t. take t (x ∷ (xs ++ ys))) {x = suc (length xs) + n} {y = suc (length xs + n)}
      (omega arith)
    ∙ ap (λ t. x ∷ t) (take-append xs ys n)

pub take-append_self : (xs ys : List ℕ) → take (length xs) (xs ++ ys) ≡ xs
take-append_self [] ys = refl
take-append_self (x ∷ xs) ys = ap (λ t. x ∷ t) (take-append_self xs ys)

pub take-take : (n k : ℕ) (xs : List ℕ) → n ≤ k → take n (take k xs) ≡ take n xs
take-take zero k xs h = refl
take-take (suc n) zero xs h = absurd (omega arith)
take-take (suc n) (suc k) [] h = refl
take-take (suc n) (suc k) (x ∷ xs) h = ap (λ t. x ∷ t) (take-take n k xs (omega arith))

-- What `slab_write` did with a slab of `bytes` bytes: the file keeps what it had, and on completion
-- goes on with the slab's bytes, then padding.
pub record Appended (c : Output) (arena : List ℕ) (o frames : ℕ) (f : OFile) (out : List ℕ)
    (tel : Telemetry) (results : List WriteResult) (r : SlabWritten) : Type 0 where
  pub ended : Ended r.how
  pub slab : r.arena ≡ pad_slab c arena o (frames * vdif_frame_bytes)
  pub kept : take (length out) r.out ≡ out
  pub grown :
      r.how ≡ complete
      → take (length out + frames * vdif_frame_bytes) r.out
        ≡ out ++ block arena o (frames * vdif_frame_bytes)
  pub size :
      r.how ≡ complete → length r.out ≡ length out + write_length c (frames * vdif_frame_bytes)
  pub longer : length out ≤ length r.out
  pub file : r.how ≡ complete → r.file ≡ record f { frames = add64 f.frames frames }
  pub counted : r.how ≡ complete → r.tel.frames_written ≡ add64 tel.frames_written frames
  pub same_file : r.how ≢ complete → r.file ≡ f
  pub same_tel : r.how ≢ complete → r.tel ≡ tel
  pub fails : r.how ≡ gave_up → Fails results (write_length c (frames * vdif_frame_bytes))

writing≢complete : writing ≡ complete → ⊥
writing≢complete e = cc

record Finished (frames : ℕ) (f : OFile) (arena : List ℕ) (tel : Telemetry) (p : WriteEnd × List ℕ)
    (r : SlabWritten) : Type 0 where
  how : r.how ≡ p.0
  out : r.out ≡ p.1
  slab : r.arena ≡ arena
  file : p.0 ≡ complete → r.file ≡ record f { frames = add64 f.frames frames }
  counted : p.0 ≡ complete → r.tel.frames_written ≡ add64 tel.frames_written frames
  same_file : p.0 ≢ complete → r.file ≡ f
  same_tel : p.0 ≢ complete → r.tel ≡ tel

finish_slab-Finished :
    (frames : ℕ) (f : OFile) (arena : List ℕ) (tel : Telemetry) (p : WriteEnd × List ℕ)
    → Finished frames f arena tel p (finish_slab frames f arena tel p)
unfolding finish_slab
finish_slab-Finished frames f arena tel (complete, out) = record {
  how = refl;
  out = refl;
  slab = refl;
  file = λ e. refl;
  counted = λ e. refl;
  same_file = λ ne. absurd (ne refl);
  same_tel = λ ne. absurd (ne refl);
}
finish_slab-Finished frames f arena tel (gave_up, out) = record {
  how = refl;
  out = refl;
  slab = refl;
  file = λ e. absurd (gave_up≢complete e);
  counted = λ e. absurd (gave_up≢complete e);
  same_file = λ ne. refl;
  same_tel = λ ne. refl;
}
finish_slab-Finished frames f arena tel (writing, out) = record {
  how = refl;
  out = refl;
  slab = refl;
  file = λ e. absurd (writing≢complete e);
  counted = λ e. absurd (writing≢complete e);
  same_file = λ ne. refl;
  same_tel = λ ne. refl;
}

module _ (c : Output) (results : List WriteResult) (arena : List ℕ) (o frames : ℕ) (f : OFile)
    (out : List ℕ) (tel : Telemetry) where
  abbrev bytes : ℕ
  bytes = frames * vdif_frame_bytes

  abbrev padded : List ℕ
  padded = pad_slab c arena o bytes

  abbrev loop : WriteEnd × List ℕ
  loop = write_loop results padded o 0 (write_length c bytes) out

  -- The bytes below the padding are those of the slab.
  pub block-padded : block padded o bytes ≡ block arena o bytes
  block-padded =
      block-poke_apart arena (o + bytes) (replicate (write_length c bytes - bytes) 0) o bytes
        (inl (omega arith))

  -- With results of `write` that go on until the slab is written or a call fails, and the padded
  -- slab within the arena, the write loop ends. The file keeps what it had. When the loop is
  -- complete, the slab's bytes follow, then padding up to the padded length, and the file counts
  -- the slab's frames; otherwise a call of `write` failed with bytes left to write, and the file's
  -- count and the telemetry are unchanged.
  pub slab_write-Appended :
      Settles results (write_length c bytes)
      → o + write_length c bytes ≤ length arena
      → Appended c arena o frames f out tel results (slab_write c results arena o frames f out tel)
  unfolding slab_write
  slab_write-Appended ob room = record {
    ended = subst Ended (sym k.how) (
        write_loop-Ended results padded o 0 (write_length c bytes) out (omega arith)
          (subst (Settles results) (omega arith) ob));
    slab = k.slab;
    kept = rw (k.out, p.bytes) (take-append_self out (block padded (o + 0) p.count));
    grown = λ e.
        rw (k.out, p.bytes)
          (take-append out (block padded (o + 0) p.count) bytes
            ∙ ap (λ t. out ++ t)
                (take-take bytes p.count (drop (o + 0) padded) (fits e)
                  ∙ ap (λ n. block padded n bytes) {x = o + 0} {y = o} (omega arith)
                  ∙ block-padded));
    size = λ e.
        ap (length {A = ℕ}) (k.out ∙ p.bytes)
        ∙ length-append out (block padded (o + 0) p.count)
        ∙ omega (arith, p.whole (sym k.how ∙ e), whole_block);
    longer = omega (
      arith,
      ap (length {A = ℕ}) (k.out ∙ p.bytes),
      length-append out (block padded (o + 0) p.count),
    );
    file = λ e. k.file (sym k.how ∙ e);
    counted = λ e. k.counted (sym k.how ∙ e);
    same_file = λ ne. k.same_file (λ e. ne (k.how ∙ e));
    same_tel = λ ne. k.same_tel (λ e. ne (k.how ∙ e));
    fails = λ e.
        subst (Fails results) (omega arith)
          (write_loop-Fails results padded o 0 (write_length c bytes) out (sym k.how ∙ e));
  }
    where
      p : Prefix padded o 0 (write_length c bytes) out loop
      p = write_loop-Prefix results padded o 0 (write_length c bytes) out (omega arith) (
          Settles-Obeys results (write_length c bytes - 0)
            (subst (Settles results) (omega arith) ob))

      k : Finished frames f padded tel loop (finish_slab frames f padded tel loop)
      k = finish_slab-Finished frames f padded tel loop

      fits : (finish_slab frames f padded tel loop).how ≡ complete → bytes ≤ p.count
      fits e = omega (arith, p.whole (sym k.how ∙ e), write_length_lem c bytes)

      whole_block : length (block padded (o + 0) p.count) ≡ p.count
      whole_block = length-block padded (o + 0) p.count (
          omega (
            arith,
            p.within,
            length-poke arena (o + bytes) (replicate (write_length c bytes - bytes) 0),
          ))
