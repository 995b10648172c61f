-- ===== src/Files/Slab.antt =====
-- What `slab_write` puts into the file, and its padding.
use bvex_vdif_rfsoc.Base.{
  ℕ, zero, suc, ◌+◌, ◌-◌, ◌*◌, ◌/◌, ◌%◌, ◌≤◌, ◌<◌, ◌≡◌, refl, ap, sym, ◌∙◌, ◌⊎◌, inl, inr,
}
use bvex_vdif_rfsoc.Base.{List, [], ◌∷◌, ◌++◌, arith, take, drop, block, true, take-nil, drop-nil}
use mathlib.Core.Path.{subst}
use mathlib.Core.List.{append_assoc, append-nil}
use bvex_vdif_rfsoc.Base.{leb, if◌then◌else◌, Bool-cases}
use bvex_vdif_rfsoc.Vdif.{vdif_frame_bytes}
use bvex_vdif_rfsoc.Disk.{
  Output, page, WriteResult, wrote, interrupted, no_space, failed, WriteEnd, complete, gave_up,
  writing,
}
use bvex_vdif_rfsoc.Files.{write_loop, write_length}

-- `write` never takes more than it was given.
abbrev pub Obeys : List WriteResult → ℕ → Type 0
Obeys [] room = Unit {0}
Obeys (wrote n ∷ rs) room = (n ≤ room) × Obeys rs (room - n)
Obeys (interrupted ∷ rs) room = Obeys rs room
Obeys (no_space ∷ rs) room = Unit {0}
Obeys (failed ∷ rs) room = Unit {0}

take-append_drop : (n k : ℕ) (xs : List ℕ) → take n xs ++ take k (drop n xs) ≡ take (n + k) xs
take-append_drop zero k xs = ap (λ t. take t xs) (omega arith)
take-append_drop (suc n) k [] = take-nil k ∙ sym (take-nil (suc n + k))
take-append_drop (suc n) k (x ∷ xs) =
    ap (λ t. x ∷ t) (take-append_drop n k xs)
    ∙ ap (λ t. take t (x ∷ xs)) {x = suc (n + k)} {y = suc n + k} (omega arith)

drop-drop : (o n : ℕ) (xs : List ℕ) → drop (o + n) xs ≡ drop n (drop o xs)
drop-drop zero n xs = ap (λ t. drop t xs) (omega arith)
drop-drop (suc o) n [] = drop-nil (suc o + n) ∙ sym (drop-nil n)
drop-drop (suc o) n (x ∷ xs) =
    ap (λ t. drop t (x ∷ xs)) {x = suc o + n} {y = suc (o + n)} (omega arith) ∙ drop-drop o n xs

pub block-append : (m : List ℕ) (o n k : ℕ) → block m o n ++ block m (o + n) k ≡ block m o (n + k)
block-append m o n k =
    ap (λ t. block m o n ++ take k t) (drop-drop o n m) ∙ take-append_drop n k (drop o m)

-- The loop has written a prefix of what was left, and all of it when it is complete.
pub record Prefix (m : List ℕ) (o off wlen : ℕ) (out : List ℕ) (r : WriteEnd × List ℕ)
    : Type 0 where
  pub count : ℕ
  pub within : off + count ≤ wlen
  pub bytes : r.1 ≡ out ++ block m (o + off) count
  pub whole : r.0 ≡ complete → off + count ≡ wlen

stays :
    (m : List ℕ) (o off wlen : ℕ) (out : List ℕ) (how : WriteEnd)
    → off ≤ wlen
    → (how ≡ complete → off ≡ wlen)
    → Prefix m o off wlen out (how, out)
stays m o off wlen out how le full = record {
  count = 0;
  within = omega arith;
  bytes = sym (append-nil out);
  whole = λ e. omega (arith, full e);
}

onwards :
    {m : List ℕ} {o off wlen : ℕ} {out : List ℕ} {r : WriteEnd × List ℕ} (n : ℕ)
    → Prefix m o (off + n) wlen (out ++ block m (o + off) n) r
    → Prefix m o off wlen out r
onwards {m} {o} {off} {wlen} {out} {r} n p = record {
  count = n + p.count;
  within = omega (arith, p.within);
  bytes =
      p.bytes
      ∙ append_assoc out (block m (o + off) n) (block m (o + (off + n)) p.count)
      ∙ ap (λ t. out ++ (block m (o + off) n ++ block m t p.count)) (omega arith)
      ∙ ap (λ t. out ++ t) (block-append m (o + off) n p.count);
  whole = λ e. omega (arith, p.whole e);
}

pub gave_up≢complete : gave_up ≡ complete → ⊥
gave_up≢complete e = cc

pub write_loop-Prefix :
    (rs : List WriteResult) (m : List ℕ) (o off wlen : ℕ) (out : List ℕ)
    → off ≤ wlen
    → Obeys rs (wlen - off)
    → Prefix m o off wlen out (write_loop rs m o off wlen out)
unfolding write_loop
write_loop-Prefix [] m o off wlen out le ob =
    stays m o off wlen out (if leb wlen off then complete else writing) le (ground arith)
write_loop-Prefix (wrote n ∷ rs) m o off wlen out le ob = elim (Bool-cases (leb wlen off)) [
  | inl done ↦ rw done (stays m o off wlen out complete le (ground arith))
  | inr more ↦ rw more (
      onwards n (
        write_loop-Prefix rs m o (off + n) wlen (out ++ block m (o + off) n) (ground arith)
          (subst (Obeys rs) (omega arith) ob.1)))
]
write_loop-Prefix (interrupted ∷ rs) m o off wlen out le ob = elim (Bool-cases (leb wlen off)) [
  | inl done ↦ rw done (stays m o off wlen out complete le (ground arith))
  | inr more ↦ rw more (write_loop-Prefix rs m o off wlen out le ob)
]
write_loop-Prefix (no_space ∷ rs) m o off wlen out le ob = elim (Bool-cases (leb wlen off)) [
  | inl done ↦ rw done (stays m o off wlen out complete le (ground arith))
  | inr more ↦ rw more (stays m o off wlen out gave_up le (λ e. absurd (gave_up≢complete e)))
]
write_loop-Prefix (failed ∷ rs) m o off wlen out le ob = elim (Bool-cases (leb wlen off)) [
  | inl done ↦ rw done (stays m o off wlen out complete le (ground arith))
  | inr more ↦ rw more (stays m o off wlen out gave_up le (λ e. absurd (gave_up≢complete e)))
]

-- The results go on until `room` bytes are written or a call fails.
abbrev pub Settles : List WriteResult → ℕ → Type 0
Settles [] room = room ≡ 0
Settles (wrote n ∷ rs) room = (n ≤ room) × Settles rs (room - n)
Settles (interrupted ∷ rs) room = Settles rs room
Settles (no_space ∷ rs) room = Unit {0}
Settles (failed ∷ rs) room = Unit {0}

pub Settles-Obeys : (rs : List WriteResult) (room : ℕ) → Settles rs room → Obeys rs room
Settles-Obeys [] room d = tt
Settles-Obeys (wrote n ∷ rs) room d = (d.0, Settles-Obeys rs (room - n) d.1)
Settles-Obeys (interrupted ∷ rs) room d = Settles-Obeys rs room d
Settles-Obeys (no_space ∷ rs) room d = tt
Settles-Obeys (failed ∷ rs) room d = tt

-- The loop ended.
abbrev pub Ended : WriteEnd → Type 0
Ended e = (e ≡ complete) ⊎ (e ≡ gave_up)

-- A call of `write` fails while bytes are left to write.
abbrev pub Fails : List WriteResult → ℕ → Type 0
Fails [] room = ⊥
Fails (wrote n ∷ rs) room = (0 < room) × Fails rs (room - n)
Fails (interrupted ∷ rs) room = Fails rs room
Fails (no_space ∷ rs) room = 0 < room
Fails (failed ∷ rs) room = 0 < room

complete≢gave_up : complete ≡ gave_up → ⊥
complete≢gave_up e = cc

writing≢gave_up : writing ≡ gave_up → ⊥
writing≢gave_up e = cc

-- The loop gives up only on such a call.
pub write_loop-Fails :
    (rs : List WriteResult) (m : List ℕ) (o off wlen : ℕ) (out : List ℕ)
    → (write_loop rs m o off wlen out).0 ≡ gave_up
    → Fails rs (wlen - off)
unfolding write_loop
write_loop-Fails [] m o off wlen out e = elim (Bool-cases (leb wlen off)) [
  | inl done ↦ complete≢gave_up (rw done at e)
  | inr more ↦ writing≢gave_up (rw more at e)
]
write_loop-Fails (wrote n ∷ rs) m o off wlen out e = elim (Bool-cases (leb wlen off)) [
  | inl done ↦ absurd (complete≢gave_up (rw done at e))
  | inr more ↦ (
    ground arith,
    subst (Fails rs) (omega arith)
        (write_loop-Fails rs m o (off + n) wlen (out ++ block m (o + off) n) (rw more at e)),
  )
]
write_loop-Fails (interrupted ∷ rs) m o off wlen out e = elim (Bool-cases (leb wlen off)) [
  | inl done ↦ absurd (complete≢gave_up (rw done at e))
  | inr more ↦ write_loop-Fails rs m o off wlen out (rw more at e)
]
write_loop-Fails (no_space ∷ rs) m o off wlen out e = elim (Bool-cases (leb wlen off)) [
  | inl done ↦ absurd (complete≢gave_up (rw done at e))
  | inr more ↦ ground arith
]
write_loop-Fails (failed ∷ rs) m o off wlen out e = elim (Bool-cases (leb wlen off)) [
  | inl done ↦ absurd (complete≢gave_up (rw done at e))
  | inr more ↦ ground arith
]

pub write_loop-Ended :
    (rs : List WriteResult) (m : List ℕ) (o off wlen : ℕ) (out : List ℕ)
    → off ≤ wlen
    → Settles rs (wlen - off)
    → Ended (write_loop rs m o off wlen out).0
unfolding write_loop
write_loop-Ended [] m o off wlen out le d = inl (ground arith)
write_loop-Ended (wrote n ∷ rs) m o off wlen out le d = elim (Bool-cases (leb wlen off)) [
  | inl done ↦ rw done (inl refl)
  | inr more ↦ rw more (
      write_loop-Ended rs m o (off + n) wlen (out ++ block m (o + off) n) (ground arith)
        (subst (Settles rs) (omega arith) d.1))
]
write_loop-Ended (interrupted ∷ rs) m o off wlen out le d = elim (Bool-cases (leb wlen off)) [
  | inl done ↦ rw done (inl refl)
  | inr more ↦ rw more (write_loop-Ended rs m o off wlen out le d)
]
write_loop-Ended (no_space ∷ rs) m o off wlen out le d = elim (Bool-cases (leb wlen off)) [
  | inl done ↦ rw done (inl refl)
  | inr more ↦ rw more (inr refl)
]
write_loop-Ended (failed ∷ rs) m o off wlen out le d = elim (Bool-cases (leb wlen off)) [
  | inl done ↦ rw done (inl refl)
  | inr more ↦ rw more (inr refl)
]

-- The padded length: at least the slab's bytes, whole pages for O_DIRECT, and within any room of
-- whole pages that holds the slab.
pub write_length_lem :
    (c : Output) (bytes : ℕ)
    → (bytes ≤ write_length c bytes)
      × (write_length c bytes < bytes + page)
      × (c.use_odirect ≡ true → write_length c bytes % page ≡ 0)
      × ((pages : ℕ) → bytes ≤ pages * page → write_length c bytes ≤ pages * page)
unfolding write_length
write_length_lem c bytes = ground arith

-- With a slab size that is a multiple of 128 frames, as `main` demands, the padded write of a slab
-- stays within the slab, is at least the slab's bytes, and is made of whole pages for O_DIRECT.
pub write_length-bounds :
    (c : Output) (frames frames_per_slab : ℕ)
    → frames ≤ frames_per_slab
    → frames_per_slab % 128 ≡ 0
    → let wlen = write_length c (frames * vdif_frame_bytes) in
      (frames * vdif_frame_bytes ≤ wlen)
      × (wlen ≤ frames_per_slab * vdif_frame_bytes)
      × (c.use_odirect ≡ true → wlen % page ≡ 0)
write_length-bounds c frames per le whole =
    let k = write_length_lem c (frames * vdif_frame_bytes) in
    (k.0, omega (arith, k.3 (per / 128 * 251) (omega arith)), k.2)
