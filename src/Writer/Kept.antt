-- ===== src/Writer/Kept.antt =====
-- What a round leaves of the state that the threads share: the slabs other than its own, and what is
-- queued.
use bvex_vdif_rfsoc.Base.{
  ℕ, ◌+◌, ◌-◌, ◌≤◌, ◌≡◌, refl, ap, ◌∙◌, ◌⊎◌, inl, inr, arith, length, block, replicate, length-poke,
  block-poke_apart, length-replicate,
}
use bvex_vdif_rfsoc.Capture.{Shared}
use bvex_vdif_rfsoc.Disk.{Output, SlabWritten}
use bvex_vdif_rfsoc.Files.{pad_slab, write_length}
use bvex_vdif_rfsoc.Files.Slab.{write_length_lem}
use bvex_vdif_rfsoc.Writer.{put_shared}

-- All but the bytes from `o` on, `len` of them, and the queue of free slabs.
pub record Kept (o len : ℕ) (sh sh' : Shared) : Type 0 where
  pub descs : sh'.desc ≡ sh.desc
  pub full : sh'.q_full ≡ sh.q_full
  pub running : sh'.capture_running ≡ sh.capture_running
  pub size : length sh'.arena ≡ length sh.arena
  pub blocks : (p n : ℕ) → (p + n ≤ o) ⊎ (o + len ≤ p) → block sh'.arena p n ≡ block sh.arena p n

pub Kept-all : (o len : ℕ) (sh : Shared) → Kept o len sh sh
Kept-all o len sh = record {
  descs = refl;
  full = refl;
  running = refl;
  size = refl;
  blocks = λ p n h. refl;
}

pub Kept-trans :
    {o len : ℕ} {sh1 sh2 sh3 : Shared}
    → Kept o len sh1 sh2
    → Kept o len sh2 sh3
    → Kept o len sh1 sh3
Kept-trans k l = record {
  descs = l.descs ∙ k.descs;
  full = l.full ∙ k.full;
  running = l.running ∙ k.running;
  size = l.size ∙ k.size;
  blocks = λ p n h. l.blocks p n h ∙ k.blocks p n h;
}

pub Kept-put_shared :
    (c : Output) (o bytes : ℕ) (r : SlabWritten) (sh : Shared)
    → r.arena ≡ pad_slab c sh.arena o bytes
    → Kept o (write_length c bytes) sh (put_shared r sh)
Kept-put_shared c o bytes r sh e =
    let padding = replicate (write_length c bytes - bytes) 0 in
    let w = write_length_lem c bytes in
    record {
      descs = refl;
      full = refl;
      running = refl;
      size = ap (length {A = ℕ}) e ∙ length-poke sh.arena (o + bytes) padding;
      blocks = λ p n h.
          ap (λ m. block m p n) e
          ∙ block-poke_apart sh.arena (o + bytes) padding p n (elim h [
            | inl below ↦ inl (omega (arith, below))
            | inr above ↦ inr (
                omega
                  (arith, above, w.0, length-replicate {A = ℕ} (write_length c bytes - bytes) 0))
          ]);
    }
