-- ===== src/Writer/Turns.antt =====
-- The rounds of `writer_thread`, and its end.
use bvex_vdif_rfsoc.Base.{
  ℕ, ◌*◌, ◌≡◌, ap, ◌∙◌, inl, inr, List, [], ◌∷◌, Option, none, some, true, false, Bool-cases,
  if-false, if◌then◌else◌,
}
use bvex_vdif_rfsoc.Spsc.{Spsc, spsc_pop}
use bvex_vdif_rfsoc.Spsc.Fifo.{pop, pop_nil, pop_cons}
use bvex_vdif_rfsoc.Spsc.Inv.{IsValid, spsc_pop-IsValid}
use bvex_vdif_rfsoc.Spsc.Refine.{contents, spsc_pop_refines}
use bvex_vdif_rfsoc.Capture.{Config, slab_bytes, Shared}
use bvex_vdif_rfsoc.Capture.Log.{desc_of}
use bvex_vdif_rfsoc.Disk.{Output, OFile, Store, FinalCalls}
use bvex_vdif_rfsoc.Files.Seal.{recorded, file_finalize-absent}
use bvex_vdif_rfsoc.Writer.{
  Writer, Handled, Round, on_popped, on_handled, close_file, write_slab, writer_thread,
}
use bvex_vdif_rfsoc.Writer.Steps.{saved, close_file-Closed}
use bvex_vdif_rfsoc.Writer.Refine.{IsWriting}

pub close_file-saved :
    (c : Output) (fin : FinalCalls) (gaps : ℕ) (w : Writer)
    → IsWriting w
    → fin.truncated ≡ true
    → saved (close_file c fin gaps w) ≡ saved w
unfolding close_file
close_file-saved c fin gaps w v trims = elim (Bool-cases w.have_file) [
  | inl have ↦
      let k = close_file-Closed c fin gaps w (v.live have) trims (v.holds have) in
      ap saved k.returns ∙ k.bytes
  | inr without ↦
      ap (λ (p : OFile × Store). recorded p.0 p.1)
        (file_finalize-absent c fin gaps w.file w.store (v.idle without))
]

-- The rounds of the loop.
module _ (cfg : Config) (c : Output) (fin : FinalCalls) (r : Round) (rs : List Round) (w : Writer)
    (sh0 sh : Shared) (meanwhile : r.meanwhile sh0 ≡ sh) where
  abbrev pub next : Writer → Shared → Option (Writer × Shared)
  next = writer_thread cfg c fin rs

  round_popped :
      (p : Spsc × Option ℕ)
      → spsc_pop sh.q_full ≡ p
      → writer_thread cfg c fin (r ∷ rs) w sh0 ≡ on_popped cfg c fin r w sh p next
  unfolding writer_thread
  round_popped p e =
      ap (λ (s : Shared). on_popped cfg c fin r w s (spsc_pop s.q_full) next) meanwhile
      ∙ ap (λ x. on_popped cfg c fin r w sh x next) e

  pub round_handled :
      (q : Spsc) (i : ℕ) (h : Handled)
      → spsc_pop sh.q_full ≡ (q, some i)
      → write_slab c r.calls i (i * slab_bytes cfg) (desc_of sh.desc i) w (record sh { q_full = q })
        ≡ h
      → writer_thread cfg c fin (r ∷ rs) w sh0 ≡ on_handled c fin h next
  round_handled q i h p e = round_popped (q, some i) p ∙ ap (λ x. on_handled c fin x next) e

  pub round_empty :
      (q : Spsc)
      → spsc_pop sh.q_full ≡ (q, none)
      → (sh1 : Shared) → r.before_load (record sh { q_full = q }) ≡ sh1
      → sh1.capture_running ≡ false
      → writer_thread cfg c fin (r ∷ rs) w sh0 ≡ some (close_file c fin sh1.tel.gap_frames w, sh1)
  round_empty q p sh1 l e =
      round_popped (q, none) p
      ∙ ap
          (λ (x : Shared).
            if x.capture_running then next w x else some (close_file c fin x.tel.gap_frames w, x))
          l
      ∙ if-false sh1.capture_running _ _ e

-- A pop from a valid ring, by its queue.
pub pop_front :
    (q : Spsc) (i : ℕ) (is : List ℕ)
    → IsValid q
    → contents q ≡ i ∷ is
    → (q' : Spsc) × (spsc_pop q ≡ (q', some i)) × IsValid q' × (contents q' ≡ is)
pop_front q i is v e =
    let r : (contents (spsc_pop q).0, (spsc_pop q).1) ≡ (is, some i) =
      spsc_pop_refines v ∙ ap pop e ∙ pop_cons i is in
    (
      (spsc_pop q).0,
      ap (λ (p : List ℕ × Option ℕ). ((spsc_pop q).0, p.1)) r,
      spsc_pop-IsValid v,
      ap (λ (p : List ℕ × Option ℕ). p.0) r,
    )

pub pop_empty : (q : Spsc) → IsValid q → contents q ≡ [] → (q' : Spsc) × (spsc_pop q ≡ (q', none))
pop_empty q v e =
    let r : (contents (spsc_pop q).0, (spsc_pop q).1) ≡ ([], none) =
      spsc_pop_refines v ∙ ap pop e ∙ pop_nil in
    ((spsc_pop q).0, ap (λ (p : List ℕ × Option ℕ). ((spsc_pop q).0, p.1)) r)
