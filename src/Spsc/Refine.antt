-- ===== src/Spsc/Refine.antt =====
-- A valid ring behaves as the bounded queue of the indices that it holds.
use native.Mathlib.Nat.{
  mod-mod_of_dvd, mod-add-mod, mod-eq_of_lt, mod-eq-sub-mod, mod-lt, one-le-pow,
}
use mathlib.Core.Path.{subst}
use native.Mathlib.Decide.{dec_lt}
use bvex_vdif_rfsoc.Base.{ℕ, zero, suc, ◌+◌, ◌-◌, ◌%◌, ◌^◌, ◌≤◌, ◌<◌, ◌≡◌, refl, ap, ap₂, ◌∙◌}
use bvex_vdif_rfsoc.Base.{◌≢◌, sym, List, [], ◌∷◌, ◌++◌, arith, length, get_or, set, add32, sub32}
use bvex_vdif_rfsoc.Base.{bit_and, get_or-set_self, get_or-set_ne}
use bvex_vdif_rfsoc.Base.Bits.{and_mask}
use bvex_vdif_rfsoc.Spsc.{Spsc, spsc_push, spsc_pop}
use bvex_vdif_rfsoc.Spsc.Fifo.{Fifo, push, pop}
use bvex_vdif_rfsoc.Spsc.Inv.{IsValid, laps, pow_bounds}

-- The `n` entries from counter `h` on.
abbrev pub window : List ℕ → ℕ → ℕ → ℕ → Fifo
window buf mask h zero = []
window buf mask h (suc n) = get_or buf (bit_and h mask) 0 ∷ window buf mask (add32 h 1) n

-- The queue that a ring stands for.
abbrev pub contents : Spsc → Fifo
contents q = window q.buf q.mask q.head (sub32 q.tail q.head)

pub length-window : (buf : List ℕ) (mask h n : ℕ) → length (window buf mask h n) ≡ n
length-window buf mask h zero = refl
length-window buf mask h (suc n) = ap suc (length-window buf mask (add32 h 1) n)

pub length-contents : (q : Spsc) → length (contents q) ≡ sub32 q.tail q.head
length-contents q = length-window q.buf q.mask q.head (sub32 q.tail q.head)

-- `window` matches on the count, the code tests the counters.
pub window_of_pos :
    (buf : List ℕ) (mask h n : ℕ)
    → 0 < n
    → window buf mask h n ≡ get_or buf (bit_and h mask) 0 ∷ window buf mask (add32 h 1) (n - 1)
window_of_pos buf mask h zero p = absurd (omega arith)
window_of_pos buf mask h (suc n) p =
    ap (λ k. get_or buf (bit_and h mask) 0 ∷ window buf mask (add32 h 1) k) (omega arith)

-- Fewer than `c` steps onwards never come back to the same remainder.
mod_apart : (c a d : ℕ) → 0 < d → d < c → (a + d) % c ≢ a % c
mod_apart c a d pos lt = elim (dec_lt (a % c + d) c) [
  | yes p ↦ omega (arith, mod-add-mod a c d, mod-eq_of_lt p)
  | no p ↦ omega (
    arith,
    mod-add-mod a c d,
    mod-lt a {m = c} (omega arith),
    mod-eq-sub-mod {n = a % c + d} {m = c} (omega arith),
    mod-eq_of_lt {n = a % c + d - c} {m = c} (omega (arith, mod-lt a {m = c} (omega arith))),
  )
]

module _ (k : ℕ) (small : k ≤ 31) where
  -- Where a counter points.
  slot_of : (h : ℕ) → bit_and h (2 ^ k - 1) ≡ h % 2 ^ k
  slot_of h = and_mask k h

  -- The wrap of the counter does not move the slot.
  slot_wrap : (a : ℕ) → a % 2 ^ 32 % 2 ^ k ≡ a % 2 ^ k
  slot_wrap a = mod-mod_of_dvd (2 ^ k) a ∣ (2 ^ (32 - k), laps k small) ∣₁

  pub slot_in : (h : ℕ) → bit_and h (2 ^ k - 1) < 2 ^ k
  slot_in h = omega (arith, and_mask k h, mod-lt h {m = 2 ^ k} (one-le-pow k 2 (omega arith)))

  pub slots_apart :
      (h n : ℕ) → suc n < 2 ^ k → bit_and (add32 h (suc n)) (2 ^ k - 1) ≢ bit_and h (2 ^ k - 1)
  slots_apart h n lt = omega (
    arith,
    slot_of (add32 h (suc n)),
    slot_of h,
    slot_wrap (h + suc n),
    mod_apart (2 ^ k) h (suc n) (omega arith) lt,
  )

  -- Writing just past a window extends it.
  window-set :
      (buf : List ℕ) (x n h i : ℕ)
      → length buf ≡ 2 ^ k
      → n < 2 ^ k
      → h < 2 ^ 32
      → i ≡ bit_and (add32 h n) (2 ^ k - 1)
      → window (set buf i x) (2 ^ k - 1) h (suc n) ≡ window buf (2 ^ k - 1) h n ++ (x ∷ [])
  window-set buf x zero h i room lt word e =
      ap (λ t. t ∷ [])
        (ap (λ j. get_or (set buf i x) j 0) (sym here)
          ∙ get_or-set_self buf i x 0 (omega (arith, here, slot_in h)))
    where
      here : i ≡ bit_and h (2 ^ k - 1)
      here = e ∙ ap (λ t. bit_and t (2 ^ k - 1)) (omega arith)
  window-set buf x (suc n) h i room lt word e =
      ap₂ ◌∷◌ (get_or-set_ne buf i (bit_and h (2 ^ k - 1)) x 0 (rw e (slots_apart h n lt))) (
        window-set buf x n (add32 h 1) i room (omega arith) (omega arith)
          (e ∙ ap (λ t. bit_and t (2 ^ k - 1)) (omega arith)))

-- The queue after a push that finds room.
contents-push :
    {q : Spsc} (x : ℕ)
    → IsValid q
    → sub32 q.tail q.head < q.cap
    → window (set q.buf (bit_and q.tail q.mask) x) q.mask q.head (sub32 (add32 q.tail 1) q.head)
      ≡ contents q ++ (x ∷ [])
contents-push {q} x v free = rw longer (
    subst
      (λ m.
        window (set q.buf (bit_and q.tail m) x) m q.head (suc (sub32 q.tail q.head))
        ≡ window q.buf m q.head (sub32 q.tail q.head) ++ (x ∷ []))
      (sym v.mask_ones)
      (window-set v.log v.small q.buf x (sub32 q.tail q.head) q.head
        (bit_and q.tail (2 ^ v.log - 1)) (v.room ∙ v.cap_pow) (omega (arith, v.cap_pow)) v.head_word
        (ap (λ t. bit_and t (2 ^ v.log - 1)) (omega arith))))
  where
    longer : sub32 (add32 q.tail 1) q.head ≡ suc (sub32 q.tail q.head)
    longer = omega (arith, pow_bounds v.log v.small)

-- `spsc_push` on a valid ring returns what the bounded queue of its contents returns, and leaves
-- the ring holding that queue: the index at the end if there is room, no change if not.
pub spsc_push_refines :
    {q : Spsc} (x : ℕ)
    → IsValid q
    → let (q', done) = spsc_push q x in (contents q', done) ≡ push q.cap (contents q) x
unfolding spsc_push push
spsc_push_refines {q} x v = ground (arith, length-contents q, contents-push x v)

-- `spsc_pop` on a valid ring returns the oldest index or nothing, as the queue of its contents
-- does, and leaves the ring holding the rest.
pub spsc_pop_refines :
    {q : Spsc} → IsValid q → let (q', out) = spsc_pop q in (contents q', out) ≡ pop (contents q)
unfolding spsc_pop pop
spsc_pop_refines {q} v =
    ground (arith, window_of_pos q.buf q.mask q.head (sub32 q.tail q.head), pop-eq)
  where
    pop-eq : q.head ≢ q.tail → sub32 q.tail (add32 q.head 1) ≡ sub32 q.tail q.head - 1
    pop-eq ne = omega arith

pub cap-spsc_push : (q : Spsc) (x : ℕ) → (spsc_push q x).0.cap ≡ q.cap
unfolding spsc_push
cap-spsc_push q x = ground arith

pub cap-spsc_pop : (q : Spsc) → (spsc_pop q).0.cap ≡ q.cap
unfolding spsc_pop
cap-spsc_pop q = ground arith
