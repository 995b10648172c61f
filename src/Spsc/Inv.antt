-- ===== src/Spsc/Inv.antt =====
-- The representation invariant of `spsc_t`: a power of two that the counters wrap over evenly.
use native.Mathlib.Nat.{one-le-pow, pow-suc, pow-le-pow_right}
use bvex_vdif_rfsoc.Base.{ℕ, suc, ◌+◌, ◌-◌, ◌*◌, ◌^◌, ◌≤◌, ◌<◌, ◌≡◌, ap, arith, length, sub32}
use bvex_vdif_rfsoc.Base.{length-set, length-replicate, bit_and, refl}
use bvex_vdif_rfsoc.Base.Bits.{pow_add}
use bvex_vdif_rfsoc.Spsc.{Spsc, spsc_init, spsc_push, spsc_pop}

pub record IsValid (q : Spsc) : Type 0 where
  pub log : ℕ
  pub small : log ≤ 31
  pub cap_pow : q.cap ≡ 2 ^ log
  pub mask_ones : q.mask ≡ 2 ^ log - 1
  pub room : length q.buf ≡ q.cap
  pub head_word : q.head < 2 ^ 32
  pub tail_word : q.tail < 2 ^ 32
  pub fill : sub32 q.tail q.head ≤ q.cap

-- The capacity divides 2 ^ 32.
pub laps : (k : ℕ) → k ≤ 31 → 2 ^ 32 ≡ 2 ^ k * 2 ^ (32 - k)
laps k h = omega (arith, ap (λ (t : ℕ). 2 ^ t) split, pow_add k (32 - k))
  where
    split : 32 ≡ k + (32 - k)
    split = omega arith

pub pow_bounds : (k : ℕ) → k ≤ 31 → (1 ≤ 2 ^ k) × (2 ^ k < 2 ^ 32)
pow_bounds k h = (
  one-le-pow k 2 (omega arith),
  omega (
    arith,
    pow-le-pow_right {n = 2} (omega arith) {i = suc k} {j = 32} (omega arith),
    pow-suc 2 k,
    one-le-pow k 2 (omega arith),
  ),
)

-- A ring made by `spsc_init` with a power of two below 2 ^ 32.
pub spsc_init-IsValid : (k : ℕ) → k ≤ 31 → IsValid (spsc_init (2 ^ k))
unfolding spsc_init
spsc_init-IsValid k h = record {
  log = k;
  small = h;
  cap_pow = refl;
  mask_ones = omega (arith, pow_bounds k h);
  room = length-replicate (2 ^ k) 0;
  head_word = omega arith;
  tail_word = omega arith;
  fill = omega arith;
}

pub spsc_push-IsValid : {q : Spsc} (v : ℕ) → IsValid q → IsValid (spsc_push q v).0
unfolding spsc_push
spsc_push-IsValid {q} v i = record {
  log = i.log;
  small = i.small;
  cap_pow = ground arith;
  mask_ones = ground arith;
  room = ground (arith, length-set q.buf (bit_and q.tail q.mask) v);
  head_word = ground arith;
  tail_word = ground arith;
  fill = ground (arith, pow_bounds i.log i.small);
}

pub spsc_pop-IsValid : {q : Spsc} → IsValid q → IsValid (spsc_pop q).0
unfolding spsc_pop
spsc_pop-IsValid {q} i = record {
  log = i.log;
  small = i.small;
  cap_pow = ground arith;
  mask_ones = ground arith;
  room = ground arith;
  head_word = ground arith;
  tail_word = ground arith;
  fill = ground arith;
}
