-- ===== src/Files/Disks.antt =====
-- The search of `choose_disk`.
use mathlib.Core.Path.{subst}
use bvex_vdif_rfsoc.Base.{ℕ, zero, suc, ◌+◌, ◌≤◌, ◌<◌, ◌≡◌, ◌⊎◌, inl, inr, refl}
use bvex_vdif_rfsoc.Base.{none, some, arith, true, false, Bool-cases}
use bvex_vdif_rfsoc.Disk.{Output, Statvfs}
use bvex_vdif_rfsoc.Files.{has_room, choose_disk}

-- What the search over `left` disks from `d` on returns: the first that has room, if there is one.
pub record Chosen (c : Output) (statvfs : Statvfs) (left d found : ℕ) : Type 0 where
  pub returns : choose_disk c statvfs left d ≡ some found
  pub from : d ≤ found
  pub below : found < d + left
  pub room : has_room c (statvfs found) ≡ true
  pub first : (e : ℕ) → d ≤ e → e < found → has_room c (statvfs e) ≡ false

pub record AllFull (c : Output) (statvfs : Statvfs) (left d : ℕ) : Type 0 where
  pub returns : choose_disk c statvfs left d ≡ none
  pub all : (e : ℕ) → d ≤ e → e < d + left → has_room c (statvfs e) ≡ false

-- A disk without room before the others.
passes :
    (c : Output) (statvfs : Statvfs) (d : ℕ)
    → has_room c (statvfs d) ≡ false
    → (end : ℕ) → ((e : ℕ) → d + 1 ≤ e → e < end → has_room c (statvfs e) ≡ false)
    → (e : ℕ) → d ≤ e
    → e < end
    → has_room c (statvfs e) ≡ false
passes c statvfs d full end h e lo hi = elim (same_or_later e lo) [
  | inl q ↦ subst (λ x. has_room c (statvfs x) ≡ false) q full
  | inr l ↦ h e l hi
]
  where
    same_or_later : (e : ℕ) → d ≤ e → (d ≡ e) ⊎ (d + 1 ≤ e)
    same_or_later e lo = ground arith

-- `choose_disk` returns the first disk from `d` on, among the `left` next ones, for which `statvfs`
-- succeeds with at least the required free space, and it finds none exactly when there is none.
pub choose_disk_lem :
    (c : Output) (statvfs : Statvfs) (left d : ℕ)
    → ((found : ℕ) × Chosen c statvfs left d found) ⊎ AllFull c statvfs left d
unfolding choose_disk
choose_disk_lem c statvfs zero d =
    inr (record { returns = refl; all = λ e lo hi. absurd (omega arith) })
choose_disk_lem c statvfs (suc left) d = elim (Bool-cases (has_room c (statvfs d))) [
  | inl yes_room ↦ inl (
    d,
    record {
      returns = rw yes_room;
      from = omega arith;
      below = omega arith;
      room = yes_room;
      first = λ e lo hi. absurd (omega arith);
    },
  )
  | inr full ↦ elim (choose_disk_lem c statvfs left (d + 1)) [
    | inl (found, k) ↦ inl (
      found,
      record {
        returns = rw (full, k.returns);
        from = omega (arith, k.from);
        below = omega (arith, k.below);
        room = k.room;
        first = passes c statvfs d full found k.first;
      },
    )
    | inr k ↦ inr (record {
      returns = rw (full, k.returns);
      all = passes c statvfs d full (d + suc left) (λ e lo hi. k.all e lo (omega arith));
    })
  ]
]
