-- ===== src/Setup/Ready.antt =====
-- The pool that `main` sets up is in order, and the capture can start on it.
use native.Mathlib.Nat.{pow-suc}
use bvex_vdif_rfsoc.Base.{
  ℕ, zero, suc, ◌+◌, ◌*◌, ◌^◌, ◌≤◌, ◌<◌, ◌≡◌, refl, ap, sym, ◌∙◌, List, [], ◌∷◌, ◌++◌,
}
use bvex_vdif_rfsoc.Base.{
  none, some, arith, length, leb, ltb, if◌then◌else◌, Bool-cases, inl, inr, u32,
}
use bvex_vdif_rfsoc.Base.{◌&&◌, length-append, replicate}
use bvex_vdif_rfsoc.Base.{length-replicate, true, false, Bool}
use mathlib.Core.Path.{subst}
use mathlib.Core.List.{append_assoc, append-nil}
use bvex_vdif_rfsoc.Spsc.{Spsc, spsc_init}
use bvex_vdif_rfsoc.Spsc.Inv.{IsValid, spsc_init-IsValid}
use bvex_vdif_rfsoc.Spsc.Refine.{contents}
use bvex_vdif_rfsoc.Spsc.Calls.{Pushed, spsc_push-Pushed, contents-spsc_init, cap-spsc_init}
use bvex_vdif_rfsoc.Capture.{Config, Shared, capstate_init, slab_bytes}
use bvex_vdif_rfsoc.Capture.Log.{count, log, queue_log}
use bvex_vdif_rfsoc.Capture.Pool.{IsSized, IsPool}
use bvex_vdif_rfsoc.Capture.Fate.{IsReady}
use bvex_vdif_rfsoc.Setup.{grow_cap, fill_free, pool_setup, telemetry_init}

-- The least power of two above `n`.
pub record PowerAbove (n cap : ℕ) : Type 0 where
  pub log : ℕ
  pub small : log ≤ 31
  pub is_pow : cap ≡ 2 ^ log
  pub above : n < cap
  pub least : cap ≤ 2 * n + 1

grow_cap_from :
    (f k n cap : ℕ)
    → cap ≡ 2 ^ k
    → f + k ≡ 32
    → n < 2 ^ 31
    → cap ≤ 2 * n + 1
    → (c : ℕ) × (grow_cap f n cap ≡ some c) × PowerAbove n c
unfolding grow_cap
grow_cap_from zero k n cap e ef small le = absurd (omega (arith, pow_31 k (omega arith)))
  where
    pow_31 : (k : ℕ) → k ≡ 32 → 2 ^ k ≡ 2 ^ 32
    pow_31 k e = ap (λ (t : ℕ). 2 ^ t) e
grow_cap_from (suc f) k n cap e ef small le = elim (Bool-cases (leb cap n)) [
  | inl t ↦ rw t (
      grow_cap_from f (suc k) n (u32 (cap * 2)) (ground (arith, pow-suc 2 k)) (omega arith) small
        (ground arith))
  | inr t ↦ (
    cap,
    rw t,
    record { log = k; small = omega arith; is_pow = e; above = ground (arith, t); least = le },
  )
]

-- Numbers from `i` on.
abbrev pub from : ℕ → ℕ → List ℕ
from i zero = []
from i (suc n) = i ∷ from (i + 1) n

length-from : (i n : ℕ) → length (from i n) ≡ n
length-from i zero = refl
length-from i (suc n) = ap suc (length-from (i + 1) n)

count-from : (j i n : ℕ) → count j (from i n) ≡ (if leb i j && ltb j (i + n) then 1 else 0)
count-from j i zero = ground arith
count-from j i (suc n) = ground (arith, count-from j (i + 1) n)

count-from_zero : (j n : ℕ) → count j (from 0 n) ≤ (if ltb j n then 1 else 0)
count-from_zero j n = ground (arith, count-from j 0 n)

none≢some : {i : ℕ} → none ≡ some i → ⊥
none≢some e = cc

-- The ring `r` is `q` with `n` numbers from `i` on added.
record Filled (n i : ℕ) (q r : Spsc) : Type 0 where
  valid : IsValid r
  same_cap : r.cap ≡ q.cap
  queue : contents r ≡ contents q ++ from i n

fill_free-Filled :
    (n i : ℕ) (q : Spsc)
    → IsValid q
    → length (contents q) + n < q.cap
    → Filled n i q (fill_free n i q)
unfolding fill_free
fill_free-Filled zero i q v room = record { valid = v; same_cap = refl; queue = sym (append-nil _) }
fill_free-Filled (suc n) i q v room =
    let rest : Filled n (i + 1) p.ring (fill_free n (i + 1) p.ring) =
      fill_free-Filled n (i + 1) p.ring p.valid room' in
    subst (Filled (suc n) i q) (ap (λ (t : Spsc × Bool). fill_free n (i + 1) t.0) (sym p.returns))
      (record {
        valid = rest.valid;
        same_cap = rest.same_cap ∙ p.same_cap;
        queue =
            rest.queue
            ∙ ap (λ t. t ++ from (i + 1) n) p.queue
            ∙ append_assoc (contents q) (i ∷ []) (from (i + 1) n);
      })
  where
    p : Pushed q i
    p = spsc_push-Pushed q i v (omega arith)

    room' : length (contents p.ring) + n < p.ring.cap
    room' =
        omega (arith, ap (length {A = ℕ}) p.queue, length-append (contents q) (i ∷ []), p.same_cap)

-- What `main` hands to the threads.
pub record SetUp (cfg : Config) (arena : List ℕ) : Type 0 where
  pub shared : Shared
  pub returns : pool_setup cfg arena ≡ some shared
  pub ready : IsReady cfg [] capstate_init shared
  pub empty_log : log cfg capstate_init shared ≡ []
  pub zeroed : shared.tel ≡ telemetry_init
  pub power : PowerAbove cfg.nslabs shared.q_free.cap
  pub full_power : PowerAbove cfg.nslabs shared.q_full.cap
  pub free : contents shared.q_free ≡ from 0 cfg.nslabs
  pub none_full : contents shared.q_full ≡ []

module _ (cfg : Config) (arena : List ℕ) (sized : IsSized cfg) (few : cfg.nslabs < 2 ^ 31)
    (memory : length arena ≡ cfg.nslabs * slab_bytes cfg) where
  abbrev grown : (c : ℕ) × (grow_cap 32 cfg.nslabs 1 ≡ some c) × PowerAbove cfg.nslabs c
  grown = grow_cap_from 32 0 cfg.nslabs 1 refl refl few (omega arith)

  cap : ℕ
  cap = grown.0

  room : length (contents (spsc_init cap)) + cfg.nslabs < (spsc_init cap).cap
  unfolding cap
  room = omega (
    arith,
    ap (length {A = ℕ}) (contents-spsc_init grown.0),
    cap-spsc_init grown.0,
    grown.2.above,
  )

  ring-IsValid : IsValid (spsc_init cap)
  unfolding cap
  ring-IsValid = rw grown.2.is_pow (spsc_init-IsValid grown.2.log grown.2.small)

  added : Filled cfg.nslabs 0 (spsc_init cap) (fill_free cfg.nslabs 0 (spsc_init cap))
  added = fill_free-Filled cfg.nslabs 0 (spsc_init cap) ring-IsValid room

  all_slabs : contents (fill_free cfg.nslabs 0 (spsc_init cap)) ≡ from 0 cfg.nslabs
  all_slabs = added.queue ∙ ap (λ t. t ++ from 0 cfg.nslabs) (contents-spsc_init cap)

  pool : Shared
  pool = record {
    q_free = fill_free cfg.nslabs 0 (spsc_init cap);
    q_full = spsc_init cap;
    desc = replicate cfg.nslabs (record { frames = 0; file_id = 0; eof = false });
    arena = arena;
    tel = telemetry_init;
    capture_running = true;
  }

  pool-IsPool : IsPool cfg [] capstate_init pool
  unfolding pool capstate_init
  pool-IsPool = record {
    free_valid = added.valid;
    full_valid = ring-IsValid;
    free_cap = omega (arith, added.same_cap, room);
    full_cap = omega (arith, room);
    one_owner = λ i. omega (
      arith,
      ap (count i) all_slabs,
      ap (count i) (contents-spsc_init cap),
      count-from_zero i cfg.nslabs,
    );
    all_there = omega (
      arith,
      ap (length {A = ℕ}) all_slabs,
      ap (length {A = ℕ}) (contents-spsc_init cap),
      length-from 0 cfg.nslabs,
    );
    descs = length-replicate cfg.nslabs _;
    memory = memory;
    fits = λ i q. absurd (omega (arith, ap (count i) (contents-spsc_init cap)));
    current = λ i e. absurd (none≢some e);
    filled = omega arith;
  }

  -- With a slab size that fits an `int`, fewer than 2 ^ 31 slabs and an arena of their size, the
  -- set-up ends with two queues of the least power of two above the number of slabs: `q_free` holds
  -- the slabs from 0 on in order, every slab once, and `q_full` is empty. There is nothing in the
  -- log, the counters are at 0, and the capture is ready for its first frame.
  pub pool_setup-SetUp : SetUp cfg arena
  unfolding pool_setup pool cap capstate_init
  pool_setup-SetUp = record {
    shared = pool;
    returns = rw (grown.1, pool_setup);
    ready = record { pool = pool-IsPool; room = sized.some_frames; idle = λ e. refl };
    empty_log = ap (λ is. queue_log cfg pool.desc arena is ++ []) (contents-spsc_init cap);
    zeroed = refl;
    power = subst (PowerAbove cfg.nslabs) (sym (added.same_cap ∙ cap-spsc_init cap)) grown.2;
    full_power = subst (PowerAbove cfg.nslabs) (sym (cap-spsc_init cap)) grown.2;
    free = all_slabs;
    none_full = contents-spsc_init cap;
  }
