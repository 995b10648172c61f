-- ===== src/Spsc/Fifo.antt =====
-- What a ring of slab indices promises: a first-in first-out queue of bounded length.
use bvex_vdif_rfsoc.Base.{ℕ, List, [], ◌∷◌, ◌++◌, Bool, true, false, Option, none, some}
use bvex_vdif_rfsoc.Base.{ltb, if◌then◌else◌, length, ◌<◌, ◌≡◌, refl, arith}

abbrev pub Fifo : Type 0
Fifo = List ℕ

unfoldable pub push : ℕ → Fifo → ℕ → Fifo × Bool
push cap xs v = if ltb (length xs) cap then (xs ++ (v ∷ []), true) else (xs, false)

unfoldable pub pop : Fifo → Fifo × Option ℕ
pop [] = ([], none)
pop (x ∷ xs) = (xs, some x)

pub push_room :
    (cap : ℕ) (xs : Fifo) (v : ℕ) → length xs < cap → push cap xs v ≡ (xs ++ (v ∷ []), true)
unfolding push
push_room cap xs v h = ground arith

pub pop_nil : pop [] ≡ ([], none)
unfolding pop
pop_nil = refl

pub pop_cons : (x : ℕ) (xs : Fifo) → pop (x ∷ xs) ≡ (xs, some x)
unfolding pop
pop_cons x xs = refl
