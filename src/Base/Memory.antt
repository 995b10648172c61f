-- ===== src/Base/Memory.antt =====
-- Byte memory: `memcpy` and `memset` as a block write, and the block that a pointer and a length
-- denote.
use Prim.Native.Nat.{ℕ, zero, suc, ◌+◌, ◌-◌, ◌≤◌, ◌<◌}
use mathlib.Core.Path.{◌≡◌, refl, ap, sym, ◌∙◌}
use mathlib.Core.Logic.{◌⊎◌, inl, inr}
use mathlib.Core.List.{List, [], ◌∷◌, ◌++◌}
use native.Mathlib.Omega.{arith}
use bvex_vdif_rfsoc.Base.Lists.{length, get_or, take, drop}

-- The bytes `bs` stored from index `o` on. What lies past the end of the memory is not written.
abbrev pub poke : List ℕ → ℕ → List ℕ → List ℕ
poke [] o bs = []
poke (x ∷ xs) (suc o) bs = x ∷ poke xs o bs
poke (x ∷ xs) zero [] = x ∷ xs
poke (x ∷ xs) zero (b ∷ bs) = b ∷ poke xs zero bs

-- The `n` bytes from index `o` on.
abbrev pub block : List ℕ → ℕ → ℕ → List ℕ
block m o n = take n (drop o m)

pub length-poke : (m : List ℕ) (o : ℕ) (bs : List ℕ) → length (poke m o bs) ≡ length m
length-poke [] o bs = refl
length-poke (x ∷ xs) (suc o) bs = ap suc (length-poke xs o bs)
length-poke (x ∷ xs) zero [] = refl
length-poke (x ∷ xs) zero (b ∷ bs) = ap suc (length-poke xs zero bs)

pub poke-nil : (m : List ℕ) (o : ℕ) → poke m o [] ≡ m
poke-nil [] o = refl
poke-nil (x ∷ xs) zero = refl
poke-nil (x ∷ xs) (suc o) = ap (λ t. x ∷ t) (poke-nil xs o)

pub take-nil : (n : ℕ) → take {A = ℕ} n [] ≡ []
take-nil zero = refl
take-nil (suc n) = refl

pub drop-nil : (n : ℕ) → drop {A = ℕ} n [] ≡ []
drop-nil zero = refl
drop-nil (suc n) = refl

pub length-take : (n : ℕ) (m : List ℕ) → n ≤ length m → length (take n m) ≡ n
length-take zero m h = refl
length-take (suc n) [] h = absurd (omega arith)
length-take (suc n) (x ∷ xs) h = ap suc (length-take n xs (omega arith))

pub length-drop : (n : ℕ) (m : List ℕ) → length (drop n m) ≡ length m - n
length-drop zero m = omega arith
length-drop (suc n) [] = omega arith
length-drop (suc n) (x ∷ xs) = omega (arith, length-drop n xs)

pub length-block : (m : List ℕ) (o n : ℕ) → o + n ≤ length m → length (block m o n) ≡ n
length-block m o n h = length-take n (drop o m) (omega (arith, length-drop o m))

-- A block that was just written reads back.
pub block-poke_self :
    (m : List ℕ) (o : ℕ) (bs : List ℕ)
    → o + length bs ≤ length m
    → block (poke m o bs) o (length bs) ≡ bs
block-poke_self [] zero [] h = refl
block-poke_self [] zero (b ∷ bs) h = absurd (omega arith)
block-poke_self [] (suc o) bs h = absurd (omega arith)
block-poke_self (x ∷ xs) (suc o) bs h = block-poke_self xs o bs (omega arith)
block-poke_self (x ∷ xs) zero [] h = refl
block-poke_self (x ∷ xs) zero (b ∷ bs) h =
    ap (λ t. b ∷ t) (block-poke_self xs zero bs (omega arith))

-- A block below the write.
block-poke_below :
    (m : List ℕ) (o : ℕ) (bs : List ℕ) (p n : ℕ) → p + n ≤ o → block (poke m o bs) p n ≡ block m p n
block-poke_below [] o bs p n h = refl
block-poke_below (x ∷ xs) zero bs zero zero h = refl
block-poke_below (x ∷ xs) zero bs zero (suc n) h = absurd (omega arith)
block-poke_below (x ∷ xs) zero bs (suc p) n h = absurd (omega arith)
block-poke_below (x ∷ xs) (suc o) bs zero zero h = refl
block-poke_below (x ∷ xs) (suc o) bs zero (suc n) h =
    ap (λ t. x ∷ t) (block-poke_below xs o bs zero n (omega arith))
block-poke_below (x ∷ xs) (suc o) bs (suc p) n h = block-poke_below xs o bs p n (omega arith)

drop-poke :
    (m : List ℕ) (o : ℕ) (bs : List ℕ) (p : ℕ) → o + length bs ≤ p → drop p (poke m o bs) ≡ drop p m
drop-poke [] o bs p h = refl
drop-poke (x ∷ xs) zero [] p h = refl
drop-poke (x ∷ xs) zero (b ∷ bs) zero h = absurd (omega arith)
drop-poke (x ∷ xs) zero (b ∷ bs) (suc p) h = drop-poke xs zero bs p (omega arith)
drop-poke (x ∷ xs) (suc o) bs zero h = absurd (omega arith)
drop-poke (x ∷ xs) (suc o) bs (suc p) h = drop-poke xs o bs p (omega arith)

-- A block that does not meet the write is unchanged.
pub block-poke_apart :
    (m : List ℕ) (o : ℕ) (bs : List ℕ) (p n : ℕ)
    → (p + n ≤ o) ⊎ (o + length bs ≤ p)
    → block (poke m o bs) p n ≡ block m p n
block-poke_apart m o bs p n (inl h) = block-poke_below m o bs p n h
block-poke_apart m o bs p n (inr h) = ap (take n) (drop-poke m o bs p h)

pub get_or-poke_below :
    (m : List ℕ) (o : ℕ) (bs : List ℕ) (i : ℕ) → i < o → get_or (poke m o bs) i 0 ≡ get_or m i 0
get_or-poke_below [] o bs i h = refl
get_or-poke_below (x ∷ xs) zero bs i h = absurd (omega arith)
get_or-poke_below (x ∷ xs) (suc o) bs zero h = refl
get_or-poke_below (x ∷ xs) (suc o) bs (suc i) h = get_or-poke_below xs o bs i (omega arith)

pub get_or-poke_above :
    (m : List ℕ) (o : ℕ) (bs : List ℕ) (i : ℕ)
    → o + length bs ≤ i
    → get_or (poke m o bs) i 0 ≡ get_or m i 0
get_or-poke_above [] o bs i h = refl
get_or-poke_above (x ∷ xs) zero [] i h = refl
get_or-poke_above (x ∷ xs) zero (b ∷ bs) zero h = absurd (omega arith)
get_or-poke_above (x ∷ xs) zero (b ∷ bs) (suc i) h = get_or-poke_above xs zero bs i (omega arith)
get_or-poke_above (x ∷ xs) (suc o) bs zero h = absurd (omega arith)
get_or-poke_above (x ∷ xs) (suc o) bs (suc i) h = get_or-poke_above xs o bs i (omega arith)

-- The byte at a written index, counted from the start of the write.
pub get_or-poke :
    (m : List ℕ) (o : ℕ) (bs : List ℕ) (i k : ℕ)
    → i ≡ o + k
    → k < length bs
    → i < length m
    → get_or (poke m o bs) i 0 ≡ get_or bs k 0
get_or-poke [] o bs i k e hk hi = absurd (omega arith)
get_or-poke (x ∷ xs) (suc o) bs zero k e hk hi = absurd (omega arith)
get_or-poke (x ∷ xs) (suc o) bs (suc i) k e hk hi =
    get_or-poke xs o bs i k (omega arith) hk (omega arith)
get_or-poke (x ∷ xs) zero [] i k e hk hi = absurd (omega arith)
get_or-poke (x ∷ xs) zero (b ∷ bs) zero zero e hk hi = refl
get_or-poke (x ∷ xs) zero (b ∷ bs) zero (suc k) e hk hi = absurd (omega arith)
get_or-poke (x ∷ xs) zero (b ∷ bs) (suc i) zero e hk hi = absurd (omega arith)
get_or-poke (x ∷ xs) zero (b ∷ bs) (suc i) (suc k) e hk hi =
    get_or-poke xs zero bs i k (omega arith) (omega arith) (omega arith)

drop_next : (a o : ℕ) (m : List ℕ) → drop a (drop o m) ≡ drop (o + a) m
drop_next a zero m = ap (λ n. drop n m) (omega arith)
drop_next a (suc o) [] = drop-nil a ∙ sym (drop-nil (suc o + a))
drop_next a (suc o) (x ∷ xs) =
    drop_next a o xs ∙ ap (λ n. drop n (x ∷ xs)) {x = suc (o + a)} {y = suc o + a} (omega arith)

take_sum : (a b : ℕ) (m : List ℕ) → take (a + b) m ≡ take a m ++ take b (drop a m)
take_sum zero b m = ap (λ n. take n m) (omega arith)
take_sum (suc a) b [] = take-nil (suc a + b) ∙ sym (take-nil b)
take_sum (suc a) b (x ∷ xs) =
    ap (λ n. take n (x ∷ xs)) {x = suc a + b} {y = suc (a + b)} (omega arith)
    ∙ ap (λ t. x ∷ t) (take_sum a b xs)

-- Two blocks that follow each other are one.
pub block_sum : (m : List ℕ) (o a b : ℕ) → block m o (a + b) ≡ block m o a ++ block m (o + a) b
block_sum m o a b =
    take_sum a b (drop o m) ∙ ap (λ t. take a (drop o m) ++ take b t) (drop_next a o m)
