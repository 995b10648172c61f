-- ===== src/Text/Numbers.antt =====
-- Numbers printed in decimal, and read back.
use bvex_vdif_rfsoc.Base.{
  ℕ, zero, suc, ◌+◌, ◌-◌, ◌/◌, ◌%◌, ◌^◌, ◌<◌, ◌≡◌, refl, ap, ◌∙◌, [], ◌∷◌, arith, ◌==◌, ltb, Bool,
  true, false, if◌then◌else◌,
}
use bvex_vdif_rfsoc.Text.Tokens.{Clean, IsToken}
use bvex_vdif_rfsoc.Text.{Bytes, is_digit, skip_space, digits, signed, atol, atoi, strtoull, same}

pub same_iff : (s t : Bytes) → same s t ≡ true → s ≡ t
unfolding same
same_iff [] [] h = refl
same_iff [] (d ∷ t) h = cc
same_iff (c ∷ s) [] h = cc
same_iff (c ∷ s) (d ∷ t) h = ground (arith, same_iff s t)

-- The digits of a number below `10 ^ f`, in front of `out`.
decimal_loop : ℕ → ℕ → Bytes → Bytes
decimal_loop zero n out = out
decimal_loop (suc f) n out =
    let rest = decimal_loop f (n / 10) ((b'0' + n % 10) ∷ out) in
    if n / 10 == 0 then (b'0' + n % 10) ∷ out else rest

-- As `printf` prints an unsigned number of 64 bits.
unfoldable pub decimal : ℕ → Bytes
unfolding decimal_loop
decimal n = decimal_loop 20 n []

digits-decimal_loop :
    (f n : ℕ) (out : Bytes) → n < 10 ^ f → digits (decimal_loop f n out) 0 ≡ digits out n
unfolding decimal_loop digits
digits-decimal_loop zero n out h = ap (digits out) (omega arith)
digits-decimal_loop (suc f) n out h =
    ground (arith, digits-decimal_loop f (n / 10) ((b'0' + n % 10) ∷ out))

-- A text that starts with a digit.
abbrev Starts : Bytes → Type 0
Starts [] = ⊥
Starts (c ∷ s) = is_digit c ≡ true

decimal_loop-Starts : (f n : ℕ) (out : Bytes) → Starts (decimal_loop (suc f) n out)
unfolding decimal_loop
decimal_loop-Starts zero n out = ground arith
decimal_loop-Starts (suc f) n out =
    ground (arith, decimal_loop-Starts f (n / 10) ((b'0' + n % 10) ∷ out))

unsigned_digits : (s : Bytes) → Starts s → (skip_space s ≡ s) × (signed s ≡ (false, digits s 0))
unfolding skip_space signed
unsigned_digits [] h = absurd h
unsigned_digits (c ∷ s) h = (ground arith, ground arith)

decimal-read : (n : ℕ) → n < 2 ^ 64 → signed (skip_space (decimal n)) ≡ (false, n)
unfolding decimal digits
decimal-read n h =
    let u = unsigned_digits (decimal_loop 20 n []) (decimal_loop-Starts 19 n []) in
    ap signed u.0 ∙ u.1 ∙ ap (λ (m : ℕ). (false, m)) (digits-decimal_loop 20 n [] (omega arith))

-- An `int` and a `long` as `printf` prints them, from their bit patterns.
abbrev pub int_text : ℕ → Bytes
int_text n = if ltb n (2 ^ 31) then decimal n else b'-' ∷ decimal (2 ^ 32 - n)

abbrev pub long_text : ℕ → Bytes
long_text n = if ltb n (2 ^ 63) then decimal n else b'-' ∷ decimal (2 ^ 64 - n)

negative-read : (m : ℕ) → m < 2 ^ 64 → signed (skip_space (b'-' ∷ decimal m)) ≡ (true, m)
unfolding skip_space signed decimal digits
negative-read m h = ap (λ (k : ℕ). (true, k)) (digits-decimal_loop 20 m [] (omega arith))

pub atol-long_text : (n : ℕ) → n < 2 ^ 64 → atol (long_text n) ≡ n
unfolding atol
atol-long_text n h = ground (arith, decimal-read n, negative-read (2 ^ 64 - n))

pub atoi-int_text : (n : ℕ) → n < 2 ^ 32 → atoi (int_text n) ≡ n
unfolding atoi atol
atoi-int_text n h = ground (arith, decimal-read n, negative-read (2 ^ 32 - n))

pub strtoull-decimal : (n : ℕ) → n < 2 ^ 64 → strtoull (decimal n) ≡ n
unfolding strtoull
strtoull-decimal n h = ground (arith, decimal-read n)

-- A printed number is one word, for delimiters that are no digits.
module _ (is_delim : ℕ → Bool) (no_digit : (c : ℕ) → is_digit c ≡ true → is_delim c ≡ false) where
  decimal_loop-Clean :
      (f n : ℕ) (out : Bytes) → Clean is_delim out → Clean is_delim (decimal_loop f n out)
  unfolding decimal_loop
  decimal_loop-Clean zero n out h = h
  decimal_loop-Clean (suc f) n out h =
      let c : Clean is_delim ((b'0' + n % 10) ∷ out) =
        (no_digit (b'0' + n % 10) (ground arith), h) in
      ground (arith, c, decimal_loop-Clean f (n / 10) ((b'0' + n % 10) ∷ out) c)

  Starts-IsToken : (s : Bytes) → Starts s → Clean is_delim s → IsToken is_delim s
  Starts-IsToken [] h c = absurd h
  Starts-IsToken (d ∷ s) h c = c

  pub decimal-IsToken : (n : ℕ) → IsToken is_delim (decimal n)
  unfolding decimal
  decimal-IsToken n =
      Starts-IsToken (decimal_loop 20 n []) (decimal_loop-Starts 19 n [])
        (decimal_loop-Clean 20 n [] tt)
