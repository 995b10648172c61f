-- ===== src/Text.antt =====
-- Texts as the code reads them: bytes before the terminating NUL, and what the C library does with
-- them: `strcmp`, `atoi`, `atol`, `strtoull`, `strtok` and `strchr`-like searches.
--
-- An `int` and a `long` are their bit patterns, of 32 and of 64 bits. `atoi` is `strtol` cut to an
-- `int`, as glibc has it; `strtol` stops at the least and greatest `long`.
mod Tests
pub mod Numbers
pub mod Tokens
use Prim.Native.Char.{code}
use Prim.Native.String.{String}
use bvex_vdif_rfsoc.Base.{
  ℕ, ◌+◌, ◌-◌, ◌*◌, ◌%◌, ◌^◌, List, [], ◌∷◌, Bool, true, false, ◌&&◌, ◌||◌, ltb, leb, ◌==◌, u32,
  if◌then◌else◌,
}

abbrev pub Bytes : Type 0
Bytes = List ℕ

-- The bytes of a literal, which is ASCII.
abbrev pub codes : String → Bytes
codes String.[] = []
codes (String.◌∷◌ c s) = code c ∷ codes s

-- `!strcmp(s, t)`
unfoldable pub same : Bytes → Bytes → Bool
same [] [] = true
same [] (d ∷ t) = false
same (c ∷ s) [] = false
same (c ∷ s) (d ∷ t) = c == d && same s t

-- `isspace` and `isdigit`
abbrev pub is_space : ℕ → Bool
is_space c = c == 32 || leb 9 c && leb c 13

abbrev pub is_digit : ℕ → Bool
is_digit c = leb b'0' c && leb c b'9'

unfoldable pub skip_space : Bytes → Bytes
skip_space [] = []
skip_space (c ∷ s) = if is_space c then skip_space s else c ∷ s

-- The value of the leading digits, behind the value `n` of those before.
unfoldable pub digits : Bytes → ℕ → ℕ
digits [] n = n
digits (c ∷ s) n = if is_digit c then digits s (n * 10 + (c - b'0')) else n

-- A sign, then the digits.
unfoldable pub signed : Bytes → Bool × ℕ
unfolding digits
signed [] = (false, 0)
signed (c ∷ s) =
    if c == b'-'
    then (true, digits s 0)
    else if c == b'+'
    then (false, digits s 0)
    else (false, digits (c ∷ s) 0)

-- The `long` for a sign and a magnitude.
abbrev to_long : Bool → ℕ → ℕ
to_long true m = if leb (2 ^ 63) m then 2 ^ 63 else (2 ^ 64 - m) % 2 ^ 64
to_long false m = if ltb m (2 ^ 63) then m else 2 ^ 63 - 1

-- The `unsigned long long` for a sign and a magnitude.
abbrev to_ulong : Bool → ℕ → ℕ
to_ulong neg m = if leb (2 ^ 64) m then 2 ^ 64 - 1 else if neg then (2 ^ 64 - m) % 2 ^ 64 else m

unfoldable pub atol : Bytes → ℕ
unfolding skip_space signed
atol s = let (neg, m) = signed (skip_space s) in to_long neg m

unfoldable pub atoi : Bytes → ℕ
unfolding atol
atoi s = u32 (atol s)

unfoldable pub strtoull : Bytes → ℕ
unfolding skip_space signed
strtoull s = let (neg, m) = signed (skip_space s) in to_ulong neg m

-- A token in front of others; an empty one does not count.
abbrev flush : Bytes → List Bytes → List Bytes
flush [] ts = ts
flush (c ∷ t) ts = (c ∷ t) ∷ ts

-- The bytes before the first delimiter, and the tokens behind it.
unfoldable pub split : (ℕ → Bool) → Bytes → Bytes × List Bytes
split is_delim [] = ([], [])
split is_delim (c ∷ s) =
    let (t, ts) = split is_delim s in if is_delim c then ([], flush t ts) else (c ∷ t, ts)

-- What `strtok` returns, call after call, before its null pointer.
unfoldable pub tokens : (ℕ → Bool) → Bytes → List Bytes
unfolding split
tokens is_delim s = let (t, ts) = split is_delim s in flush t ts
