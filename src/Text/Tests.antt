-- ===== src/Text/Tests.antt =====
-- Numbers and tokens on concrete texts.
use bvex_vdif_rfsoc.Base.{◌≡◌, ◌-◌, ◌^◌, refl, [], ◌∷◌, ◌==◌}
use bvex_vdif_rfsoc.Text.{codes, atoi, atol, strtoull, skip_space, signed, digits, tokens, split}

negative : atoi (codes " \t-12abc") ≡ 2 ^ 32 - 12
unfolding atoi atol skip_space signed digits
negative = refl

no_number : atoi (codes "+-5") ≡ 0
unfolding atoi atol skip_space signed digits
no_number = refl

clamped : atol (codes "99999999999999999999") ≡ 2 ^ 63 - 1
unfolding atol skip_space signed digits
clamped = refl

clamped_unsigned : strtoull (codes "-99999999999999999999") ≡ 2 ^ 64 - 1
unfolding strtoull skip_space signed digits
clamped_unsigned = refl

empty_tokens : tokens (λ c. c == b',') (codes ",a,,bc,") ≡ codes "a" ∷ codes "bc" ∷ []
unfolding tokens split
empty_tokens = refl
