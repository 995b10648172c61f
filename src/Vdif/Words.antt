-- ===== src/Vdif/Words.antt =====
-- `le32` and the fields of a header as arithmetic, and how they see a write to memory.
use bvex_vdif_rfsoc.Base.{ℕ, ◌+◌, ◌*◌, ◌/◌, ◌%◌, ◌^◌, ◌≤◌, ◌<◌, ◌≡◌, refl, ◌⊎◌, inl, inr}
use bvex_vdif_rfsoc.Base.{List, [], ◌∷◌, arith, length, poke, bit_or, ◌<<◌}
use bvex_vdif_rfsoc.Base.{get_or-poke, get_or-poke_below, get_or-poke_above}
use bvex_vdif_rfsoc.Base.Bits.{or_low_high, and_mask}
use bvex_vdif_rfsoc.Vdif.{byte_at, le32, fields}

-- Four bytes, lowest first, are the digits of the word.
le32_sum :
    (a b c d : ℕ)
    → a < 256
    → b < 256
    → c < 256
    → bit_or (bit_or (bit_or a (b << 8)) (c << 16)) (d << 24)
      ≡ a + b * 2 ^ 8 + c * 2 ^ 16 + d * 2 ^ 24
le32_sum a b c d ha hb hc =
    rw
      (
        or_low_high 8 a b (omega arith),
        or_low_high 16 (a + b * 2 ^ 8) c (omega arith),
        or_low_high 24 (a + b * 2 ^ 8 + c * 2 ^ 16) d (omega arith),
      )
      refl

-- The four bytes of a word, lowest first.
abbrev pub le_bytes : ℕ → List ℕ
le_bytes w = w % 256 ∷ w / 2 ^ 8 % 256 ∷ w / 2 ^ 16 % 256 ∷ w / 2 ^ 24 % 256 ∷ []

pub le32-poke_self :
    (m : List ℕ) (o w : ℕ) → o + 4 ≤ length m → le32 (poke m o (le_bytes w)) o ≡ w % 2 ^ 32
unfolding le32
le32-poke_self m o w h =
    rw
      (
        get_or-poke m o (le_bytes w) o 0 (omega arith) (omega arith) (omega arith),
        get_or-poke m o (le_bytes w) (o + 1) 1 refl (omega arith) (omega arith),
        get_or-poke m o (le_bytes w) (o + 2) 2 refl (omega arith) (omega arith),
        get_or-poke m o (le_bytes w) (o + 3) 3 refl (omega arith) (omega arith),
        le32_sum (w % 256) (w / 2 ^ 8 % 256) (w / 2 ^ 16 % 256) (w / 2 ^ 24 % 256) (omega arith)
            (omega arith) (omega arith),
      )
      (omega arith)

byte_at-poke_apart :
    (m : List ℕ) (o : ℕ) (bs : List ℕ) (i : ℕ)
    → (i < o) ⊎ (o + length bs ≤ i)
    → byte_at (poke m o bs) i ≡ byte_at m i
byte_at-poke_apart m o bs i (inl h) = get_or-poke_below m o bs i h
byte_at-poke_apart m o bs i (inr h) = get_or-poke_above m o bs i h

-- A word that a write does not touch.
pub le32-poke_apart :
    (m : List ℕ) (p : ℕ) (bs : List ℕ) (o : ℕ)
    → (o + 4 ≤ p) ⊎ (p + length bs ≤ o)
    → le32 (poke m p bs) o ≡ le32 m o
unfolding le32
le32-poke_apart m p bs o h =
    rw
      (
        byte_at-poke_apart m p bs o (omega arith),
        byte_at-poke_apart m p bs (o + 1) (omega arith),
        byte_at-poke_apart m p bs (o + 2) (omega arith),
        byte_at-poke_apart m p bs (o + 3) (omega arith),
      )
      refl

-- The fields as digits of the words.
pub fields_digits :
    (w0 w1 w2 w3 : ℕ)
    → fields w0 w1 w2 w3 ≡ record {
      sec = w0 % 2 ^ 30;
      frame = w1 % 2 ^ 24;
      ref_epoch = w1 / 2 ^ 24 % 2 ^ 6;
      thread = w3 / 2 ^ 16 % 2 ^ 10;
      station = w3 % 2 ^ 16;
      frame_len = w2 % 2 ^ 24 * 8;
      bps_m1 = w3 / 2 ^ 26 % 2 ^ 5;
      data_type = w3 / 2 ^ 31 % 2;
    }
unfolding fields
fields_digits w0 w1 w2 w3 = ground (
  arith,
  and_mask 30 w0,
  and_mask 24 w1,
  and_mask 6 (w1 / 2 ^ 24),
  and_mask 10 (w3 / 2 ^ 16),
  and_mask 16 w3,
  and_mask 24 w2,
  and_mask 5 (w3 / 2 ^ 26),
  and_mask 1 (w3 / 2 ^ 31),
)
