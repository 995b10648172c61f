-- ===== src/Gen/RoundTrip.antt =====
-- The recorder reads from a generated header what the generator put into it.
use bvex_vdif_rfsoc.Base.{ℕ, ◌+◌, ◌*◌, ◌%◌, ◌^◌, ◌≤◌, ◌≡◌, ◌∙◌, List, arith, length}
use bvex_vdif_rfsoc.Base.{poke, length-poke, replicate, inl}
use bvex_vdif_rfsoc.Base.Bits.{or_low_high, and_mask}
use bvex_vdif_rfsoc.Vdif.{fields, parse_vhdr, le32}
use bvex_vdif_rfsoc.Vdif.Words.{le32-poke_self, le32-poke_apart, fields_digits, le_bytes}
use bvex_vdif_rfsoc.Gen.{word0, word1, word2, word3, fill_vdif_header}

word1_sum : (frame e : ℕ) → word1 frame e ≡ frame % 2 ^ 24 + e % 2 ^ 6 * 2 ^ 24
word1_sum frame e =
    rw (and_mask 24 frame, and_mask 6 e, or_low_high 24 (frame % 2 ^ 24) (e % 2 ^ 6) (omega arith))

word3_sum : (th st : ℕ) → word3 th st ≡ st % 2 ^ 16 + th % 2 ^ 10 * 2 ^ 16 + 1 * 2 ^ 26 + 1 * 2 ^ 31
word3_sum th st = rw (
  and_mask 16 st,
  and_mask 10 th,
  or_low_high 16 (st % 2 ^ 16) (th % 2 ^ 10) (omega arith),
  or_low_high 26 (st % 2 ^ 16 + th % 2 ^ 10 * 2 ^ 16) 1 (omega arith),
  or_low_high 31 (st % 2 ^ 16 + th % 2 ^ 10 * 2 ^ 16 + 1 * 2 ^ 26) 1 (omega arith),
)

-- Four words and a tail stored one after the other.
module _ (v : List ℕ) (a b c d : ℕ) (zs : List ℕ) where
  abbrev at0 : List ℕ
  at0 = poke v 0 (le_bytes a)

  abbrev at4 : List ℕ
  at4 = poke at0 4 (le_bytes b)

  abbrev at8 : List ℕ
  at8 = poke at4 8 (le_bytes c)

  abbrev at12 : List ℕ
  at12 = poke at8 12 (le_bytes d)

  lengths :
      (length at0 ≡ length v)
      × (length at4 ≡ length v)
      × (length at8 ≡ length v)
      × (length at12 ≡ length v)
  lengths = omega (
    arith,
    length-poke v 0 (le_bytes a),
    length-poke at0 4 (le_bytes b),
    length-poke at4 8 (le_bytes c),
    length-poke at8 12 (le_bytes d),
  )

  module _ (room : 32 ≤ length v) where
    stored0 : le32 (poke at12 16 zs) 0 ≡ a % 2 ^ 32
    stored0 =
        le32-poke_apart at12 16 zs 0 (inl (omega arith))
        ∙ le32-poke_apart at8 12 (le_bytes d) 0 (inl (omega arith))
        ∙ le32-poke_apart at4 8 (le_bytes c) 0 (inl (omega arith))
        ∙ le32-poke_apart at0 4 (le_bytes b) 0 (inl (omega arith))
        ∙ le32-poke_self v 0 a (omega arith)

    stored4 : le32 (poke at12 16 zs) 4 ≡ b % 2 ^ 32
    stored4 =
        le32-poke_apart at12 16 zs 4 (inl (omega arith))
        ∙ le32-poke_apart at8 12 (le_bytes d) 4 (inl (omega arith))
        ∙ le32-poke_apart at4 8 (le_bytes c) 4 (inl (omega arith))
        ∙ le32-poke_self at0 4 b (omega (arith, lengths))

    stored8 : le32 (poke at12 16 zs) 8 ≡ c % 2 ^ 32
    stored8 =
        le32-poke_apart at12 16 zs 8 (inl (omega arith))
        ∙ le32-poke_apart at8 12 (le_bytes d) 8 (inl (omega arith))
        ∙ le32-poke_self at4 8 c (omega (arith, lengths))

    stored12 : le32 (poke at12 16 zs) 12 ≡ d % 2 ^ 32
    stored12 =
        le32-poke_apart at12 16 zs 12 (inl (omega arith))
        ∙ le32-poke_self at8 12 d (omega (arith, lengths))

words_digits :
    (sec frame e th st : ℕ)
    → fields (word0 sec % 2 ^ 32) (word1 frame e % 2 ^ 32) (word2 % 2 ^ 32) (word3 th st % 2 ^ 32)
      ≡ record {
        sec = sec % 2 ^ 30;
        frame = frame % 2 ^ 24;
        ref_epoch = e % 2 ^ 6;
        thread = th % 2 ^ 10;
        station = st % 2 ^ 16;
        frame_len = 8032;
        bps_m1 = 1;
        data_type = 1;
      }
words_digits sec frame e th st =
    rw (fields_digits, and_mask 30 sec, word1_sum frame e, word3_sum th st) (ground arith)

-- A header that `fill_vdif_header` writes into a buffer of at least 32 bytes parses to the low 30
-- bits of the second, the low 24 bits of the frame number, the low 6 bits of the epoch, the low 10
-- bits of the thread, the low 16 bits of the station, a frame length of 8032 bytes, 2 bits to a
-- sample and complex data.
pub parse_vhdr-fill_vdif_header :
    (v : List ℕ) (sec frame e th st : ℕ)
    → 32 ≤ length v
    → parse_vhdr (fill_vdif_header v sec frame e th st) 0 ≡ record {
      sec = sec % 2 ^ 30;
      frame = frame % 2 ^ 24;
      ref_epoch = e % 2 ^ 6;
      thread = th % 2 ^ 10;
      station = st % 2 ^ 16;
      frame_len = 8032;
      bps_m1 = 1;
      data_type = 1;
    }
unfolding parse_vhdr fill_vdif_header
parse_vhdr-fill_vdif_header v sec frame e th st room =
    rw
      (
        stored0 v (word0 sec) (word1 frame e) word2 (word3 th st) (replicate 16 0) room,
        stored4 v (word0 sec) (word1 frame e) word2 (word3 th st) (replicate 16 0) room,
        stored8 v (word0 sec) (word1 frame e) word2 (word3 th st) (replicate 16 0) room,
        stored12 v (word0 sec) (word1 frame e) word2 (word3 th st) (replicate 16 0) room,
      )
      (words_digits sec frame e th st)

pub length-fill_vdif_header :
    (v : List ℕ) (sec frame e th st : ℕ) → length (fill_vdif_header v sec frame e th st) ≡ length v
unfolding fill_vdif_header
length-fill_vdif_header v sec frame e th st =
    length-poke (at12 v (word0 sec) (word1 frame e) word2 (word3 th st) (replicate 16 0)) 16
      (replicate 16 0)
    ∙ (lengths v (word0 sec) (word1 frame e) word2 (word3 th st) (replicate 16 0)).3
