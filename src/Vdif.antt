-- ===== src/Vdif.antt =====
-- host/vdif_recorder.c: the stream constants, `le32`, `vhdr_t` and `parse_vhdr`.
-- Bytes are numbers; a header is read from byte memory at an offset.
pub mod Words
pub mod Stream
use bvex_vdif_rfsoc.Base.{ℕ, ◌+◌, ◌*◌, ◌%◌, ◌^◌, bit_and, bit_or, List, get_or, ◌<<◌, ◌>>◌}

-- 32-byte header and 8000-byte data array
abbrev pub vdif_frame_bytes : ℕ
vdif_frame_bytes = 8032

abbrev pub frames_per_second : ℕ
frames_per_second = 128000

-- `p[i]`. The callers hand over memory that holds at least the frame.
abbrev pub byte_at : List ℕ → ℕ → ℕ
byte_at m i = get_or m i 0

-- `le32(m + o)`
unfoldable pub le32 : List ℕ → ℕ → ℕ
le32 m o =
    bit_or (bit_or (bit_or (byte_at m o) (byte_at m (o + 1) << 8)) (byte_at m (o + 2) << 16))
      (byte_at m (o + 3) << 24)

-- `vhdr_t`
pub record Vhdr : Type 0 where
  pub sec : ℕ
  pub frame : ℕ
  pub ref_epoch : ℕ
  pub thread : ℕ
  pub station : ℕ
  pub frame_len : ℕ
  pub bps_m1 : ℕ
  pub data_type : ℕ

-- The fields, once the four words are read. The product is one of `uint32_t`.
unfoldable pub fields : ℕ → ℕ → ℕ → ℕ → Vhdr
fields w0 w1 w2 w3 = record {
  sec = bit_and w0 0x3FFFFFFF;
  frame = bit_and w1 0x00FFFFFF;
  ref_epoch = bit_and (w1 >> 24) 0x3F;
  thread = bit_and (w3 >> 16) 0x3FF;
  station = bit_and w3 0xFFFF;
  frame_len = bit_and w2 0x00FFFFFF * 8 % 2 ^ 32;
  bps_m1 = bit_and (w3 >> 26) 0x1F;
  data_type = bit_and (w3 >> 31) 1;
}

-- `parse_vhdr(m + o, h)`
unfoldable pub parse_vhdr : List ℕ → ℕ → Vhdr
unfolding fields
parse_vhdr m o = fields (le32 m o) (le32 m (o + 4)) (le32 m (o + 8)) (le32 m (o + 12))
