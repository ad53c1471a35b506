-- ===== src/Format/BlockRef.antt =====
-- `BlockRef` of crates/core/src/format.rs: the 48 bytes that map a range of an asset to a block.
pub mod RoundTrip
use hakutaku.Prelude.{
  ℕ, ◌+◌, ◌≤◌, ◌<◌, ◌≡◌, ◌≢◌, ◌&&◌, ◌||◌, ◌^◌, Bool, true, false, not, [], ◌∷◌, length, replicate,
  ◌==◌, leb, ltb, if◌then◌else◌, ◌⊎◌,
}
use hakutaku.Wire.{
  Bytes, Result, ok, err, invalid_format, limit_exceeded, ◌>>=◌, ◌>>◌, guard, checked_slice,
  require_zero, read_u16, read_u32, read_u64, read_array, byte_at, ◌▹◌, copy_at, put_u8, put_u16,
  put_u32, put_u64, append_record,
}
use hakutaku.Format.Constants.{block_ref_size, max_block_plain_len}
use hakutaku.Format.Enums.{Codec, codec_code, codec_parse}
use hakutaku.Format.Lengths.{validate_encoded_length, HasStoredLength}

pub record BlockRef : Type 0 where
  pub logical_offset : ℕ
  pub segment_ordinal : ℕ
  pub segment_block_ordinal : ℕ
  pub physical_offset : ℕ
  pub stored_len : ℕ
  pub plain_len : ℕ
  pub codec : Codec
  pub cipher_digest : Bytes

-- `parse` behind its `checked_slice`.
unfoldable pub parse_record : Bytes → Result BlockRef
parse_record record_bytes = do
  guard (byte_at record_bytes 31 == 0) (invalid_format "block reference reserved field")
  codec ← codec_parse (byte_at record_bytes 30)
  stored_len ← read_u32 record_bytes 22
  plain_len ← read_u32 record_bytes 26
  guard (not (plain_len == 0 || ltb max_block_plain_len plain_len))
      (limit_exceeded "block plaintext length")
  validate_encoded_length codec stored_len plain_len "block encoded length"
  logical_offset ← read_u64 record_bytes 0
  segment_ordinal ← read_u16 record_bytes 8
  segment_block_ordinal ← read_u32 record_bytes 10
  physical_offset ← read_u64 record_bytes 14
  cipher_digest ← read_array 16 record_bytes 32
  ok (record {
    logical_offset = logical_offset;
    segment_ordinal = segment_ordinal;
    segment_block_ordinal = segment_block_ordinal;
    physical_offset = physical_offset;
    stored_len = stored_len;
    plain_len = plain_len;
    codec = codec;
    cipher_digest = cipher_digest;
  })

unfoldable pub parse : Bytes → ℕ → Result BlockRef
parse bytes offset = do
  record_bytes ← checked_slice bytes offset block_ref_size
  parse_record record_bytes

unfoldable pub encode_into : BlockRef → Bytes → Bytes
encode_into r = append_record block_ref_size λ out.
    out
    ▹ put_u64 0 r.logical_offset
    ▹ put_u16 8 r.segment_ordinal
    ▹ put_u32 10 r.segment_block_ordinal
    ▹ put_u64 14 r.physical_offset
    ▹ put_u32 22 r.stored_len
    ▹ put_u32 26 r.plain_len
    ▹ put_u8 30 (codec_code r.codec)
    ▹ copy_at 32 r.cipher_digest

-- What the Rust types say of a reference, and the rules for its lengths.
pub record IsValid (r : BlockRef) : Type 0 where
  pub logical_offset_u64 : r.logical_offset < 2 ^ 64
  pub segment_ordinal_u16 : r.segment_ordinal < 2 ^ 16
  pub segment_block_ordinal_u32 : r.segment_block_ordinal < 2 ^ 32
  pub physical_offset_u64 : r.physical_offset < 2 ^ 64
  pub stored_len_u32 : r.stored_len < 2 ^ 32
  pub plain_len_u32 : r.plain_len < 2 ^ 32
  pub cipher_digest_len : length r.cipher_digest ≡ 16
  pub plain_min : 0 < r.plain_len
  pub plain_max : r.plain_len ≤ max_block_plain_len
  pub stored_length : HasStoredLength r.codec r.stored_len r.plain_len
