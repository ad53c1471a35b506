-- ===== src/Format/PageRecord.antt =====
-- `PageRecord` of crates/core/src/format.rs: the 64 bytes of a metadata page in the catalog.
pub mod RoundTrip
use hakutaku.Prelude.{
  ℕ, ◌+◌, ◌≤◌, ◌<◌, ◌≡◌, ◌≢◌, ◌&&◌, ◌||◌, ◌^◌, Bool, true, false, not, [], ◌∷◌, length, replicate,
  ◌==◌, leb, ltb, if◌then◌else◌, ◌⊎◌,
}
use hakutaku.Wire.{
  Bytes, Result, ok, err, invalid_format, limit_exceeded, ◌>>=◌, ◌>>◌, guard, checked_slice,
  require_zero, read_u16, read_u32, read_u64, read_array, byte_at, ◌▹◌, copy_at, put_u8, put_u16,
  put_u32, put_u64, append_record,
}
use hakutaku.Format.Constants.{page_record_size, max_page_plain_len}
use hakutaku.Format.Enums.{
  Codec, codec_code, codec_parse, PageKind, page_kind_code, page_kind_parse,
}
use hakutaku.Format.Lengths.{validate_encoded_length, HasStoredLength}

pub record PageRecord : Type 0 where
  pub kind : PageKind
  pub codec : Codec
  pub nonce_ordinal : ℕ
  pub relative_offset : ℕ
  pub stored_len : ℕ
  pub plain_len : ℕ
  pub digest : Bytes

-- `parse` behind its `checked_slice`.
unfoldable pub parse_record : Bytes → Result PageRecord
parse_record record_bytes = do
  require_zero record_bytes 2 4 "page record reserved fields"
  require_zero record_bytes 56 64 "page record reserved tail"
  codec ← codec_parse (byte_at record_bytes 1)
  stored_len ← read_u32 record_bytes 16
  plain_len ← read_u32 record_bytes 20
  guard (not (ltb stored_len 16)) (invalid_format "page is shorter than its tag")
  guard (not (plain_len == 0 || ltb max_page_plain_len plain_len))
      (limit_exceeded "page plaintext length")
  validate_encoded_length codec stored_len plain_len "page encoded length"
  kind ← page_kind_parse (byte_at record_bytes 0)
  nonce_ordinal ← read_u32 record_bytes 4
  relative_offset ← read_u64 record_bytes 8
  digest ← read_array 32 record_bytes 24
  ok (record {
    kind = kind;
    codec = codec;
    nonce_ordinal = nonce_ordinal;
    relative_offset = relative_offset;
    stored_len = stored_len;
    plain_len = plain_len;
    digest = digest;
  })

unfoldable pub parse : Bytes → ℕ → Result PageRecord
parse bytes offset = do
  record_bytes ← checked_slice bytes offset page_record_size
  parse_record record_bytes

unfoldable pub encode_into : PageRecord → Bytes → Bytes
encode_into r = append_record page_record_size λ out.
    out
    ▹ put_u8 0 (page_kind_code r.kind)
    ▹ put_u8 1 (codec_code r.codec)
    ▹ put_u32 4 r.nonce_ordinal
    ▹ put_u64 8 r.relative_offset
    ▹ put_u32 16 r.stored_len
    ▹ put_u32 20 r.plain_len
    ▹ copy_at 24 r.digest

-- What the Rust types say of a record, and the rules for its lengths.
pub record IsValid (r : PageRecord) : Type 0 where
  pub nonce_ordinal_u32 : r.nonce_ordinal < 2 ^ 32
  pub relative_offset_u64 : r.relative_offset < 2 ^ 64
  pub stored_len_u32 : r.stored_len < 2 ^ 32
  pub plain_len_u32 : r.plain_len < 2 ^ 32
  pub digest_len : length r.digest ≡ 32
  pub plain_min : 0 < r.plain_len
  pub plain_max : r.plain_len ≤ max_page_plain_len
  pub stored_min : 16 ≤ r.stored_len
  pub stored_length : HasStoredLength r.codec r.stored_len r.plain_len
