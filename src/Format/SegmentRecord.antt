-- ===== src/Format/SegmentRecord.antt =====
-- `SegmentRecord` of crates/core/src/format.rs: the 96 bytes of a segment in the catalog.
pub mod RoundTrip
use hakutaku.Prelude.{
  ℕ, ◌+◌, ◌≤◌, ◌<◌, ◌≡◌, ◌≢◌, ◌&&◌, ◌||◌, ◌^◌, Bool, true, false, not, [], ◌∷◌, length, replicate,
  ◌==◌, leb, ltb, if◌then◌else◌, ◌⊎◌,
}
use hakutaku.Wire.{
  Bytes, Result, ok, err, invalid_format, limit_exceeded, ◌>>=◌, ◌>>◌, guard, checked_slice,
  require_zero, read_u16, read_u32, read_u64, read_array, byte_at, ◌▹◌, copy_at, put_u8, put_u16,
  put_u32, put_u64, append_record,
}
use hakutaku.Format.Constants.{segment_record_size}
use hakutaku.Format.Enums.{Availability, availability_code, availability_parse}

pub record SegmentRecord : Type 0 where
  pub id : Bytes
  pub uid : Bytes
  pub salt : Bytes
  pub nonce_prefix : Bytes
  pub file_len : ℕ
  pub payload_len : ℕ
  pub block_count : ℕ
  pub availability : Availability

-- `parse` behind its `checked_slice`.
unfoldable pub parse_record : Bytes → Result SegmentRecord
parse_record record_bytes = do
  require_zero record_bytes 93 96 "segment record reserved fields"
  id ← read_array 32 record_bytes 0
  uid ← read_array 16 record_bytes 32
  salt ← read_array 16 record_bytes 48
  nonce_prefix ← read_array 8 record_bytes 64
  file_len ← read_u64 record_bytes 72
  payload_len ← read_u64 record_bytes 80
  block_count ← read_u32 record_bytes 88
  availability ← availability_parse (byte_at record_bytes 92)
  ok (record {
    id = id;
    uid = uid;
    salt = salt;
    nonce_prefix = nonce_prefix;
    file_len = file_len;
    payload_len = payload_len;
    block_count = block_count;
    availability = availability;
  })

unfoldable pub parse : Bytes → ℕ → Result SegmentRecord
parse bytes offset = do
  record_bytes ← checked_slice bytes offset segment_record_size
  parse_record record_bytes

unfoldable pub encode_into : SegmentRecord → Bytes → Bytes
encode_into r = append_record segment_record_size λ out.
    out
    ▹ copy_at 0 r.id
    ▹ copy_at 32 r.uid
    ▹ copy_at 48 r.salt
    ▹ copy_at 64 r.nonce_prefix
    ▹ put_u64 72 r.file_len
    ▹ put_u64 80 r.payload_len
    ▹ put_u32 88 r.block_count
    ▹ put_u8 92 (availability_code r.availability)

-- What the Rust types say of a record.
pub record IsValid (r : SegmentRecord) : Type 0 where
  pub id_len : length r.id ≡ 32
  pub uid_len : length r.uid ≡ 16
  pub salt_len : length r.salt ≡ 16
  pub nonce_prefix_len : length r.nonce_prefix ≡ 8
  pub file_len_u64 : r.file_len < 2 ^ 64
  pub payload_len_u64 : r.payload_len < 2 ^ 64
  pub block_count_u32 : r.block_count < 2 ^ 32
