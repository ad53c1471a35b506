-- ===== src/Format/SegmentHeader.antt =====
-- `SegmentHeader` of crates/core/src/format.rs: the 128 bytes before the blocks of a segment.
pub mod RoundTrip
use hakutaku.Prelude.{ℕ, ◌+◌, ◌<◌, ◌≡◌, ◌&&◌, ◌^◌, [], ◌∷◌, length, replicate, ◌==◌, if◌then◌else◌}
use hakutaku.Wire.{
  Bytes, Result, ok, err, invalid_format, unsupported_version, ◌>>=◌, ◌>>◌, guard, ok_or,
  checked_add, u64_mod, require_len, require_magic, require_zero, read_u16, read_u32, read_u64,
  read_array, ◌▹◌, copy_at, put_u16, put_u32, put_u64, to_le_bytes,
}
use hakutaku.Format.Constants.{segment_header_size, segment_magic, format_major, format_minor}

pub record SegmentHeader : Type 0 where
  pub project_id : Bytes
  pub segment_uid : Bytes
  pub salt : Bytes
  pub nonce_prefix : Bytes
  pub block_count : ℕ
  pub payload_len : ℕ
  pub file_len : ℕ

unfoldable pub parse : Bytes → Result SegmentHeader
parse bytes = do
  require_len bytes segment_header_size "segment header"
  require_magic bytes segment_magic "segment magic"
  major ← read_u16 bytes 8
  minor ← read_u16 bytes 10
  guard (major == format_major && minor == format_minor) (unsupported_version major minor)
  size ← read_u32 bytes 12
  guard (size == segment_header_size) (invalid_format "segment header size")
  require_zero bytes 76 80 "segment reserved fields"
  require_zero bytes 96 segment_header_size "segment reserved tail"
  payload_len ← read_u64 bytes 80
  file_len ← read_u64 bytes 88
  expected_file_len ←
      ok_or (checked_add u64_mod segment_header_size payload_len)
        (invalid_format "segment file length overflow")
  guard (file_len == expected_file_len) (invalid_format "segment file length")
  project_id ← read_array 16 bytes 16
  segment_uid ← read_array 16 bytes 32
  salt ← read_array 16 bytes 48
  nonce_prefix ← read_array 8 bytes 64
  block_count ← read_u32 bytes 72
  ok (record {
    project_id = project_id;
    segment_uid = segment_uid;
    salt = salt;
    nonce_prefix = nonce_prefix;
    block_count = block_count;
    payload_len = payload_len;
    file_len = file_len;
  })

unfoldable pub encode : SegmentHeader → Bytes
encode h =
    replicate segment_header_size 0
    ▹ copy_at 0 segment_magic
    ▹ put_u16 8 format_major
    ▹ put_u16 10 format_minor
    ▹ put_u32 12 segment_header_size
    ▹ copy_at 16 h.project_id
    ▹ copy_at 32 h.segment_uid
    ▹ copy_at 48 h.salt
    ▹ copy_at 64 h.nonce_prefix
    ▹ put_u32 72 h.block_count
    ▹ put_u64 80 h.payload_len
    ▹ put_u64 88 h.file_len

-- What the Rust types say of a header (array lengths, word ranges), and its one invariant.
pub record IsValid (h : SegmentHeader) : Type 0 where
  pub project_id_len : length h.project_id ≡ 16
  pub segment_uid_len : length h.segment_uid ≡ 16
  pub salt_len : length h.salt ≡ 16
  pub nonce_prefix_len : length h.nonce_prefix ≡ 8
  pub block_count_u32 : h.block_count < 2 ^ 32
  pub payload_len_u64 : h.payload_len < 2 ^ 64
  pub file_len_u64 : h.file_len < 2 ^ 64
  pub file_len_sum : h.file_len ≡ segment_header_size + h.payload_len
