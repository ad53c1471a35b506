-- ===== src/Format/SnapshotHeader.antt =====
-- `SnapshotHeader` of crates/core/src/format.rs: the 256 signed bytes before a snapshot's catalog.
mod Parsed
pub mod RoundTrip
use hakutaku.Prelude.{
  ℕ, ◌+◌, ◌≤◌, ◌<◌, ◌≡◌, ◌&&◌, ◌^◌, Bool, true, false, not, ◌||◌, [], ◌∷◌, length, replicate, ◌==◌,
  leb, ltb, if◌then◌else◌,
}
use hakutaku.Wire.{
  Bytes, Result, ok, err, invalid_format, limit_exceeded, unsupported_version, ◌>>=◌, ◌>>◌, guard,
  ok_or, checked_add, u64_mod, require_len, require_magic, require_zero, read_u16, read_u32,
  read_u64, read_array, ◌▹◌, copy_at, put_u16, put_u32, put_u64,
}
use hakutaku.Format.Constants.{
  snapshot_header_size, snapshot_magic, format_major, format_minor, signature_offset, signature_len,
  max_catalog_stored_len, max_catalog_plain_len, max_pages,
}

pub record SnapshotHeader : Type 0 where
  pub project_id : Bytes
  pub release_sequence : ℕ
  pub catalog_stored_len : ℕ
  pub catalog_plain_len : ℕ
  pub page_region_offset : ℕ
  pub page_count : ℕ
  pub snapshot_salt : Bytes
  pub nonce_prefix : Bytes
  pub signing_key_id : Bytes
  pub source_fingerprint : Bytes
  pub signature : Bytes

unfoldable pub parse : Bytes → Result SnapshotHeader
parse bytes = do
  require_len bytes snapshot_header_size "snapshot header"
  require_magic bytes snapshot_magic "snapshot magic"
  major ← read_u16 bytes 8
  minor ← read_u16 bytes 10
  guard (major == format_major && minor == format_minor) (unsupported_version major minor)
  size ← read_u32 bytes 12
  guard (size == snapshot_header_size) (invalid_format "snapshot header size")
  catalog_offset ← read_u64 bytes 40
  guard (catalog_offset == snapshot_header_size) (invalid_format "catalog offset")
  catalog_stored_len ← read_u64 bytes 48
  catalog_plain_len ← read_u64 bytes 56
  guard (leb 16 catalog_stored_len && leb catalog_stored_len max_catalog_stored_len)
      (limit_exceeded "catalog stored length")
  guard (not (catalog_plain_len == 0 || ltb max_catalog_plain_len catalog_plain_len))
      (limit_exceeded "catalog plaintext length")
  expected_page_offset ←
      ok_or (checked_add u64_mod snapshot_header_size catalog_stored_len)
        (invalid_format "snapshot length overflow")
  page_region_offset ← read_u64 bytes 64
  guard (page_region_offset == expected_page_offset) (invalid_format "page region offset")
  page_count ← read_u32 bytes 72
  guard (not (ltb max_pages page_count)) (limit_exceeded "page count")
  require_zero bytes 76 80 "snapshot reserved fields"
  require_zero bytes (signature_offset + signature_len) snapshot_header_size
      "snapshot reserved tail"
  project_id ← read_array 16 bytes 16
  release_sequence ← read_u64 bytes 32
  snapshot_salt ← read_array 16 bytes 80
  nonce_prefix ← read_array 8 bytes 96
  signing_key_id ← read_array 16 bytes 104
  source_fingerprint ← read_array 32 bytes 120
  signature ← read_array 64 bytes signature_offset
  ok (record {
    project_id = project_id;
    release_sequence = release_sequence;
    catalog_stored_len = catalog_stored_len;
    catalog_plain_len = catalog_plain_len;
    page_region_offset = page_region_offset;
    page_count = page_count;
    snapshot_salt = snapshot_salt;
    nonce_prefix = nonce_prefix;
    signing_key_id = signing_key_id;
    source_fingerprint = source_fingerprint;
    signature = signature;
  })

unfoldable pub encode : SnapshotHeader → Bool → Bytes
encode h zero_signature =
    let out =
      replicate snapshot_header_size 0
      ▹ copy_at 0 snapshot_magic
      ▹ put_u16 8 format_major
      ▹ put_u16 10 format_minor
      ▹ put_u32 12 snapshot_header_size
      ▹ copy_at 16 h.project_id
      ▹ put_u64 32 h.release_sequence
      ▹ put_u64 40 snapshot_header_size
      ▹ put_u64 48 h.catalog_stored_len
      ▹ put_u64 56 h.catalog_plain_len
      ▹ put_u64 64 h.page_region_offset
      ▹ put_u32 72 h.page_count
      ▹ copy_at 80 h.snapshot_salt
      ▹ copy_at 96 h.nonce_prefix
      ▹ copy_at 104 h.signing_key_id
      ▹ copy_at 120 h.source_fingerprint in
    if zero_signature then out else (out ▹ copy_at signature_offset h.signature)

-- What the Rust types say of a header, and the limits and offsets that the format fixes.
pub record IsValid (h : SnapshotHeader) : Type 0 where
  pub project_id_len : length h.project_id ≡ 16
  pub release_sequence_u64 : h.release_sequence < 2 ^ 64
  pub catalog_stored_min : 16 ≤ h.catalog_stored_len
  pub catalog_stored_max : h.catalog_stored_len ≤ max_catalog_stored_len
  pub catalog_plain_min : 0 < h.catalog_plain_len
  pub catalog_plain_max : h.catalog_plain_len ≤ max_catalog_plain_len
  pub page_region_offset_sum : h.page_region_offset ≡ snapshot_header_size + h.catalog_stored_len
  pub page_count_max : h.page_count ≤ max_pages
  pub snapshot_salt_len : length h.snapshot_salt ≡ 16
  pub nonce_prefix_len : length h.nonce_prefix ≡ 8
  pub signing_key_id_len : length h.signing_key_id ≡ 16
  pub source_fingerprint_len : length h.source_fingerprint ≡ 32
  pub signature_len : length h.signature ≡ 64
