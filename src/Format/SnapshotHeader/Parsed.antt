-- ===== src/Format/SnapshotHeader/Parsed.antt =====
-- What it takes for a `SnapshotHeader` to parse: one lemma per read and per test of `parse`.
use hakutaku.Prelude.{◌+◌, ◌≤◌, ◌<◌, ◌≡◌, arith}
use hakutaku.Wire.{
  Bytes, ok, require_len, require_magic, read_u16, read_u32, read_u64, read_array, require_zero,
  checked_add,
}
use hakutaku.Format.Constants.{
  snapshot_magic, max_catalog_stored_len, max_catalog_plain_len, max_pages,
}
use hakutaku.Format.SnapshotHeader.{SnapshotHeader, parse}

-- What `parse` has read when it accepts.
pub record IsParsed (bytes : Bytes) (h : SnapshotHeader) : Type 0 where
  pub len : require_len bytes 256 "snapshot header" ≡ ok tt
  pub magic : require_magic bytes snapshot_magic "snapshot magic" ≡ ok tt
  pub major : read_u16 bytes 8 ≡ ok 2
  pub minor : read_u16 bytes 10 ≡ ok 0
  pub size : read_u32 bytes 12 ≡ ok 256
  pub project_id : read_array 16 bytes 16 ≡ ok h.project_id
  pub release_sequence : read_u64 bytes 32 ≡ ok h.release_sequence
  pub catalog_offset : read_u64 bytes 40 ≡ ok 256
  pub catalog_stored_len : read_u64 bytes 48 ≡ ok h.catalog_stored_len
  pub catalog_plain_len : read_u64 bytes 56 ≡ ok h.catalog_plain_len
  pub page_region_offset : read_u64 bytes 64 ≡ ok h.page_region_offset
  pub page_count : read_u32 bytes 72 ≡ ok h.page_count
  pub snapshot_salt : read_array 16 bytes 80 ≡ ok h.snapshot_salt
  pub nonce_prefix : read_array 8 bytes 96 ≡ ok h.nonce_prefix
  pub signing_key_id : read_array 16 bytes 104 ≡ ok h.signing_key_id
  pub source_fingerprint : read_array 32 bytes 120 ≡ ok h.source_fingerprint
  pub signature : read_array 64 bytes 152 ≡ ok h.signature
  pub reserved : require_zero bytes 76 80 "snapshot reserved fields" ≡ ok tt
  pub tail : require_zero bytes 216 256 "snapshot reserved tail" ≡ ok tt
  pub stored_min : 16 ≤ h.catalog_stored_len
  pub stored_max : h.catalog_stored_len ≤ max_catalog_stored_len
  pub plain_min : 0 < h.catalog_plain_len
  pub plain_max : h.catalog_plain_len ≤ max_catalog_plain_len
  pub sum : h.page_region_offset ≡ 256 + h.catalog_stored_len
  pub pages : h.page_count ≤ max_pages

module _ (bytes : Bytes) (h : SnapshotHeader) (e : parse bytes ≡ ok h) where
  parsed_len : require_len bytes 256 "snapshot header" ≡ ok tt
  unfolding parse checked_add
  parsed_len = ground arith

  parsed_magic : require_magic bytes snapshot_magic "snapshot magic" ≡ ok tt
  unfolding parse checked_add
  parsed_magic = ground arith

  parsed_major : read_u16 bytes 8 ≡ ok 2
  unfolding parse checked_add
  parsed_major = ground arith

  parsed_minor : read_u16 bytes 10 ≡ ok 0
  unfolding parse checked_add
  parsed_minor = ground arith

  parsed_size : read_u32 bytes 12 ≡ ok 256
  unfolding parse checked_add
  parsed_size = ground arith

  parsed_project_id : read_array 16 bytes 16 ≡ ok h.project_id
  unfolding parse checked_add
  parsed_project_id = ground arith

  parsed_release_sequence : read_u64 bytes 32 ≡ ok h.release_sequence
  unfolding parse checked_add
  parsed_release_sequence = ground arith

  parsed_catalog_offset : read_u64 bytes 40 ≡ ok 256
  unfolding parse checked_add
  parsed_catalog_offset = ground arith

  parsed_catalog_stored_len : read_u64 bytes 48 ≡ ok h.catalog_stored_len
  unfolding parse checked_add
  parsed_catalog_stored_len = ground arith

  parsed_catalog_plain_len : read_u64 bytes 56 ≡ ok h.catalog_plain_len
  unfolding parse checked_add
  parsed_catalog_plain_len = ground arith

  parsed_page_region_offset : read_u64 bytes 64 ≡ ok h.page_region_offset
  unfolding parse checked_add
  parsed_page_region_offset = ground arith

  parsed_page_count : read_u32 bytes 72 ≡ ok h.page_count
  unfolding parse checked_add
  parsed_page_count = ground arith

  parsed_snapshot_salt : read_array 16 bytes 80 ≡ ok h.snapshot_salt
  unfolding parse checked_add
  parsed_snapshot_salt = ground arith

  parsed_nonce_prefix : read_array 8 bytes 96 ≡ ok h.nonce_prefix
  unfolding parse checked_add
  parsed_nonce_prefix = ground arith

  parsed_signing_key_id : read_array 16 bytes 104 ≡ ok h.signing_key_id
  unfolding parse checked_add
  parsed_signing_key_id = ground arith

  parsed_source_fingerprint : read_array 32 bytes 120 ≡ ok h.source_fingerprint
  unfolding parse checked_add
  parsed_source_fingerprint = ground arith

  parsed_signature : read_array 64 bytes 152 ≡ ok h.signature
  unfolding parse checked_add
  parsed_signature = ground arith

  parsed_reserved : require_zero bytes 76 80 "snapshot reserved fields" ≡ ok tt
  unfolding parse checked_add
  parsed_reserved = ground arith

  parsed_tail : require_zero bytes 216 256 "snapshot reserved tail" ≡ ok tt
  unfolding parse checked_add
  parsed_tail = ground arith

  parsed_stored_min : 16 ≤ h.catalog_stored_len
  unfolding parse checked_add
  parsed_stored_min = ground arith

  parsed_stored_max : h.catalog_stored_len ≤ max_catalog_stored_len
  unfolding parse checked_add
  parsed_stored_max = ground arith

  parsed_plain_min : 0 < h.catalog_plain_len
  unfolding parse checked_add
  parsed_plain_min = ground arith

  parsed_plain_max : h.catalog_plain_len ≤ max_catalog_plain_len
  unfolding parse checked_add
  parsed_plain_max = ground arith

  parsed_sum : h.page_region_offset ≡ 256 + h.catalog_stored_len
  unfolding parse checked_add
  parsed_sum = ground arith

  parsed_pages : h.page_count ≤ max_pages
  unfolding parse checked_add
  parsed_pages = ground arith

pub parse-IsParsed : (bytes : Bytes) (h : SnapshotHeader) → parse bytes ≡ ok h → IsParsed bytes h
parse-IsParsed bytes h e = record {
  len = parsed_len bytes h e;
  magic = parsed_magic bytes h e;
  major = parsed_major bytes h e;
  minor = parsed_minor bytes h e;
  size = parsed_size bytes h e;
  project_id = parsed_project_id bytes h e;
  release_sequence = parsed_release_sequence bytes h e;
  catalog_offset = parsed_catalog_offset bytes h e;
  catalog_stored_len = parsed_catalog_stored_len bytes h e;
  catalog_plain_len = parsed_catalog_plain_len bytes h e;
  page_region_offset = parsed_page_region_offset bytes h e;
  page_count = parsed_page_count bytes h e;
  snapshot_salt = parsed_snapshot_salt bytes h e;
  nonce_prefix = parsed_nonce_prefix bytes h e;
  signing_key_id = parsed_signing_key_id bytes h e;
  source_fingerprint = parsed_source_fingerprint bytes h e;
  signature = parsed_signature bytes h e;
  reserved = parsed_reserved bytes h e;
  tail = parsed_tail bytes h e;
  stored_min = parsed_stored_min bytes h e;
  stored_max = parsed_stored_max bytes h e;
  plain_min = parsed_plain_min bytes h e;
  plain_max = parsed_plain_max bytes h e;
  sum = parsed_sum bytes h e;
  pages = parsed_pages bytes h e;
}
