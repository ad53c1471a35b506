-- ===== src/CatalogData.antt =====
-- `CatalogData::encode` of crates/core/src/format.rs: a header of 64 bytes, the four tables of
-- records, and the pool of path names before the last of them.
pub mod Tables
pub mod Header
pub mod RoundTrip
pub mod Lookup
mod Tests
use hakutaku.Prelude.{
  ℕ, ◌+◌, ◌*◌, ◌%◌, ◌<◌, ◌≡◌, ◌||◌, ◌&&◌, Bool, true, false, not, List, [], ◌∷◌, ◌++◌, length,
  replicate, ◌==◌, ltb, if◌then◌else◌,
}
use hakutaku.Wire.{
  Bytes, Result, ok, err, invalid_format, limit_exceeded, ◌>>=◌, ◌>>◌, guard, ok_or, checked_add,
  checked_table_end, u32_mod, usize_mod, validate_count, usize_to_u32, ◌▹◌, copy_at, put_u16,
  put_u32,
}
use hakutaku.Format.Constants.{
  catalog_header_size, segment_record_size, file_record_size, path_slot_size, page_record_size,
  catalog_magic, format_major, max_segments, max_files, max_blocks, max_pages, max_path_pool_len,
  max_catalog_plain_len,
}
use hakutaku.Format.SegmentRecord
use hakutaku.Format.SegmentRecord.{SegmentRecord}
use hakutaku.Format.FileRecord
use hakutaku.Format.FileRecord.{FileRecord}
use hakutaku.Format.PathSlot
use hakutaku.Format.PathSlot.{PathSlot}
use hakutaku.Format.PageRecord
use hakutaku.Format.PageRecord.{PageRecord}
use hakutaku.Catalog.{is_power_of_two, is_sum}

pub record CatalogData : Type 0 where
  pub segments : List SegmentRecord
  pub files : List FileRecord
  pub path_slots : List PathSlot
  pub path_pool : Bytes
  pub pages : List PageRecord
  pub total_blocks : ℕ
  pub map_page_count : ℕ
  pub reuse_page_count : ℕ

unfoldable pub validate_catalog_len : ℕ → Result (Unit {0})
validate_catalog_len len = validate_count len max_catalog_plain_len "catalog plaintext length"

-- `for record in records { record.encode_into(&mut out); }`
unfoldable pub append_all : {A : Type 0} → (A → Bytes → Bytes) → List A → Bytes → Bytes
append_all encode_into [] out = out
append_all encode_into (r ∷ records) out = append_all encode_into records (encode_into r out)

-- The writes to the header, with the offsets of the tables.
unfoldable pub header : CatalogData → ℕ → ℕ → ℕ → ℕ → Bytes
header d file_offset path_slot_offset path_pool_offset page_offset =
    replicate catalog_header_size 0
    ▹ copy_at 0 catalog_magic
    ▹ put_u16 8 format_major
    ▹ put_u16 10 catalog_header_size
    ▹ put_u32 12 (length d.segments)
    ▹ put_u32 16 (length d.files)
    ▹ put_u32 20 d.total_blocks
    ▹ put_u32 24 (length d.path_pool)
    ▹ put_u32 28 (length d.path_slots)
    ▹ put_u32 32 (length d.pages)
    ▹ put_u32 36 d.map_page_count
    ▹ put_u32 40 d.reuse_page_count
    ▹ put_u32 44 catalog_header_size
    ▹ put_u32 48 file_offset
    ▹ put_u32 52 path_slot_offset
    ▹ put_u32 56 path_pool_offset
    ▹ put_u32 60 page_offset

-- The loops that append the records, and the path pool.
unfoldable pub append_tables : CatalogData → Bytes → Bytes
unfolding append_all
append_tables d out =
    out
    ▹ append_all SegmentRecord.encode_into d.segments
    ▹ append_all FileRecord.encode_into d.files
    ▹ append_all PathSlot.encode_into d.path_slots
    ▹ (λ out. out ++ d.path_pool)
    ▹ append_all PageRecord.encode_into d.pages

-- The limits on the counts, at the start of `encode`.
unfoldable pub check_counts : CatalogData → Result (Unit {0})
check_counts d = do
  validate_count (length d.segments) max_segments "segment count"
  validate_count (length d.files) max_files "file count"
  validate_count d.total_blocks max_blocks "block count"
  validate_count (length d.pages) max_pages "page count"
  validate_count (length d.path_pool) max_path_pool_len "path pool"
  guard (not (length d.path_slots == 0 || not (is_power_of_two (length d.path_slots))))
      (invalid_format "path slot count is not a power of two")
  guard
      (is_sum (checked_add u32_mod d.map_page_count d.reuse_page_count) (length d.pages % u32_mod))
      (invalid_format "page kind counts")

pub record Offsets : Type 0 where
  pub file_offset : ℕ
  pub path_slot_offset : ℕ
  pub path_pool_offset : ℕ
  pub page_offset : ℕ

-- The places of the tables.
unfoldable pub table_offsets : CatalogData → Result Offsets
unfolding validate_catalog_len
table_offsets d = do
  file_offset ← checked_table_end catalog_header_size (length d.segments) segment_record_size
  path_slot_offset ← checked_table_end file_offset (length d.files) file_record_size
  path_pool_offset ← checked_table_end path_slot_offset (length d.path_slots) path_slot_size
  page_offset ←
      ok_or (checked_add usize_mod path_pool_offset (length d.path_pool))
        (invalid_format "catalog size overflow")
  total_len ← checked_table_end page_offset (length d.pages) page_record_size
  validate_catalog_len total_len
  ok (record {
    file_offset = file_offset;
    path_slot_offset = path_slot_offset;
    path_pool_offset = path_pool_offset;
    page_offset = page_offset;
  })

-- The conversions in the arguments of `put_u32`.
unfoldable pub narrow : CatalogData → Offsets → Result (Unit {0})
narrow d o = do
  segment_len ← usize_to_u32 (length d.segments)
  file_len ← usize_to_u32 (length d.files)
  pool_len ← usize_to_u32 (length d.path_pool)
  slot_len ← usize_to_u32 (length d.path_slots)
  page_len ← usize_to_u32 (length d.pages)
  segment_start ← usize_to_u32 catalog_header_size
  file_start ← usize_to_u32 o.file_offset
  slot_start ← usize_to_u32 o.path_slot_offset
  pool_start ← usize_to_u32 o.path_pool_offset
  page_start ← usize_to_u32 o.page_offset
  ok tt

unfoldable pub encode : CatalogData → Result Bytes
unfolding header append_tables
encode d = do
  check_counts d
  o ← table_offsets d
  narrow d o
  ok (append_tables d (header d o.file_offset o.path_slot_offset o.path_pool_offset o.page_offset))
