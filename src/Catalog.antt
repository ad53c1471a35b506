-- ===== src/Catalog.antt =====
-- `Catalog` of crates/core/src/format.rs: the view of an encoded catalog, with the checks that
-- `Catalog::parse` makes.
mod View
pub mod Header
pub mod Records
pub mod Checked
pub mod Lookup
unfoldable pub use View.*
use hakutaku.Prelude.{
  ℕ, zero, suc, ◌+◌, ◌-◌, ◌*◌, ◌/◌, ◌<◌, ◌≡◌, ◌&&◌, ◌||◌, Bool, true, false, not, Option, none,
  some, min, length, ◌==◌, ltb, leb, if◌then◌else◌, String,
}
use hakutaku.Utf8.{is_utf8}
use hakutaku.Wire.{
  Bytes, Result, ok, err, invalid_format, ◌>>=◌, ◌>>◌, guard, ok_or, checked_add, checked_mul,
  u32_mod, u64_mod, usize_mod, require_len, require_magic, read_u16, read_u32, validate_count,
  checked_slice, checked_table_end, table_offset,
}
use hakutaku.Format.Constants.{
  catalog_header_size, segment_record_size, file_record_size, path_slot_size, page_record_size,
  segment_header_size, page_header_size, block_ref_size, reuse_record_size, blocks_per_map_page,
  reuse_per_page, catalog_magic, format_major, max_segments, max_files, max_blocks, max_pages,
  max_path_pool_len, empty_path_slot,
}
use hakutaku.Format.Enums.{PageKind, block_map, reuse}
use hakutaku.Format.SegmentRecord
use hakutaku.Format.SegmentRecord.{SegmentRecord}
use hakutaku.Format.FileRecord
use hakutaku.Format.FileRecord.{FileRecord}
use hakutaku.Format.PathSlot
use hakutaku.Format.PathSlot.{PathSlot}
use hakutaku.Format.PageRecord
use hakutaku.Format.PageRecord.{PageRecord}
use hakutaku.Paths.{validate_canonical_path}

-- A loop `for index in 0..count` of checks, from `index` with `rounds` left.
unfoldable pub for_each : (ℕ → Result (Unit {0})) → ℕ → ℕ → Result (Unit {0})
for_each body zero index = ok tt
for_each body (suc rounds) index = do body index; for_each body rounds (index + 1)

unfoldable pub check_segment : Catalog → ℕ → Result (Unit {0})
check_segment c index = do
  s ← segment c index
  expected_file_len ←
      ok_or (checked_add u64_mod segment_header_size s.payload_len)
        (invalid_format "segment record length overflow")
  guard (s.file_len == expected_file_len) (invalid_format "segment record length")

unfoldable pub check_file : Catalog → ℕ → Result (Unit {0})
check_file c index = do
  f ← file c index
  path_end ←
      ok_or (checked_add usize_mod f.path_offset f.path_len) (invalid_format "path range overflow")
  guard (not (f.path_len == 0 || ltb c.path_pool_len path_end)) (invalid_format "file path range")
  block_end ←
      ok_or (checked_add u32_mod f.first_block f.block_count)
        (invalid_format "file block range overflow")
  guard (not (ltb c.total_blocks block_end)) (invalid_format "file block range")
  name ← path c index
  validate_canonical_path name

unfoldable pub check_path_slot : Catalog → ℕ → Result (Unit {0})
check_path_slot c index = do
  slot ← path_slot c index
  guard (slot.file_index == empty_path_slot || ltb slot.file_index c.file_count)
      (invalid_format "path slot file index")

unfoldable pub same_kind : PageKind → PageKind → Bool
same_kind block_map block_map = true
same_kind block_map reuse = false
same_kind reuse block_map = false
same_kind reuse reuse = true

unfoldable pub expected_kind : Catalog → ℕ → PageKind
expected_kind c index = if ltb index c.map_page_count then block_map else reuse

-- What a page of this kind has: records at most, bytes to a record, and its place among its kind.
unfoldable pub page_capacity : PageKind → ℕ
page_capacity block_map = blocks_per_map_page
page_capacity reuse = reuse_per_page

unfoldable pub page_entry_size : PageKind → ℕ
page_entry_size block_map = block_ref_size
page_entry_size reuse = reuse_record_size

unfoldable pub local_page : Catalog → PageKind → ℕ → ℕ
local_page c block_map index = index
local_page c reuse index = index - c.map_page_count

-- One page of the loop; the result is the next value of `expected_page_offset`.
unfoldable pub check_page : Catalog → ℕ → ℕ → Result ℕ
unfolding same_kind expected_kind page_capacity page_entry_size local_page
check_page c index expected_page_offset = do
  p ← page c index
  guard (same_kind p.kind (expected_kind c index) && p.nonce_ordinal == index + 1)
      (invalid_format "non-canonical page ordering")
  first ←
      ok_or (checked_mul u32_mod (local_page c p.kind index) (page_capacity p.kind))
        (invalid_format "page record range overflow")
  let record_count = min (c.total_blocks - first) (page_capacity p.kind)
  size ←
      ok_or (checked_mul usize_mod record_count (page_entry_size p.kind))
        (invalid_format "page plaintext length overflow")
  expected_plain_len ←
      ok_or (checked_add usize_mod page_header_size size)
        (invalid_format "page plaintext length overflow")
  guard (p.plain_len == expected_plain_len)
      (invalid_format "page plaintext length is non-canonical")
  guard (p.relative_offset == expected_page_offset) (invalid_format "non-contiguous page region")
  ok_or (checked_add u64_mod expected_page_offset p.stored_len)
      (invalid_format "page region overflow")

unfoldable pub check_pages : Catalog → ℕ → ℕ → ℕ → Result ℕ
check_pages c zero index expected_page_offset = ok expected_page_offset
check_pages c (suc rounds) index expected_page_offset = do
  next ← check_page c index expected_page_offset
  check_pages c rounds (index + 1) next

-- `u32::div_ceil`
unfoldable pub div_ceil : ℕ → ℕ → ℕ
div_ceil n d = (n + (d - 1)) / d

unfoldable pub validate_records : Catalog → Result (Unit {0})
unfolding div_ceil
validate_records c = do
  guard
      (c.map_page_count == div_ceil c.total_blocks blocks_per_map_page
        && c.reuse_page_count == div_ceil c.total_blocks reuse_per_page)
      (invalid_format "page count does not cover block records")
  for_each (check_segment c) c.segment_count 0
  for_each (check_file c) c.file_count 0
  for_each (check_path_slot c) c.path_slot_count 0
  end ← check_pages c c.page_count 0 0
  ok tt

-- `Catalog::parse` up to its call of `validate_records`.
unfoldable pub parse_header : Bytes → Result Catalog
parse_header bytes = do
  require_len bytes catalog_header_size "catalog header"
  require_magic bytes catalog_magic "catalog magic"
  major ← read_u16 bytes 8
  header_size ← read_u16 bytes 10
  guard (major == format_major && header_size == catalog_header_size)
      (invalid_format "catalog version or header size")
  segment_count ← read_u32 bytes 12
  file_count ← read_u32 bytes 16
  total_blocks ← read_u32 bytes 20
  path_pool_len ← read_u32 bytes 24
  path_slot_count ← read_u32 bytes 28
  page_count ← read_u32 bytes 32
  map_page_count ← read_u32 bytes 36
  reuse_page_count ← read_u32 bytes 40
  validate_count segment_count max_segments "segment count"
  validate_count file_count max_files "file count"
  validate_count total_blocks max_blocks "block count"
  validate_count page_count max_pages "page count"
  validate_count path_pool_len max_path_pool_len "path pool"
  guard (not (path_slot_count == 0 || not (is_power_of_two path_slot_count)))
      (invalid_format "path slot count is not a power of two")
  guard (is_sum (checked_add u32_mod map_page_count reuse_page_count) page_count)
      (invalid_format "page kind counts")
  segment_offset ← read_u32 bytes 44
  file_offset ← read_u32 bytes 48
  path_slot_offset ← read_u32 bytes 52
  path_pool_offset ← read_u32 bytes 56
  page_offset ← read_u32 bytes 60
  let expected_file = catalog_header_size + segment_count * segment_record_size
  let expected_slots = expected_file + file_count * file_record_size
  expected_pool ← checked_table_end expected_slots path_slot_count path_slot_size
  expected_pages ←
      ok_or (checked_add usize_mod expected_pool path_pool_len)
        (invalid_format "catalog size overflow")
  expected_len ← checked_table_end expected_pages page_count page_record_size
  guard
      (segment_offset == catalog_header_size
        && file_offset == expected_file
        && path_slot_offset == expected_slots
        && path_pool_offset == expected_pool
        && page_offset == expected_pages
        && expected_len == length bytes)
      (invalid_format "non-canonical catalog layout")
  ok (record {
    bytes = bytes;
    segment_count = segment_count;
    file_count = file_count;
    total_blocks = total_blocks;
    path_pool_len = path_pool_len;
    path_slot_count = path_slot_count;
    page_count = page_count;
    map_page_count = map_page_count;
    reuse_page_count = reuse_page_count;
    segment_offset = segment_offset;
    file_offset = file_offset;
    path_slot_offset = path_slot_offset;
    path_pool_offset = path_pool_offset;
    page_offset = page_offset;
  })

unfoldable pub parse : Bytes → Result Catalog
parse bytes = do c ← parse_header bytes; validate_records c; ok c
