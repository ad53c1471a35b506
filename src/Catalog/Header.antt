-- ===== src/Catalog/Header.antt =====
-- What the header of an accepted catalog says of the layout of its tables.
use hakutaku.Prelude.{◌+◌, ◌*◌, ◌≤◌, ◌<◌, ◌≡◌, true, length, arith}
use hakutaku.Wire.{
  Bytes, ok, checked_add, checked_mul, checked_table_end, validate_count, usize_mod,
}
use hakutaku.Format.Constants.{max_segments, max_files, max_blocks, max_pages, max_path_pool_len}
use hakutaku.Catalog.{Catalog, is_power_of_two, is_sum, parse_header}

-- The tables follow one another from byte 64 to the end, within the limits on their sizes.
pub record IsLaidOut (bytes : Bytes) (c : Catalog) : Type 0 where
  pub whole : c.bytes ≡ bytes
  pub segment_max : c.segment_count ≤ max_segments
  pub file_max : c.file_count ≤ max_files
  pub block_max : c.total_blocks ≤ max_blocks
  pub page_max : c.page_count ≤ max_pages
  pub pool_max : c.path_pool_len ≤ max_path_pool_len
  pub page_kinds : c.map_page_count + c.reuse_page_count ≡ c.page_count
  pub slots_power : is_power_of_two c.path_slot_count ≡ true
  pub segment_start : c.segment_offset ≡ 64
  pub file_start : c.file_offset ≡ c.segment_offset + c.segment_count * 96
  pub slot_start : c.path_slot_offset ≡ c.file_offset + c.file_count * 32
  pub pool_start : c.path_pool_offset ≡ c.path_slot_offset + c.path_slot_count * 8
  pub page_start : c.page_offset ≡ c.path_pool_offset + c.path_pool_len
  pub page_end : length bytes ≡ c.page_offset + c.page_count * 64
  pub fits : length bytes < usize_mod

module _ (bytes : Bytes) (c : Catalog) (e : parse_header bytes ≡ ok c) where
  header_whole : c.bytes ≡ bytes
  unfolding parse_header
  header_whole = ground arith

  header_segment_max : c.segment_count ≤ max_segments
  unfolding parse_header validate_count
  header_segment_max = ground arith

  header_file_max : c.file_count ≤ max_files
  unfolding parse_header validate_count
  header_file_max = ground arith

  header_block_max : c.total_blocks ≤ max_blocks
  unfolding parse_header validate_count
  header_block_max = ground arith

  header_page_max : c.page_count ≤ max_pages
  unfolding parse_header validate_count
  header_page_max = ground arith

  header_pool_max : c.path_pool_len ≤ max_path_pool_len
  unfolding parse_header validate_count
  header_pool_max = ground arith

  header_page_kinds : c.map_page_count + c.reuse_page_count ≡ c.page_count
  unfolding parse_header is_sum checked_add
  header_page_kinds = ground arith

  header_slots_power : is_power_of_two c.path_slot_count ≡ true
  unfolding parse_header
  header_slots_power = ground arith

  header_segment_start : c.segment_offset ≡ 64
  unfolding parse_header
  header_segment_start = ground arith

  header_file_start : c.file_offset ≡ c.segment_offset + c.segment_count * 96
  unfolding parse_header
  header_file_start = ground arith

  header_slot_start : c.path_slot_offset ≡ c.file_offset + c.file_count * 32
  unfolding parse_header checked_table_end checked_mul checked_add
  header_slot_start = ground arith

  header_pool_start : c.path_pool_offset ≡ c.path_slot_offset + c.path_slot_count * 8
  unfolding parse_header checked_table_end checked_mul checked_add
  header_pool_start = ground arith

  header_page_start : c.page_offset ≡ c.path_pool_offset + c.path_pool_len
  unfolding parse_header checked_table_end checked_mul checked_add
  header_page_start = ground arith

  header_page_end : length bytes ≡ c.page_offset + c.page_count * 64
  unfolding parse_header checked_table_end checked_mul checked_add
  header_page_end = ground arith

  header_fits : length bytes < usize_mod
  unfolding parse_header checked_table_end checked_mul checked_add
  header_fits = ground arith

pub parse_header-IsLaidOut :
    (bytes : Bytes) (c : Catalog) → parse_header bytes ≡ ok c → IsLaidOut bytes c
parse_header-IsLaidOut bytes c e = record {
  whole = header_whole bytes c e;
  segment_max = header_segment_max bytes c e;
  file_max = header_file_max bytes c e;
  block_max = header_block_max bytes c e;
  page_max = header_page_max bytes c e;
  pool_max = header_pool_max bytes c e;
  page_kinds = header_page_kinds bytes c e;
  slots_power = header_slots_power bytes c e;
  segment_start = header_segment_start bytes c e;
  file_start = header_file_start bytes c e;
  slot_start = header_slot_start bytes c e;
  pool_start = header_pool_start bytes c e;
  page_start = header_page_start bytes c e;
  page_end = header_page_end bytes c e;
  fits = header_fits bytes c e;
}
