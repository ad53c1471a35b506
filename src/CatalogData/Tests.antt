-- ===== src/CatalogData/Tests.antt =====
-- A catalog of one asset, `a`, with its encoding: the theorems of `Catalog` and `CatalogData` there.
use hakutaku.Prelude.{
  inr, ℕ, ◌+◌, ◌≡◌, refl, List, [], ◌∷◌, replicate, arith, some, zero, suc, get_elem?,
}
use hakutaku.Utf8.{is_utf8}
use hakutaku.Wire.{
  Bytes, ok, get_range, checked_add, checked_mul, bytes_eq, from_le_bytes, to_le_bytes, all_zero,
  require_len, matches_magic, require_magic, require_zero, checked_slice, read_array, read_u16,
  read_u32, read_u64, byte_at, copy_at, put_u8, put_u16, put_u32, put_u64, append_record,
  validate_count, checked_table_end, table_offset, usize_to_u32,
}
use hakutaku.Format.Enums.{
  raw, required, fixed, hot, PageKind, block_map, reuse, codec_code, codec_parse, availability_code,
  availability_parse, layout_code, layout_parse, access_code, access_parse, page_kind_code,
  page_kind_parse,
}
use hakutaku.Format.Lengths.{is_canonical_length, validate_encoded_length}
use hakutaku.Format.SegmentRecord
use hakutaku.Format.SegmentRecord.{SegmentRecord}
use hakutaku.Format.FileRecord
use hakutaku.Format.FileRecord.{FileRecord, is_fixed}
use hakutaku.Format.PathSlot
use hakutaku.Format.PathSlot.{PathSlot}
use hakutaku.Format.PageRecord
use hakutaku.Format.PageRecord.{PageRecord}
use hakutaku.Paths.{validate_canonical_path}
use hakutaku.CatalogData.Lookup.{Names, find_file-encode}
use hakutaku.PathIndex.{
  build_path_slots, place_all, place, desired_slots, next_power, probe_at, find_file, empty_slot,
}
use hakutaku.Catalog.{
  Catalog, power_from, is_power_of_two, is_sum, segment, file, path_slot, page, path, for_each,
  check_segment, check_file, check_path_slot, check_page, check_pages, div_ceil, validate_records,
  parse_header, parse,
}
use hakutaku.Catalog.Header.{IsLaidOut}
use hakutaku.Catalog.Checked.{AreChecked, parse-IsLaidOut, parse-AreChecked}
use hakutaku.Catalog.Lookup.{Outcome, find_file-Outcome}
use hakutaku.CatalogData.{
  CatalogData, append_all, header, append_tables, check_counts, validate_catalog_len, table_offsets,
  narrow, encode,
}
use hakutaku.CatalogData.Header.{view}
use hakutaku.CatalogData.RoundTrip.{IsValid, ReadsBack, parse_header-encode}

abbrev a_segment : SegmentRecord
a_segment = record {
  id = replicate 32 7;
  uid = replicate 16 2;
  salt = replicate 16 3;
  nonce_prefix = replicate 8 4;
  file_len = 160;
  payload_len = 32;
  block_count = 1;
  availability = required;
}

abbrev a_file : FileRecord
a_file = record {
  path_offset = 0;
  path_len = 1;
  layout = fixed;
  access = hot;
  logical_len = 5;
  first_block = 0;
  block_count = 1;
  fixed_block_len = 5;
}

abbrev a_page : PageKind → ℕ → ℕ → ℕ → PageRecord
a_page kind ordinal offset len = record {
  kind = kind;
  codec = raw;
  nonce_ordinal = ordinal;
  relative_offset = offset;
  stored_len = len + 16;
  plain_len = len;
  digest = replicate 32 5;
}

abbrev a_catalog : CatalogData
a_catalog = record {
  segments = a_segment ∷ [];
  files = a_file ∷ [];
  path_slots = empty_slot ∷ record { hash = 11; file_index = 0 } ∷ [];
  path_pool = 97 ∷ [];
  pages = a_page block_map 1 0 64 ∷ a_page reuse 2 80 48 ∷ [];
  total_blocks = 1;
  map_page_count = 1;
  reuse_page_count = 1;
}

abbrev a_catalog_bytes : Bytes
a_catalog_bytes = append_tables a_catalog (header a_catalog 160 192 208 209)

a_catalog-IsValid : IsValid a_catalog
a_catalog-IsValid = omega arith

a_catalog_encodes : encode a_catalog ≡ ok a_catalog_bytes
unfolding encode check_counts table_offsets narrow validate_catalog_len validate_count
    checked_table_end checked_mul checked_add usize_to_u32 is_power_of_two power_from is_sum
a_catalog_encodes = refl

parse_header-encode_example :
    (parse_header a_catalog_bytes ≡ ok (view a_catalog a_catalog_bytes))
    × ReadsBack a_catalog (view a_catalog a_catalog_bytes)
parse_header-encode_example =
    parse_header-encode a_catalog a_catalog_bytes a_catalog-IsValid a_catalog_encodes

a_catalog_parses : parse a_catalog_bytes ≡ ok (view a_catalog a_catalog_bytes)
unfolding append_tables append_all header SegmentRecord.encode_into FileRecord.encode_into
    PathSlot.encode_into PageRecord.encode_into append_record copy_at put_u8 put_u16 put_u32 put_u64
    to_le_bytes availability_code layout_code access_code page_kind_code codec_code parse
    parse_header validate_records for_each check_segment check_file check_path_slot check_pages
    check_page segment file path_slot page path div_ceil require_len require_magic matches_magic
    get_range bytes_eq read_u16 read_u32 read_u64 read_array checked_slice checked_add checked_mul
    checked_table_end table_offset from_le_bytes validate_count is_power_of_two is_sum
    SegmentRecord.parse SegmentRecord.parse_record FileRecord.parse FileRecord.parse_record
    PathSlot.parse PathSlot.parse_record PageRecord.parse PageRecord.parse_record require_zero
    all_zero byte_at availability_parse layout_parse access_parse page_kind_parse codec_parse
    validate_encoded_length is_canonical_length is_utf8 validate_canonical_path
a_catalog_parses = refl

parse-IsLaidOut_example : IsLaidOut a_catalog_bytes (view a_catalog a_catalog_bytes)
parse-IsLaidOut_example =
    parse-IsLaidOut a_catalog_bytes (view a_catalog a_catalog_bytes) a_catalog_parses

parse-AreChecked_example : AreChecked (view a_catalog a_catalog_bytes)
parse-AreChecked_example =
    parse-AreChecked a_catalog_bytes (view a_catalog a_catalog_bytes) a_catalog_parses

find_file-Outcome_example : Outcome (view a_catalog a_catalog_bytes) 11 (97 ∷ []) (
    find_file
      (path_slot (view a_catalog a_catalog_bytes))
      (path (view a_catalog a_catalog_bytes))
      (λ name. 11)
      2
      (97 ∷ []))
find_file-Outcome_example =
    find_file-Outcome a_catalog_bytes (view a_catalog a_catalog_bytes) (λ name. 11) (97 ∷ [])
      a_catalog_parses

a_path_built : build_path_slots (λ name. 11) ((97 ∷ []) ∷ []) 1 ≡ inr a_catalog.path_slots
unfolding build_path_slots place_all place probe_at desired_slots next_power
a_path_built = refl

a_catalog-Names : Names a_catalog ((97 ∷ []) ∷ [])
unfolding checked_slice checked_add get_range is_utf8
a_catalog-Names zero name at =
    let same : 97 ∷ [] ≡ name = ground arith in rw (← same) (a_file, refl, refl, refl)
a_catalog-Names (suc i) name at = absurd (cc)

a_path_valid : validate_canonical_path (97 ∷ []) ≡ ok tt
unfolding validate_canonical_path bytes_eq
a_path_valid = refl

abbrev one_path : List Bytes
one_path = (97 ∷ []) ∷ []

find_file-encode_example :
    (c : Catalog) × (parse_header a_catalog_bytes ≡ ok c)
    × (j : ℕ) × (get_elem? one_path j ≡ some (97 ∷ []))
    × (find_file (path_slot c) (path c) (λ name. 11) c.path_slot_count (97 ∷ []) ≡ ok (some j))
find_file-encode_example =
    find_file-encode (λ name. 11) a_catalog a_catalog_bytes one_path a_catalog-IsValid
      a_catalog_encodes a_path_built (omega arith) a_catalog-Names 0 (97 ∷ []) refl a_path_valid
