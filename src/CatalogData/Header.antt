-- ===== src/CatalogData/Header.antt =====
-- What `encode` has checked when it returns bytes, and that `Catalog::parse` accepts their header.
use hakutaku.Prelude.{
  String, ℕ, ◌+◌, ◌*◌, ◌^◌, ◌<◌, ◌≤◌, ◌≡◌, refl, ◌∙◌, true, List, [], ◌∷◌, ◌++◌, length, get_elem?,
  some, arith,
}
use hakutaku.Wire.{
  Bytes, Result, Error, ok_or, ok, u32_mod, usize_mod, to_le_bytes, put_u16, put_u32, read_u16,
  read_u32, require_len, require_magic, checked_add, checked_mul, checked_table_end, validate_count,
  ◌>>=◌, >>=-eq-ok,
}
use hakutaku.Wire.Writes.{Write}
use hakutaku.Wire.ReadBack
use hakutaku.Wire.ReadBack.{IsLayout, encoded}
use hakutaku.Wire.Fronts
use hakutaku.Format.Constants.{
  catalog_header_size, catalog_magic, format_major, max_segments, max_files, max_blocks, max_pages,
  max_path_pool_len, max_catalog_plain_len,
}
use hakutaku.Catalog.{Catalog, parse_header, is_power_of_two, is_sum}
use hakutaku.Catalog.Lookup.{power_pos}
use hakutaku.CatalogData.Tables.{table_end_lem}
use hakutaku.CatalogData.{
  CatalogData, header, append_tables, Offsets, check_counts, table_offsets, narrow, encode,
  validate_catalog_len,
}

module _ (d : CatalogData) where
  abbrev pub file_start : ℕ
  file_start = 64 + length d.segments * 96

  abbrev pub slot_start : ℕ
  slot_start = file_start + length d.files * 32

  abbrev pub pool_start : ℕ
  pool_start = slot_start + length d.path_slots * 8

  abbrev pub page_start : ℕ
  page_start = pool_start + length d.path_pool

  abbrev pub total_len : ℕ
  total_len = page_start + length d.pages * 64

  -- The header with the offsets of the tables as they follow one another.
  abbrev pub front : Bytes
  front = header d file_start slot_start pool_start page_start

  pub record IsEncoded (bytes : Bytes) : Type 0 where
    pub output : bytes ≡ append_tables d front
    pub segment_max : length d.segments ≤ max_segments
    pub file_max : length d.files ≤ max_files
    pub block_max : d.total_blocks ≤ max_blocks
    pub page_max : length d.pages ≤ max_pages
    pub pool_max : length d.path_pool ≤ max_path_pool_len
    pub slots_power : is_power_of_two (length d.path_slots) ≡ true
    pub page_kinds : d.map_page_count + d.reuse_page_count ≡ length d.pages
    pub total_max : total_len ≤ max_catalog_plain_len

  -- What a reader has of the encoded bytes.
  abbrev pub view : Bytes → Catalog
  view bytes = record {
    bytes = bytes;
    segment_count = length d.segments;
    file_count = length d.files;
    total_blocks = d.total_blocks;
    path_pool_len = length d.path_pool;
    path_slot_count = length d.path_slots;
    page_count = length d.pages;
    map_page_count = d.map_page_count;
    reuse_page_count = d.reuse_page_count;
    segment_offset = 64;
    file_offset = file_start;
    path_slot_offset = slot_start;
    path_pool_offset = pool_start;
    page_offset = page_start;
  }

  abbrev writes : List Write
  writes =
      (0, catalog_magic)
      ∷ (8, to_le_bytes 2 format_major)
      ∷ (10, to_le_bytes 2 catalog_header_size)
      ∷ (12, to_le_bytes 4 (length d.segments))
      ∷ (16, to_le_bytes 4 (length d.files))
      ∷ (20, to_le_bytes 4 d.total_blocks)
      ∷ (24, to_le_bytes 4 (length d.path_pool))
      ∷ (28, to_le_bytes 4 (length d.path_slots))
      ∷ (32, to_le_bytes 4 (length d.pages))
      ∷ (36, to_le_bytes 4 d.map_page_count)
      ∷ (40, to_le_bytes 4 d.reuse_page_count)
      ∷ (44, to_le_bytes 4 catalog_header_size)
      ∷ (48, to_le_bytes 4 file_start)
      ∷ (52, to_le_bytes 4 slot_start)
      ∷ (56, to_le_bytes 4 pool_start)
      ∷ (60, to_le_bytes 4 page_start)
      ∷ []

  front-writes : front ≡ encoded catalog_header_size writes
  unfolding header put_u16 put_u32
  front-writes = refl

  layout : IsLayout catalog_header_size writes
  unfolding to_le_bytes
  layout = record { within = omega arith; fits = omega arith }

  pub length-front : length front ≡ 64
  length-front = rw front-writes (ReadBack.length-encoded layout)

  module _ (body : Bytes) where
    word_read :
        (k o v : ℕ)
        → get_elem? writes k ≡ some (o, to_le_bytes 4 v)
        → v < 2 ^ 32
        → ReadBack.Kept 64 writes k o 4
        → o + 4 ≤ 64
        → read_u32 (front ++ body) o ≡ ok v
    word_read k o v at small kept lies = rw front-writes (
        Fronts.read_u32-append (encoded 64 writes) body o
          (omega (arith, ReadBack.length-encoded layout, lies))
        ∙ ReadBack.u32_back layout k o v at small kept)

module _ (d : CatalogData) (body : Bytes) where
  magic_read : require_magic (front d ++ body) catalog_magic "catalog magic" ≡ ok tt
  magic_read = rw (front-writes d) (
      Fronts.require_magic-append (encoded 64 (writes d)) body catalog_magic "catalog magic"
        (omega (arith, ReadBack.length-encoded (layout d)))
      ∙ ReadBack.require_magic_back (layout d) "catalog magic" refl refl (omega arith))

  half_read :
      (k o v : ℕ)
      → get_elem? (writes d) k ≡ some (o, to_le_bytes 2 v)
      → v < 2 ^ 16
      → ReadBack.Kept 64 (writes d) k o 2
      → o + 2 ≤ 64
      → read_u16 (front d ++ body) o ≡ ok v
  half_read k o v at small kept lies = rw (front-writes d) (
      Fronts.read_u16-append (encoded 64 (writes d)) body o
        (omega (arith, ReadBack.length-encoded (layout d), lies))
      ∙ ReadBack.u16_back (layout d) k o v at small kept)

  major_read : read_u16 (front d ++ body) 8 ≡ ok 2
  major_read = half_read 1 8 2 refl (omega arith) (omega arith) (omega arith)

  size_read : read_u16 (front d ++ body) 10 ≡ ok 64
  size_read = half_read 2 10 64 refl (omega arith) (omega arith) (omega arith)

-- An addition that the code checks: what comes after it has the sum.
table_end_step :
    {A : Type 0} (start count size : ℕ) (next : ℕ → Result A) {a : A}
    → (checked_table_end start count size >>= next) ≡ ok a
    → next (start + count * size) ≡ ok a
unfolding checked_table_end checked_mul checked_add
table_end_step start count size next e = ground arith

add_step :
    {A : Type 0} (m x y : ℕ) (failure : Error) (next : ℕ → Result A) {a : A}
    → (ok_or (checked_add m x y) failure >>= next) ≡ ok a
    → next (x + y) ≡ ok a
unfolding checked_add
add_step m x y failure next e = ground arith

-- The offsets are where the tables before them end, and all of the catalog is within its limit.
table_offsets_inv :
    (d : CatalogData) (o : Offsets)
    → table_offsets d ≡ ok o
    → (o ≡ record {
      file_offset = file_start d;
      path_slot_offset = slot_start d;
      path_pool_offset = pool_start d;
      page_offset = page_start d;
    })
      × (total_len d ≤ max_catalog_plain_len)
unfolding table_offsets validate_catalog_len validate_count checked_add
table_offsets_inv d o e =
    let e1 = table_end_step 64 (length d.segments) 96 _ e in
    let e2 = table_end_step (file_start d) (length d.files) 32 _ e1 in
    let e3 = table_end_step (slot_start d) (length d.path_slots) 8 _ e2 in
    let e4 = add_step _ (pool_start d) (length d.path_pool) _ _ e3 in
    let e5 = table_end_step (page_start d) (length d.pages) 64 _ e4 in
    (ground (arith, e5), ground (arith, e5))

module _ (d : CatalogData) (e : check_counts d ≡ ok tt) where
  counts_segments : length d.segments ≤ max_segments
  unfolding check_counts validate_count
  counts_segments = ground arith

  counts_files : length d.files ≤ max_files
  unfolding check_counts validate_count
  counts_files = ground arith

  counts_blocks : d.total_blocks ≤ max_blocks
  unfolding check_counts validate_count
  counts_blocks = ground arith

  counts_pages : length d.pages ≤ max_pages
  unfolding check_counts validate_count
  counts_pages = ground arith

  counts_pool : length d.path_pool ≤ max_path_pool_len
  unfolding check_counts validate_count
  counts_pool = ground arith

  counts_power : is_power_of_two (length d.path_slots) ≡ true
  unfolding check_counts validate_count
  counts_power = ground arith

  counts_kinds : d.map_page_count + d.reuse_page_count ≡ length d.pages
  unfolding check_counts validate_count is_sum checked_add
  counts_kinds = ground arith

-- What `encode` has checked when it returns.
pub encode-IsEncoded : (d : CatalogData) (bytes : Bytes) → encode d ≡ ok bytes → IsEncoded d bytes
unfolding encode
encode-IsEncoded d bytes e =
    let (_, counts, e1) = >>=-eq-ok (check_counts d) _ e in
    let (o, offsets, e2) = >>=-eq-ok (table_offsets d) _ e1 in
    let (_, narrowed, e3) = >>=-eq-ok (narrow d o) _ e2 in
    let (exact, total) = table_offsets_inv d o offsets in
    record {
      output = ground (arith, e3, exact);
      segment_max = counts_segments d counts;
      file_max = counts_files d counts;
      block_max = counts_blocks d counts;
      page_max = counts_pages d counts;
      pool_max = counts_pool d counts;
      slots_power = counts_power d counts;
      page_kinds = counts_kinds d counts;
      total_max = total;
    }

validate_count_lem :
    (n maximum : ℕ) (name : String) → n ≤ maximum → validate_count n maximum name ≡ ok tt
unfolding validate_count
validate_count_lem n maximum name h = ground arith

add_lem : (m x y : ℕ) → x + y < m → checked_add m x y ≡ some (x + y)
unfolding checked_add
add_lem m x y h = ground arith

-- `parse_header` accepts the header that `encode` wrote before tables of the right length.
pub parse_header-front :
    (d : CatalogData) (body : Bytes) {bytes : Bytes}
    → IsEncoded d bytes
    → length (front d ++ body) ≡ total_len d
    → parse_header (front d ++ body) ≡ ok (view d (front d ++ body))
unfolding parse_header to_le_bytes
parse_header-front d body v len =
    let read = word_read d body in
    let long : require_len (front d ++ body) 64 "catalog header" ≡ ok tt =
      unfold require_len in ground (arith, len) in
    rw
      (
        long,
        magic_read d body,
        major_read d body,
        size_read d body,
        read 3 12 (length d.segments) refl (omega arith) (omega arith) (omega arith),
        read 4 16 (length d.files) refl (omega arith) (omega arith) (omega arith),
        read 5 20 d.total_blocks refl (omega arith) (omega arith) (omega arith),
        read 6 24 (length d.path_pool) refl (omega arith) (omega arith) (omega arith),
        read 7 28 (length d.path_slots) refl (omega arith) (omega arith) (omega arith),
        read 8 32 (length d.pages) refl (omega arith) (omega arith) (omega arith),
        read 9 36 d.map_page_count refl (omega arith) (omega arith) (omega arith),
        read 10 40 d.reuse_page_count refl (omega arith) (omega arith) (omega arith),
        read 11 44 64 refl (omega arith) (omega arith) (omega arith),
        read 12 48 (file_start d) refl (omega arith) (omega arith) (omega arith),
        read 13 52 (slot_start d) refl (omega arith) (omega arith) (omega arith),
        read 14 56 (pool_start d) refl (omega arith) (omega arith) (omega arith),
        read 15 60 (page_start d) refl (omega arith) (omega arith) (omega arith),
        validate_count_lem (length d.segments) max_segments "segment count" v.segment_max,
        validate_count_lem (length d.files) max_files "file count" v.file_max,
        validate_count_lem d.total_blocks max_blocks "block count" v.block_max,
        validate_count_lem (length d.pages) max_pages "page count" v.page_max,
        validate_count_lem (length d.path_pool) max_path_pool_len "path pool" v.pool_max,
        v.slots_power,
        add_lem u32_mod d.map_page_count d.reuse_page_count (omega arith),
        table_end_lem (slot_start d) (length d.path_slots) 8 (omega arith),
        add_lem usize_mod (pool_start d) (length d.path_pool) (omega arith),
        table_end_lem (page_start d) (length d.pages) 64 (omega arith),
      )
      (unfold is_sum in
        ground (arith, len, v.page_kinds, power_pos (length d.path_slots) v.slots_power))
