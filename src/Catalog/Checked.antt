-- ===== src/Catalog/Checked.antt =====
-- What an accepted catalog has: every record of its tables decodes and is in range, and its pages
-- follow one another.
use hakutaku.Prelude.{
  ℕ, zero, suc, ◌+◌, ◌≤◌, ◌<◌, ◌≡◌, refl, inl, inr, Bool-cases, ◌==◌, ◌&&◌, arith,
}
use hakutaku.Wire.{Bytes, ok, err, guard, >>=-eq-ok}
use hakutaku.Format.Constants.{blocks_per_map_page, reuse_per_page}
use hakutaku.Catalog.{
  Catalog, page, for_each, check_segment, check_file, check_path_slot, check_pages, check_page,
  div_ceil, validate_records, parse, parse_header,
}
use hakutaku.Catalog.Header.{IsLaidOut, parse_header-IsLaidOut}
use hakutaku.Catalog.Records.{
  HasSegment, HasFile, HasSlot, HasPage, for_each_inv, check_segment_inv, check_file_inv,
  check_path_slot_inv, check_page_inv,
}

-- Where the page `index` begins if the pages before it are stored without gaps.
pub stored_at : Catalog → ℕ → ℕ
stored_at c index = elim (page c index) [ ok p ↦ p.stored_len | err failure ↦ 0 ]

unfoldable pub region_start : Catalog → ℕ → ℕ
unfolding stored_at
region_start c zero = 0
region_start c (suc index) = region_start c index + stored_at c index

check_pages_inv :
    (c : Catalog) (rounds index j : ℕ) {end : ℕ}
    → check_pages c rounds index (region_start c index) ≡ ok end
    → index ≤ j
    → j < index + rounds
    → HasPage c j (region_start c j)
unfolding check_pages region_start
check_pages_inv c zero index j e lo hi = absurd (omega arith)
check_pages_inv c (suc rounds) index j e lo hi =
    let (next, here, rest) = >>=-eq-ok (check_page c index (region_start c index)) _ e in
    let (p, moves) = check_page_inv c index (region_start c index) next here in
    let stored : stored_at c index ≡ p.page_record.stored_len = rw (p.decodes, stored_at) refl in
    let next_start : next ≡ region_start c (suc index) = omega (arith, moves, stored) in
    let next_index : index + 1 ≡ suc index = omega arith in
    elim (Bool-cases (index == j)) [
      | inl eq ↦ let same : index ≡ j = ground arith in rw (← same) p
      | inr ne ↦
          check_pages_inv c rounds (suc index) j (rw (next_start, next_index) at rest)
            (ground arith) (omega arith)
    ]

-- The checks of the records, as facts of the catalog.
pub record AreChecked (c : Catalog) : Type 0 where
  pub map_pages : c.map_page_count ≡ div_ceil c.total_blocks blocks_per_map_page
  pub reuse_pages : c.reuse_page_count ≡ div_ceil c.total_blocks reuse_per_page
  pub segments : (i : ℕ) → i < c.segment_count → HasSegment c i
  pub files : (i : ℕ) → i < c.file_count → HasFile c i
  pub slots : (i : ℕ) → i < c.path_slot_count → HasSlot c i
  pub pages : (i : ℕ) → i < c.page_count → HasPage c i (region_start c i)

validate_records-AreChecked : (c : Catalog) → validate_records c ≡ ok tt → AreChecked c
unfolding validate_records region_start
validate_records-AreChecked c e =
    let (_, counts, e1) =
      >>=-eq-ok
        (guard
          (c.map_page_count == div_ceil c.total_blocks 341
            && c.reuse_page_count == div_ceil c.total_blocks 511)
          _)
        _ e in
    let (_, segments, e2) = >>=-eq-ok (for_each (check_segment c) c.segment_count 0) _ e1 in
    let (_, files, e3) = >>=-eq-ok (for_each (check_file c) c.file_count 0) _ e2 in
    let (_, slots, e4) = >>=-eq-ok (for_each (check_path_slot c) c.path_slot_count 0) _ e3 in
    let (end, pages, e5) = >>=-eq-ok (check_pages c c.page_count 0 0) _ e4 in
    record {
      map_pages = ground (arith, counts);
      reuse_pages = ground (arith, counts);
      segments = λ i h. check_segment_inv c i (
          for_each_inv (check_segment c) c.segment_count 0 i segments (omega arith)
            (omega (arith, h)));
      files = λ i h.
          check_file_inv c i
            (for_each_inv (check_file c) c.file_count 0 i files (omega arith) (omega (arith, h)));
      slots = λ i h. check_path_slot_inv c i (
          for_each_inv (check_path_slot c) c.path_slot_count 0 i slots (omega arith)
            (omega (arith, h)));
      pages = λ i h. check_pages_inv c c.page_count 0 i pages (omega arith) (omega (arith, h));
    }

parse_parts :
    (bytes : Bytes) (c : Catalog)
    → parse bytes ≡ ok c
    → (parse_header bytes ≡ ok c) × (validate_records c ≡ ok tt)
unfolding parse
parse_parts bytes c e =
    let (c', header, e1) = >>=-eq-ok (parse_header bytes) _ e in
    let (_, records, e2) = >>=-eq-ok (validate_records c') _ e1 in
    let same : c' ≡ c = cc in (rw (← same) header, rw (← same) records)

-- An accepted catalog lays its tables one after the other from byte 64 to the end of the bytes,
-- within the limits on their counts.
pub parse-IsLaidOut : (bytes : Bytes) (c : Catalog) → parse bytes ≡ ok c → IsLaidOut bytes c
parse-IsLaidOut bytes c e = parse_header-IsLaidOut bytes c (parse_parts bytes c e).0

-- In an accepted catalog every index within a table's count decodes. A segment's file is its header
-- and its payload; a file has a canonical path in the pool and a range of the blocks; a slot is
-- empty or names a file; and a page has the kind, the ordinal and the length of its place, and
-- begins where the pages before it end.
pub parse-AreChecked : (bytes : Bytes) (c : Catalog) → parse bytes ≡ ok c → AreChecked c
parse-AreChecked bytes c e = validate_records-AreChecked c (parse_parts bytes c e).1
