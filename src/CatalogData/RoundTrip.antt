-- ===== src/CatalogData/RoundTrip.antt =====
-- `Catalog` reads back what `CatalogData::encode` wrote.
use hakutaku.Prelude.{
  ℕ, ◌+◌, ◌<◌, ◌≤◌, ◌≡◌, refl, sym, ap, ◌∙◌, [], ◌++◌, length, get_elem?, some, All, arith,
  append_assoc, append-nil, length-append,
}
use hakutaku.Wire.{Bytes, ok, checked_slice, usize_mod}
use hakutaku.Wire.ReadBack
use hakutaku.Format.SegmentRecord
use hakutaku.Format.SegmentRecord.{SegmentRecord}
use hakutaku.Format.FileRecord
use hakutaku.Format.FileRecord.{FileRecord}
use hakutaku.Format.PathSlot
use hakutaku.Format.PathSlot.{PathSlot}
use hakutaku.Format.PageRecord
use hakutaku.Format.PageRecord.{PageRecord}
use hakutaku.Format.Constants.{max_catalog_plain_len}
use hakutaku.Catalog.{Catalog, segment, file, path_slot, page, parse_header}
use hakutaku.CatalogData.{CatalogData, append_all, append_tables, encode}
use hakutaku.CatalogData.Tables.{
  append_all-append, length-append_all, record_at-append_all, segment_codec, file_codec, slot_codec,
  page_codec,
}
use hakutaku.CatalogData.Header.{
  front, view, length-front, encode-IsEncoded, file_start, slot_start, pool_start, page_start,
  total_len, parse_header-front,
}

-- What the Rust types say of the records.
pub record IsValid (d : CatalogData) : Type 0 where
  pub segments : All SegmentRecord.IsValid d.segments
  pub files : All FileRecord.IsValid d.files
  pub path_slots : All PathSlot.IsValid d.path_slots
  pub pages : All PageRecord.IsValid d.pages

module _ (d : CatalogData) (v : IsValid d) where
  -- The buffer after each loop.
  abbrev with_segments : Bytes
  with_segments = append_all SegmentRecord.encode_into d.segments (front d)

  abbrev with_files : Bytes
  with_files = append_all FileRecord.encode_into d.files with_segments

  abbrev with_slots : Bytes
  with_slots = append_all PathSlot.encode_into d.path_slots with_files

  abbrev with_pool : Bytes
  with_pool = with_slots ++ d.path_pool

  abbrev with_pages : Bytes
  with_pages = append_all PageRecord.encode_into d.pages with_pool

  tables_end : append_tables d (front d) ≡ with_pages
  unfolding append_tables
  tables_end = refl

  abbrev segment_part : Bytes
  segment_part = append_all SegmentRecord.encode_into d.segments []

  abbrev file_part : Bytes
  file_part = append_all FileRecord.encode_into d.files []

  abbrev slot_part : Bytes
  slot_part = append_all PathSlot.encode_into d.path_slots []

  abbrev page_part : Bytes
  page_part = append_all PageRecord.encode_into d.pages []

  -- What follows the header, and what follows each table.
  after_pool : with_pages ≡ with_pool ++ page_part
  after_pool = append_all-append page_codec d.pages with_pool

  after_slots : with_pages ≡ with_slots ++ (d.path_pool ++ page_part)
  after_slots = after_pool ∙ append_assoc with_slots d.path_pool page_part

  after_files : with_pages ≡ with_files ++ (slot_part ++ (d.path_pool ++ page_part))
  after_files =
      after_slots
      ∙ ap (λ l. l ++ (d.path_pool ++ page_part))
          (append_all-append slot_codec d.path_slots with_files)
      ∙ append_assoc with_files slot_part _

  after_segments :
      with_pages ≡ with_segments ++ (file_part ++ (slot_part ++ (d.path_pool ++ page_part)))
  after_segments =
      after_files
      ∙ ap (λ l. l ++ (slot_part ++ (d.path_pool ++ page_part)))
          (append_all-append file_codec d.files with_segments)
      ∙ append_assoc with_segments file_part _

  after_front :
      with_pages
      ≡ front d ++ (segment_part ++ (file_part ++ (slot_part ++ (d.path_pool ++ page_part))))
  after_front =
      after_segments
      ∙ ap (λ l. l ++ (file_part ++ (slot_part ++ (d.path_pool ++ page_part))))
          (append_all-append segment_codec d.segments (front d))
      ∙ append_assoc (front d) segment_part _

  length-with_segments : length with_segments ≡ file_start d
  length-with_segments =
      omega (arith, length-append_all segment_codec d.segments (front d) v.segments, length-front d)

  length-with_files : length with_files ≡ slot_start d
  length-with_files =
      omega
        (arith, length-append_all file_codec d.files with_segments v.files, length-with_segments)

  length-with_slots : length with_slots ≡ pool_start d
  length-with_slots =
      omega (
        arith,
        length-append_all slot_codec d.path_slots with_files v.path_slots,
        length-with_files,
      )

  length-with_pool : length with_pool ≡ page_start d
  length-with_pool = omega (arith, length-append with_slots d.path_pool, length-with_slots)

  length-with_pages : length with_pages ≡ total_len d
  length-with_pages =
      omega (arith, length-append_all page_codec d.pages with_pool v.pages, length-with_pool)

slice_at :
    (out s rest : Bytes) (start : ℕ)
    → length out ≡ start
    → start + length s < usize_mod
    → checked_slice (out ++ (s ++ rest)) start (length s) ≡ ok s
slice_at out s rest start begins h =
    rw (← begins) (ReadBack.checked_slice-append out s rest (length s) refl (rw begins h))

-- What the accessors of a catalog find is what was encoded.
pub record ReadsBack (d : CatalogData) (c : Catalog) : Type 0 where
  pub segments : (i : ℕ) (r : SegmentRecord) → get_elem? d.segments i ≡ some r → segment c i ≡ ok r
  pub files : (i : ℕ) (r : FileRecord) → get_elem? d.files i ≡ some r → file c i ≡ ok r
  pub path_slots : (i : ℕ) (r : PathSlot) → get_elem? d.path_slots i ≡ some r → path_slot c i ≡ ok r
  pub pages : (i : ℕ) (r : PageRecord) → get_elem? d.pages i ≡ some r → page c i ≡ ok r
  pub path_pool : checked_slice c.bytes c.path_pool_offset c.path_pool_len ≡ ok d.path_pool

module _ (d : CatalogData) (v : IsValid d) (small : total_len d ≤ max_catalog_plain_len) where
  with_pages-ReadsBack : ReadsBack d (view d (with_pages d v))
  unfolding segment file path_slot page
  with_pages-ReadsBack = record {
    segments = λ i r at. rw (after_segments d v) (
        record_at-append_all segment_codec d.segments "segment index" i r (front d) _ 64
          (length-front d) at v.segments (omega arith));
    files = λ i r at. rw (after_files d v) (
        record_at-append_all file_codec d.files "file index" i r (with_segments d v) _
          (file_start d) (length-with_segments d v) at v.files (omega arith));
    path_slots = λ i r at. rw (after_slots d v) (
        record_at-append_all slot_codec d.path_slots "path slot index" i r (with_files d v) _
          (slot_start d) (length-with_files d v) at v.path_slots (omega arith));
    pages = λ i r at. rw (sym (append-nil (with_pages d v))) (
        record_at-append_all page_codec d.pages "page index" i r (with_pool d v) [] (page_start d)
          (length-with_pool d v) at v.pages (omega arith));
    path_pool = rw (after_slots d v) (
        slice_at (with_slots d v) d.path_pool (page_part d v) (pool_start d) (length-with_slots d v)
          (omega arith));
  }

-- The header of what `encode` returned for valid records is accepted with the counts that were
-- encoded, and every accessor then gives back the record that was encoded at its index, and the
-- pool its names.
pub parse_header-encode :
    (d : CatalogData) (bytes : Bytes)
    → IsValid d
    → encode d ≡ ok bytes
    → (parse_header bytes ≡ ok (view d bytes)) × ReadsBack d (view d bytes)
parse_header-encode d bytes v e =
    let x = encode-IsEncoded d bytes e in
    let whole : bytes ≡ with_pages d v = x.output ∙ tables_end d v in
    rw whole (
      rw (after_front d v)
          (parse_header-front d _ x (rw (← after_front d v) (length-with_pages d v))),
      with_pages-ReadsBack d v x.total_max,
    )
