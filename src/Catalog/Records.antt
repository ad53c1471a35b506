-- ===== src/Catalog/Records.antt =====
-- What `validate_records` has checked of the records of a catalog.
use hakutaku.Prelude.{
  ℕ, zero, suc, ◌+◌, ◌-◌, ◌*◌, ◌≤◌, ◌<◌, ◌≡◌, refl, min, ◌⊎◌, inl, inr, Bool-cases, ◌==◌, arith,
  true,
}
use hakutaku.Wire.{Bytes, Result, ok, >>=-eq-ok, Result-cases, checked_add, checked_mul}
use hakutaku.Format.Constants.{empty_path_slot}
use hakutaku.Format.Enums.{PageKind, block_map, reuse}
use hakutaku.Format.SegmentRecord.{SegmentRecord}
use hakutaku.Format.FileRecord.{FileRecord}
use hakutaku.Format.PathSlot.{PathSlot}
use hakutaku.Format.PageRecord.{PageRecord}
use hakutaku.Paths.Canonical.{IsCanonical, validate_canonical_path-IsCanonical}
use hakutaku.Catalog.{
  Catalog, segment, file, path_slot, page, path, for_each, check_segment, check_file,
  check_path_slot, check_page, same_kind, expected_kind, page_capacity, page_entry_size, local_page,
}

pub for_each_inv :
    (body : ℕ → Result (Unit {0})) (rounds index j : ℕ)
    → for_each body rounds index ≡ ok tt
    → index ≤ j
    → j < index + rounds
    → body j ≡ ok tt
unfolding for_each
for_each_inv body zero index j e lo hi = absurd (omega arith)
for_each_inv body (suc rounds) index j e lo hi =
    let (_, here, rest) = >>=-eq-ok (body index) _ e in
    elim (Bool-cases (index == j)) [
      | inl eq ↦ let same : index ≡ j = ground arith in rw (← same) here
      | inr ne ↦ for_each_inv body rounds (index + 1) j rest (ground arith) (omega arith)
    ]

module _ (c : Catalog) (i : ℕ) where
  -- A segment file is its header and its payload.
  pub record HasSegment : Type 0 where
    pub segment_record : SegmentRecord
    pub decodes : segment c i ≡ ok segment_record
    pub file_length : segment_record.file_len ≡ 128 + segment_record.payload_len

  -- A file has a canonical path in the pool, and a range of the blocks.
  pub record HasFile : Type 0 where
    pub file_record : FileRecord
    pub decodes : file c i ≡ ok file_record
    pub path_not_empty : 0 < file_record.path_len
    pub path_in_pool : file_record.path_offset + file_record.path_len ≤ c.path_pool_len
    pub blocks_in_range : file_record.first_block + file_record.block_count ≤ c.total_blocks
    pub name : Bytes
    pub named : path c i ≡ ok name
    pub canonical : IsCanonical name

  -- A slot is empty or names a file.
  pub record HasSlot : Type 0 where
    pub slot : PathSlot
    pub decodes : path_slot c i ≡ ok slot
    pub empty_or_file : (slot.file_index ≡ empty_path_slot) ⊎ (slot.file_index < c.file_count)

  pub check_segment_inv : check_segment c i ≡ ok tt → HasSegment
  unfolding check_segment checked_add
  check_segment_inv e =
      let (s, decodes, rest) = >>=-eq-ok (segment c i) _ e in
      record { segment_record = s; decodes = decodes; file_length = ground (arith, rest) }

  pub check_path_slot_inv : check_path_slot c i ≡ ok tt → HasSlot
  unfolding check_path_slot
  check_path_slot_inv e =
      let (s, decodes, rest) = >>=-eq-ok (path_slot c i) _ e in
      record {
        slot = s;
        decodes = decodes;
        empty_or_file = elim (Bool-cases (s.file_index == empty_path_slot)) [
          | inl free ↦ inl (ground arith)
          | inr used ↦ inr (ground (arith, rest))
        ];
      }

  pub check_file_inv : check_file c i ≡ ok tt → HasFile
  unfolding check_file checked_add
  check_file_inv e =
      let (f, decodes, rest) = >>=-eq-ok (file c i) _ e in
      elim (Result-cases (path c i)) [
        | inr (failure, failed) ↦ absurd (ground (arith, rest, failed))
        | inl (name, named) ↦ record {
          file_record = f;
          decodes = decodes;
          path_not_empty = ground (arith, rest);
          path_in_pool = ground (arith, rest);
          blocks_in_range = ground (arith, rest);
          name = name;
          named = named;
          canonical = validate_canonical_path-IsCanonical name (ground (arith, rest, named));
        }
      ]

  -- A page has its place among the pages of its kind, its ordinal, and the length of its records.
  pub record HasPage (start : ℕ) : Type 0 where
    pub page_record : PageRecord
    pub decodes : page c i ≡ ok page_record
    pub kind : page_record.kind ≡ expected_kind c i
    pub ordinal : page_record.nonce_ordinal ≡ i + 1
    pub plain_length :
        page_record.plain_len
        ≡ 16
          + min
              (c.total_blocks - local_page c page_record.kind i * page_capacity page_record.kind)
              (page_capacity page_record.kind)
            * page_entry_size page_record.kind
    pub begins : page_record.relative_offset ≡ start

  same_kind-eq : (a b : PageKind) → same_kind a b ≡ true → a ≡ b
  unfolding same_kind
  same_kind-eq block_map block_map e = refl
  same_kind-eq block_map reuse e = absurd (cc)
  same_kind-eq reuse block_map e = absurd (cc)
  same_kind-eq reuse reuse e = refl

  pub check_page_inv :
      (start next : ℕ)
      → check_page c i start ≡ ok next
      → (p : HasPage start) × (next ≡ start + p.page_record.stored_len)
  unfolding check_page checked_add checked_mul
  check_page_inv start next e =
      let (p, decodes, rest) = >>=-eq-ok (page c i) _ e in
      (
        record {
          page_record = p;
          decodes = decodes;
          kind = same_kind-eq p.kind (expected_kind c i) (ground (arith, rest));
          ordinal = ground (arith, rest);
          plain_length = ground (arith, rest);
          begins = ground (arith, rest);
        },
        ground (arith, rest),
      )
