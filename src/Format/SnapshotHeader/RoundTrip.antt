-- ===== src/Format/SnapshotHeader/RoundTrip.antt =====
-- A snapshot header parses back from its encoding, and an accepted header is the canonical one.
use hakutaku.Prelude.{◌≡◌, refl, ◌∙◌, sym, List, [], ◌∷◌, All, arith, take, false}
use hakutaku.Wire.{Bytes, IsByte, ok, to_le_bytes, put_u8, put_u16, put_u32, put_u64, checked_add}
use hakutaku.Wire.Writes.{Write}
use hakutaku.Wire.ReadBack
use hakutaku.Wire.ReadBack.{IsLayout, encoded}
use hakutaku.Wire.Inverse
use hakutaku.Wire.Slices.{take-of_slices, ◌⨾◌}
use hakutaku.Format.Constants.{snapshot_header_size, snapshot_magic, format_major, format_minor}
use hakutaku.Format.SnapshotHeader.{SnapshotHeader, parse, encode, IsValid}
use hakutaku.Format.SnapshotHeader.Parsed.{IsParsed, parse-IsParsed}

abbrev writes : SnapshotHeader → List Write
writes h =
    (0, snapshot_magic)
    ∷ (8, to_le_bytes 2 format_major)
    ∷ (10, to_le_bytes 2 format_minor)
    ∷ (12, to_le_bytes 4 snapshot_header_size)
    ∷ (16, h.project_id)
    ∷ (32, to_le_bytes 8 h.release_sequence)
    ∷ (40, to_le_bytes 8 snapshot_header_size)
    ∷ (48, to_le_bytes 8 h.catalog_stored_len)
    ∷ (56, to_le_bytes 8 h.catalog_plain_len)
    ∷ (64, to_le_bytes 8 h.page_region_offset)
    ∷ (72, to_le_bytes 4 h.page_count)
    ∷ (80, h.snapshot_salt)
    ∷ (96, h.nonce_prefix)
    ∷ (104, h.signing_key_id)
    ∷ (120, h.source_fingerprint)
    ∷ (152, h.signature)
    ∷ []

encode-writes : (h : SnapshotHeader) → encode h false ≡ encoded snapshot_header_size (writes h)
unfolding encode put_u8 put_u16 put_u32 put_u64
encode-writes h = refl

layout : (h : SnapshotHeader) → IsValid h → IsLayout snapshot_header_size (writes h)
unfolding to_le_bytes
layout h v = record { within = omega arith; fits = omega arith }

parse-encoded :
    (h : SnapshotHeader) → IsValid h → parse (encoded snapshot_header_size (writes h)) ≡ ok h
unfolding parse to_le_bytes checked_add
parse-encoded h v =
    let l = layout h v in
    ground (
      arith,
      ReadBack.require_len_back l 256 "snapshot header" (omega arith),
      ReadBack.require_magic_back l "snapshot magic" refl refl (omega arith),
      ReadBack.u16_back l 1 8 2 refl (omega arith) (omega arith),
      ReadBack.u16_back l 2 10 0 refl (omega arith) (omega arith),
      ReadBack.u32_back l 3 12 256 refl (omega arith) (omega arith),
      ReadBack.array_back l 4 16 16 refl v.project_id_len (omega arith),
      ReadBack.u64_back l 5 32 h.release_sequence refl (omega arith) (omega arith),
      ReadBack.u64_back l 6 40 256 refl (omega arith) (omega arith),
      ReadBack.u64_back l 7 48 h.catalog_stored_len refl (omega arith) (omega arith),
      ReadBack.u64_back l 8 56 h.catalog_plain_len refl (omega arith) (omega arith),
      ReadBack.u64_back l 9 64 h.page_region_offset refl (omega arith) (omega arith),
      ReadBack.u32_back l 10 72 h.page_count refl (omega arith) (omega arith),
      ReadBack.array_back l 11 80 16 refl v.snapshot_salt_len (omega arith),
      ReadBack.array_back l 12 96 8 refl v.nonce_prefix_len (omega arith),
      ReadBack.array_back l 13 104 16 refl v.signing_key_id_len (omega arith),
      ReadBack.array_back l 14 120 32 refl v.source_fingerprint_len (omega arith),
      ReadBack.array_back l 15 152 64 refl v.signature_len (omega arith),
      ReadBack.require_zero_back l 76 80 "snapshot reserved fields" (omega arith),
      ReadBack.require_zero_back l 216 256 "snapshot reserved tail" (omega arith),
    )

IsParsed-IsValid :
    (bytes : Bytes) (h : SnapshotHeader) → All IsByte bytes → IsParsed bytes h → IsValid h
IsParsed-IsValid bytes h b p = record {
  project_id_len = Inverse.length-read_array 16 bytes 16 p.project_id;
  release_sequence_u64 = (Inverse.read_u64_inv bytes 32 h.release_sequence b p.release_sequence).2;
  snapshot_salt_len = Inverse.length-read_array 16 bytes 80 p.snapshot_salt;
  nonce_prefix_len = Inverse.length-read_array 8 bytes 96 p.nonce_prefix;
  signing_key_id_len = Inverse.length-read_array 16 bytes 104 p.signing_key_id;
  source_fingerprint_len = Inverse.length-read_array 32 bytes 120 p.source_fingerprint;
  signature_len = Inverse.length-read_array 64 bytes 152 p.signature;
  catalog_stored_min = p.stored_min;
  catalog_stored_max = p.stored_max;
  catalog_plain_min = p.plain_min;
  catalog_plain_max = p.plain_max;
  page_region_offset_sum = p.sum;
  page_count_max = p.pages;
}

encoded-of_parsed :
    (bytes : Bytes) (h : SnapshotHeader)
    → All IsByte bytes
    → IsParsed bytes h
    → encoded snapshot_header_size (writes h) ≡ take snapshot_header_size bytes
unfolding to_le_bytes
encoded-of_parsed bytes h b p =
    let v = IsParsed-IsValid bytes h b p in
    let l = layout h v in
    take-of_slices
      (8 ∷ 2 ∷ 2 ∷ 4 ∷ 16 ∷ 8 ∷ 8 ∷ 8 ∷ 8 ∷ 8 ∷ 4 ∷ 4 ∷ 16 ∷ 8 ∷ 16 ∷ 32 ∷ 64 ∷ 40 ∷ [])
      (encoded snapshot_header_size (writes h)) bytes (ReadBack.length-encoded l)
      (Inverse.require_len_inv bytes 256 "snapshot header" p.len)
      (ReadBack.slice_back l 0 0 8 refl refl (omega arith)
          ∙ sym (Inverse.require_magic_inv bytes snapshot_magic "snapshot magic" p.magic)
        ⨾ ReadBack.word_back l 1 8 2 2 refl (omega arith)
          ∙ sym (Inverse.read_u16_inv bytes 8 2 b p.major).1
        ⨾ ReadBack.word_back l 2 10 2 0 refl (omega arith)
          ∙ sym (Inverse.read_u16_inv bytes 10 0 b p.minor).1
        ⨾ ReadBack.word_back l 3 12 4 256 refl (omega arith)
          ∙ sym (Inverse.read_u32_inv bytes 12 256 b p.size).1
        ⨾ ReadBack.slice_back l 4 16 16 refl v.project_id_len (omega arith)
          ∙ sym (Inverse.read_array_inv 16 bytes 16 p.project_id).1
        ⨾ ReadBack.word_back l 5 32 8 h.release_sequence refl (omega arith)
          ∙ sym (Inverse.read_u64_inv bytes 32 h.release_sequence b p.release_sequence).1
        ⨾ ReadBack.word_back l 6 40 8 256 refl (omega arith)
          ∙ sym (Inverse.read_u64_inv bytes 40 256 b p.catalog_offset).1
        ⨾ ReadBack.word_back l 7 48 8 h.catalog_stored_len refl (omega arith)
          ∙ sym (Inverse.read_u64_inv bytes 48 h.catalog_stored_len b p.catalog_stored_len).1
        ⨾ ReadBack.word_back l 8 56 8 h.catalog_plain_len refl (omega arith)
          ∙ sym (Inverse.read_u64_inv bytes 56 h.catalog_plain_len b p.catalog_plain_len).1
        ⨾ ReadBack.word_back l 9 64 8 h.page_region_offset refl (omega arith)
          ∙ sym (Inverse.read_u64_inv bytes 64 h.page_region_offset b p.page_region_offset).1
        ⨾ ReadBack.word_back l 10 72 4 h.page_count refl (omega arith)
          ∙ sym (Inverse.read_u32_inv bytes 72 h.page_count b p.page_count).1
        ⨾ ReadBack.zeros_back l 76 4 (omega arith) (omega arith)
          ∙ sym (Inverse.require_zero_inv bytes 76 80 "snapshot reserved fields" p.reserved).1
        ⨾ ReadBack.slice_back l 11 80 16 refl v.snapshot_salt_len (omega arith)
          ∙ sym (Inverse.read_array_inv 16 bytes 80 p.snapshot_salt).1
        ⨾ ReadBack.slice_back l 12 96 8 refl v.nonce_prefix_len (omega arith)
          ∙ sym (Inverse.read_array_inv 8 bytes 96 p.nonce_prefix).1
        ⨾ ReadBack.slice_back l 13 104 16 refl v.signing_key_id_len (omega arith)
          ∙ sym (Inverse.read_array_inv 16 bytes 104 p.signing_key_id).1
        ⨾ ReadBack.slice_back l 14 120 32 refl v.source_fingerprint_len (omega arith)
          ∙ sym (Inverse.read_array_inv 32 bytes 120 p.source_fingerprint).1
        ⨾ ReadBack.slice_back l 15 152 64 refl v.signature_len (omega arith)
          ∙ sym (Inverse.read_array_inv 64 bytes 152 p.signature).1
        ⨾ ReadBack.zeros_back l 216 40 (omega arith) (omega arith)
          ∙ sym (Inverse.require_zero_inv bytes 216 256 "snapshot reserved tail" p.tail).1
        ⨾ tt)

-- `parse` gives back every valid snapshot header that `encode` wrote.
pub parse-encode_snapshot_header : (h : SnapshotHeader) → IsValid h → parse (encode h false) ≡ ok h
parse-encode_snapshot_header h v = rw (encode-writes h) (parse-encoded h v)

-- A snapshot header that `parse` accepts is valid, and encoding it gives the bytes that were read.
pub encode-parse_snapshot_header :
    (bytes : Bytes) (h : SnapshotHeader)
    → All IsByte bytes
    → parse bytes ≡ ok h
    → IsValid h × (encode h false ≡ take snapshot_header_size bytes)
encode-parse_snapshot_header bytes h b e =
    let p = parse-IsParsed bytes h e in
    (IsParsed-IsValid bytes h b p, encode-writes h ∙ encoded-of_parsed bytes h b p)
