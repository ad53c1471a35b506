-- ===== src/Format/Tests.antt =====
-- Sample records, after the unit tests of crates/core/src/format.rs, and the theorems at them.
use hakutaku.Prelude.{
  ◌+◌, ◌≡◌, refl, Bool, true, false, ◌&&◌, ltb, List, [], ◌∷◌, ◌++◌, replicate, take, All, arith,
}
use hakutaku.Wire.{
  Bytes, IsByte, Result, ok, err, ◌>>=◌, copy_at, put_u8, put_u16, put_u32, put_u64, to_le_bytes,
  append_record,
}
use hakutaku.Format.Enums.{
  required, fixed, hot, block_map, raw, availability_code, layout_code, access_code, page_kind_code,
  codec_code,
}
use hakutaku.Format.Page.{
  encode_map_page, parse_map_page, map_page_record, encode_reuse_page, parse_reuse_page,
}
use hakutaku.Format.Page.RoundTrip.{
  parse_map_page-encode_map_page, map_page_record-parse_map_page,
  parse_reuse_page-encode_reuse_page,
}
use hakutaku.Format.SegmentHeader
use hakutaku.Format.SegmentHeader.{SegmentHeader}
use hakutaku.Format.SegmentHeader.RoundTrip.{
  parse-encode_segment_header, encode-parse_segment_header,
}
use hakutaku.Format.SnapshotHeader
use hakutaku.Format.SnapshotHeader.{SnapshotHeader}
use hakutaku.Format.SnapshotHeader.RoundTrip.{
  parse-encode_snapshot_header, encode-parse_snapshot_header,
}
use hakutaku.Format.SegmentRecord
use hakutaku.Format.SegmentRecord.{SegmentRecord}
use hakutaku.Format.SegmentRecord.RoundTrip.{
  parse-encode_into_segment_record, encode_into-parse_segment_record,
}
use hakutaku.Format.FileRecord
use hakutaku.Format.FileRecord.{FileRecord}
use hakutaku.Format.FileRecord.RoundTrip.{
  parse-encode_into_file_record, encode_into-parse_file_record,
}
use hakutaku.Format.PathSlot
use hakutaku.Format.PathSlot.{PathSlot}
use hakutaku.Format.PathSlot.RoundTrip.{parse-encode_into_path_slot}
use hakutaku.Format.PageRecord
use hakutaku.Format.PageRecord.{PageRecord}
use hakutaku.Format.PageRecord.RoundTrip.{
  parse-encode_into_page_record, encode_into-parse_page_record,
}
use hakutaku.Format.BlockRef
use hakutaku.Format.BlockRef.{BlockRef}
use hakutaku.Format.BlockRef.RoundTrip.{parse-encode_into_block_ref, encode_into-parse_block_ref}

all_bytes : Bytes → Bool
all_bytes [] = true
all_bytes (b ∷ bs) = ltb b 256 && all_bytes bs

all_bytes_sound : (bs : Bytes) → all_bytes bs ≡ true → All IsByte bs
unfolding all_bytes
all_bytes_sound [] h = tt
all_bytes_sound (b ∷ bs) h = (ground arith, all_bytes_sound bs (ground arith))

abbrev a_segment_header : SegmentHeader
a_segment_header = record {
  project_id = replicate 16 1;
  segment_uid = replicate 16 2;
  salt = replicate 16 3;
  nonce_prefix = replicate 8 4;
  block_count = 1;
  payload_len = 32;
  file_len = 160;
}

a_segment_header-IsValid : SegmentHeader.IsValid a_segment_header
a_segment_header-IsValid = omega arith

segment_header_bytes : all_bytes (SegmentHeader.encode a_segment_header) ≡ true
unfolding all_bytes SegmentHeader.encode copy_at put_u16 put_u32 put_u64 to_le_bytes
segment_header_bytes = refl

parse-encode_segment_header_example :
    SegmentHeader.parse (SegmentHeader.encode a_segment_header) ≡ ok a_segment_header
parse-encode_segment_header_example =
    parse-encode_segment_header a_segment_header a_segment_header-IsValid

encode-parse_segment_header_example :
    SegmentHeader.IsValid a_segment_header
    × (SegmentHeader.encode a_segment_header ≡ take 128 (SegmentHeader.encode a_segment_header))
encode-parse_segment_header_example =
    encode-parse_segment_header (SegmentHeader.encode a_segment_header) a_segment_header
      (all_bytes_sound _ segment_header_bytes) parse-encode_segment_header_example

abbrev a_snapshot_header : SnapshotHeader
a_snapshot_header = record {
  project_id = replicate 16 1;
  release_sequence = 1;
  catalog_stored_len = 16;
  catalog_plain_len = 1;
  page_region_offset = 272;
  page_count = 0;
  snapshot_salt = replicate 16 2;
  nonce_prefix = replicate 8 3;
  signing_key_id = replicate 16 4;
  source_fingerprint = replicate 32 5;
  signature = replicate 64 6;
}

a_snapshot_header-IsValid : SnapshotHeader.IsValid a_snapshot_header
a_snapshot_header-IsValid = omega arith

snapshot_header_bytes : all_bytes (SnapshotHeader.encode a_snapshot_header false) ≡ true
unfolding all_bytes SnapshotHeader.encode copy_at put_u16 put_u32 put_u64 to_le_bytes
snapshot_header_bytes = refl

parse-encode_snapshot_header_example :
    SnapshotHeader.parse (SnapshotHeader.encode a_snapshot_header false) ≡ ok a_snapshot_header
parse-encode_snapshot_header_example =
    parse-encode_snapshot_header a_snapshot_header a_snapshot_header-IsValid

encode-parse_snapshot_header_example :
    SnapshotHeader.IsValid a_snapshot_header
    × (SnapshotHeader.encode a_snapshot_header false
        ≡ take 256 (SnapshotHeader.encode a_snapshot_header false))
encode-parse_snapshot_header_example =
    encode-parse_snapshot_header (SnapshotHeader.encode a_snapshot_header false) a_snapshot_header
      (all_bytes_sound _ snapshot_header_bytes) parse-encode_snapshot_header_example

abbrev a_segment_record : SegmentRecord
a_segment_record = record {
  id = replicate 32 7;
  uid = replicate 16 2;
  salt = replicate 16 3;
  nonce_prefix = replicate 8 4;
  file_len = 160;
  payload_len = 32;
  block_count = 1;
  availability = required;
}

a_segment_record-IsValid : SegmentRecord.IsValid a_segment_record
a_segment_record-IsValid = omega arith

segment_record_bytes :
    all_bytes (SegmentRecord.encode_into a_segment_record (9 ∷ []) ++ (8 ∷ [])) ≡ true
unfolding all_bytes SegmentRecord.encode_into append_record copy_at put_u8 put_u16 put_u32 put_u64
    to_le_bytes availability_code
segment_record_bytes = refl

parse-encode_into_segment_record_example :
    SegmentRecord.parse (SegmentRecord.encode_into a_segment_record (9 ∷ []) ++ (8 ∷ [])) 1
    ≡ ok a_segment_record
parse-encode_into_segment_record_example =
    parse-encode_into_segment_record a_segment_record (9 ∷ []) (8 ∷ []) a_segment_record-IsValid
      (omega arith)

encode_into-parse_segment_record_example :
    SegmentRecord.IsValid a_segment_record
    × (SegmentRecord.encode_into a_segment_record
          (take 1 (SegmentRecord.encode_into a_segment_record (9 ∷ []) ++ (8 ∷ [])))
        ≡ take (1 + 96) (SegmentRecord.encode_into a_segment_record (9 ∷ []) ++ (8 ∷ [])))
encode_into-parse_segment_record_example =
    encode_into-parse_segment_record
      (SegmentRecord.encode_into a_segment_record (9 ∷ []) ++ (8 ∷ [])) 1 a_segment_record
      (all_bytes_sound _ segment_record_bytes) parse-encode_into_segment_record_example

abbrev a_file_record : FileRecord
a_file_record = record {
  path_offset = 0;
  path_len = 1;
  layout = fixed;
  access = hot;
  logical_len = 16;
  first_block = 0;
  block_count = 1;
  fixed_block_len = 16;
}

a_file_record-IsValid : FileRecord.IsValid a_file_record
a_file_record-IsValid = omega arith

file_record_bytes : all_bytes (FileRecord.encode_into a_file_record (9 ∷ []) ++ (8 ∷ [])) ≡ true
unfolding all_bytes FileRecord.encode_into append_record copy_at put_u8 put_u16 put_u32 put_u64
    to_le_bytes layout_code access_code
file_record_bytes = refl

parse-encode_into_file_record_example :
    FileRecord.parse (FileRecord.encode_into a_file_record (9 ∷ []) ++ (8 ∷ [])) 1
    ≡ ok a_file_record
parse-encode_into_file_record_example =
    parse-encode_into_file_record a_file_record (9 ∷ []) (8 ∷ []) a_file_record-IsValid
      (omega arith)

encode_into-parse_file_record_example :
    FileRecord.IsValid a_file_record
    × (FileRecord.encode_into a_file_record
          (take 1 (FileRecord.encode_into a_file_record (9 ∷ []) ++ (8 ∷ [])))
        ≡ take (1 + 32) (FileRecord.encode_into a_file_record (9 ∷ []) ++ (8 ∷ [])))
encode_into-parse_file_record_example =
    encode_into-parse_file_record (FileRecord.encode_into a_file_record (9 ∷ []) ++ (8 ∷ [])) 1
      a_file_record (all_bytes_sound _ file_record_bytes) parse-encode_into_file_record_example

abbrev a_path_slot : PathSlot
a_path_slot = record { hash = 77; file_index = 0 }

a_path_slot-IsValid : PathSlot.IsValid a_path_slot
a_path_slot-IsValid = omega arith

parse-encode_into_path_slot_example :
    PathSlot.parse (PathSlot.encode_into a_path_slot (9 ∷ []) ++ (8 ∷ [])) 1 ≡ ok a_path_slot
parse-encode_into_path_slot_example =
    parse-encode_into_path_slot a_path_slot (9 ∷ []) (8 ∷ []) a_path_slot-IsValid (omega arith)

abbrev a_page_record : PageRecord
a_page_record = record {
  kind = block_map;
  codec = raw;
  nonce_ordinal = 1;
  relative_offset = 0;
  stored_len = 80;
  plain_len = 64;
  digest = replicate 32 0;
}

a_page_record-IsValid : PageRecord.IsValid a_page_record
a_page_record-IsValid = omega arith

page_record_bytes : all_bytes (PageRecord.encode_into a_page_record (9 ∷ []) ++ (8 ∷ [])) ≡ true
unfolding all_bytes PageRecord.encode_into append_record copy_at put_u8 put_u16 put_u32 put_u64
    to_le_bytes page_kind_code codec_code
page_record_bytes = refl

parse-encode_into_page_record_example :
    PageRecord.parse (PageRecord.encode_into a_page_record (9 ∷ []) ++ (8 ∷ [])) 1
    ≡ ok a_page_record
parse-encode_into_page_record_example =
    parse-encode_into_page_record a_page_record (9 ∷ []) (8 ∷ []) a_page_record-IsValid
      (omega arith)

encode_into-parse_page_record_example :
    PageRecord.IsValid a_page_record
    × (PageRecord.encode_into a_page_record
          (take 1 (PageRecord.encode_into a_page_record (9 ∷ []) ++ (8 ∷ [])))
        ≡ take (1 + 64) (PageRecord.encode_into a_page_record (9 ∷ []) ++ (8 ∷ [])))
encode_into-parse_page_record_example =
    encode_into-parse_page_record (PageRecord.encode_into a_page_record (9 ∷ []) ++ (8 ∷ [])) 1
      a_page_record (all_bytes_sound _ page_record_bytes) parse-encode_into_page_record_example

abbrev a_block_ref : BlockRef
a_block_ref = record {
  logical_offset = 0;
  segment_ordinal = 0;
  segment_block_ordinal = 0;
  physical_offset = 128;
  stored_len = 32;
  plain_len = 16;
  codec = raw;
  cipher_digest = replicate 16 4;
}

a_block_ref-IsValid : BlockRef.IsValid a_block_ref
a_block_ref-IsValid = omega arith

block_ref_bytes : all_bytes (BlockRef.encode_into a_block_ref (9 ∷ []) ++ (8 ∷ [])) ≡ true
unfolding all_bytes BlockRef.encode_into append_record copy_at put_u8 put_u16 put_u32 put_u64
    to_le_bytes codec_code
block_ref_bytes = refl

parse-encode_into_block_ref_example :
    BlockRef.parse (BlockRef.encode_into a_block_ref (9 ∷ []) ++ (8 ∷ [])) 1 ≡ ok a_block_ref
parse-encode_into_block_ref_example =
    parse-encode_into_block_ref a_block_ref (9 ∷ []) (8 ∷ []) a_block_ref-IsValid (omega arith)

encode_into-parse_block_ref_example :
    BlockRef.IsValid a_block_ref
    × (BlockRef.encode_into a_block_ref
          (take 1 (BlockRef.encode_into a_block_ref (9 ∷ []) ++ (8 ∷ [])))
        ≡ take (1 + 48) (BlockRef.encode_into a_block_ref (9 ∷ []) ++ (8 ∷ [])))
encode_into-parse_block_ref_example =
    encode_into-parse_block_ref (BlockRef.encode_into a_block_ref (9 ∷ []) ++ (8 ∷ [])) 1
      a_block_ref (all_bytes_sound _ block_ref_bytes) parse-encode_into_block_ref_example

abbrev ok_bytes : Result Bytes → Bytes
ok_bytes (ok b) = b
ok_bytes (err e) = []

abbrev two_blocks : List BlockRef
two_blocks = a_block_ref ∷ a_block_ref ∷ []

parse_map_page-encode_map_page_example :
    (encode_map_page 341 two_blocks >>= λ page. parse_map_page page 341) ≡ ok two_blocks
parse_map_page-encode_map_page_example =
    parse_map_page-encode_map_page 341 two_blocks (omega arith)
      (a_block_ref-IsValid, (a_block_ref-IsValid, tt)) (omega arith) (omega arith)

abbrev two_digests : List Bytes
two_digests = replicate 32 1 ∷ replicate 32 2 ∷ []

parse_reuse_page-encode_reuse_page_example :
    (encode_reuse_page 0 two_digests >>= λ page. parse_reuse_page page 0) ≡ ok two_digests
parse_reuse_page-encode_reuse_page_example =
    parse_reuse_page-encode_reuse_page 0 two_digests (omega arith) (refl, (refl, tt)) (omega arith)
      (omega arith)

-- The bytes of the page with the two references.
abbrev two_blocks_page : Bytes
two_blocks_page = ok_bytes (encode_map_page 341 two_blocks)

two_blocks_page_parses : parse_map_page two_blocks_page 341 ≡ ok two_blocks
unfolding encode_map_page
two_blocks_page_parses = parse_map_page-encode_map_page_example

map_page_record-parse_map_page_example : map_page_record two_blocks_page 1 ≡ ok a_block_ref
map_page_record-parse_map_page_example =
    map_page_record-parse_map_page two_blocks_page 341 1 two_blocks a_block_ref
      two_blocks_page_parses refl
