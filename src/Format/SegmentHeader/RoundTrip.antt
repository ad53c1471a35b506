-- ===== src/Format/SegmentHeader/RoundTrip.antt =====
-- A segment header parses back from its encoding, and an accepted header is the canonical one.
use hakutaku.Prelude.{◌+◌, ◌≡◌, refl, ◌∙◌, sym, List, [], ◌∷◌, All, arith, take}
use hakutaku.Wire.{
  Bytes, IsByte, ok, require_len, require_magic, to_le_bytes, put_u8, put_u16, put_u32, put_u64,
  read_u16, read_u32, read_u64, read_array, require_zero, checked_add,
}
use hakutaku.Wire.Writes.{Write}
use hakutaku.Wire.ReadBack
use hakutaku.Wire.ReadBack.{IsLayout, encoded}
use hakutaku.Wire.Inverse
use hakutaku.Wire.Slices.{take-of_slices, ◌⨾◌}
use hakutaku.Format.Constants.{segment_header_size, segment_magic, format_major, format_minor}
use hakutaku.Format.SegmentHeader.{SegmentHeader, parse, encode, IsValid}

abbrev writes : SegmentHeader → List Write
writes h =
    (0, segment_magic)
    ∷ (8, to_le_bytes 2 format_major)
    ∷ (10, to_le_bytes 2 format_minor)
    ∷ (12, to_le_bytes 4 segment_header_size)
    ∷ (16, h.project_id)
    ∷ (32, h.segment_uid)
    ∷ (48, h.salt)
    ∷ (64, h.nonce_prefix)
    ∷ (72, to_le_bytes 4 h.block_count)
    ∷ (80, to_le_bytes 8 h.payload_len)
    ∷ (88, to_le_bytes 8 h.file_len)
    ∷ []

encode-writes : (h : SegmentHeader) → encode h ≡ encoded segment_header_size (writes h)
unfolding encode put_u8 put_u16 put_u32 put_u64
encode-writes h = refl

layout : (h : SegmentHeader) → IsValid h → IsLayout segment_header_size (writes h)
unfolding to_le_bytes
layout h v = record { within = omega arith; fits = omega arith }

parse-encoded :
    (h : SegmentHeader) → IsValid h → parse (encoded segment_header_size (writes h)) ≡ ok h
unfolding parse to_le_bytes checked_add
parse-encoded h v =
    let l = layout h v in
    ground (
      arith,
      ReadBack.require_len_back l 128 "segment header" (omega arith),
      ReadBack.require_magic_back l "segment magic" refl refl (omega arith),
      ReadBack.u16_back l 1 8 2 refl (omega arith) (omega arith),
      ReadBack.u16_back l 2 10 0 refl (omega arith) (omega arith),
      ReadBack.u32_back l 3 12 128 refl (omega arith) (omega arith),
      ReadBack.array_back l 4 16 16 refl v.project_id_len (omega arith),
      ReadBack.array_back l 5 32 16 refl v.segment_uid_len (omega arith),
      ReadBack.array_back l 6 48 16 refl v.salt_len (omega arith),
      ReadBack.array_back l 7 64 8 refl v.nonce_prefix_len (omega arith),
      ReadBack.u32_back l 8 72 h.block_count refl (omega arith) (omega arith),
      ReadBack.u64_back l 9 80 h.payload_len refl (omega arith) (omega arith),
      ReadBack.u64_back l 10 88 h.file_len refl (omega arith) (omega arith),
      ReadBack.require_zero_back l 76 80 "segment reserved fields" (omega arith),
      ReadBack.require_zero_back l 96 128 "segment reserved tail" (omega arith),
    )

-- What `parse` has read when it accepts.
record IsParsed (bytes : Bytes) (h : SegmentHeader) : Type 0 where
  len : require_len bytes 128 "segment header" ≡ ok tt
  magic : require_magic bytes segment_magic "segment magic" ≡ ok tt
  major : read_u16 bytes 8 ≡ ok 2
  minor : read_u16 bytes 10 ≡ ok 0
  size : read_u32 bytes 12 ≡ ok 128
  project_id : read_array 16 bytes 16 ≡ ok h.project_id
  segment_uid : read_array 16 bytes 32 ≡ ok h.segment_uid
  salt : read_array 16 bytes 48 ≡ ok h.salt
  nonce_prefix : read_array 8 bytes 64 ≡ ok h.nonce_prefix
  block_count : read_u32 bytes 72 ≡ ok h.block_count
  payload_len : read_u64 bytes 80 ≡ ok h.payload_len
  file_len : read_u64 bytes 88 ≡ ok h.file_len
  reserved : require_zero bytes 76 80 "segment reserved fields" ≡ ok tt
  tail : require_zero bytes 96 128 "segment reserved tail" ≡ ok tt
  sum : h.file_len ≡ 128 + h.payload_len

parse-IsParsed : (bytes : Bytes) (h : SegmentHeader) → parse bytes ≡ ok h → IsParsed bytes h
unfolding parse checked_add
parse-IsParsed bytes h e = record {
  len = ground arith;
  magic = ground arith;
  major = ground arith;
  minor = ground arith;
  size = ground arith;
  project_id = ground arith;
  segment_uid = ground arith;
  salt = ground arith;
  nonce_prefix = ground arith;
  block_count = ground arith;
  payload_len = ground arith;
  file_len = ground arith;
  reserved = ground arith;
  tail = ground arith;
  sum = ground arith;
}

IsParsed-IsValid :
    (bytes : Bytes) (h : SegmentHeader) → All IsByte bytes → IsParsed bytes h → IsValid h
IsParsed-IsValid bytes h b p = record {
  project_id_len = Inverse.length-read_array 16 bytes 16 p.project_id;
  segment_uid_len = Inverse.length-read_array 16 bytes 32 p.segment_uid;
  salt_len = Inverse.length-read_array 16 bytes 48 p.salt;
  nonce_prefix_len = Inverse.length-read_array 8 bytes 64 p.nonce_prefix;
  block_count_u32 = (Inverse.read_u32_inv bytes 72 h.block_count b p.block_count).2;
  payload_len_u64 = (Inverse.read_u64_inv bytes 80 h.payload_len b p.payload_len).2;
  file_len_u64 = (Inverse.read_u64_inv bytes 88 h.file_len b p.file_len).2;
  file_len_sum = p.sum;
}

encoded-of_parsed :
    (bytes : Bytes) (h : SegmentHeader)
    → All IsByte bytes
    → IsParsed bytes h
    → encoded segment_header_size (writes h) ≡ take segment_header_size bytes
unfolding to_le_bytes
encoded-of_parsed bytes h b p =
    let v = IsParsed-IsValid bytes h b p in
    let l = layout h v in
    take-of_slices (8 ∷ 2 ∷ 2 ∷ 4 ∷ 16 ∷ 16 ∷ 16 ∷ 8 ∷ 4 ∷ 4 ∷ 8 ∷ 8 ∷ 32 ∷ [])
      (encoded segment_header_size (writes h)) bytes (ReadBack.length-encoded l)
      (Inverse.require_len_inv bytes 128 "segment header" p.len)
      (ReadBack.slice_back l 0 0 8 refl refl (omega arith)
          ∙ sym (Inverse.require_magic_inv bytes segment_magic "segment magic" p.magic)
        ⨾ ReadBack.word_back l 1 8 2 2 refl (omega arith)
          ∙ sym (Inverse.read_u16_inv bytes 8 2 b p.major).1
        ⨾ ReadBack.word_back l 2 10 2 0 refl (omega arith)
          ∙ sym (Inverse.read_u16_inv bytes 10 0 b p.minor).1
        ⨾ ReadBack.word_back l 3 12 4 128 refl (omega arith)
          ∙ sym (Inverse.read_u32_inv bytes 12 128 b p.size).1
        ⨾ ReadBack.slice_back l 4 16 16 refl v.project_id_len (omega arith)
          ∙ sym (Inverse.read_array_inv 16 bytes 16 p.project_id).1
        ⨾ ReadBack.slice_back l 5 32 16 refl v.segment_uid_len (omega arith)
          ∙ sym (Inverse.read_array_inv 16 bytes 32 p.segment_uid).1
        ⨾ ReadBack.slice_back l 6 48 16 refl v.salt_len (omega arith)
          ∙ sym (Inverse.read_array_inv 16 bytes 48 p.salt).1
        ⨾ ReadBack.slice_back l 7 64 8 refl v.nonce_prefix_len (omega arith)
          ∙ sym (Inverse.read_array_inv 8 bytes 64 p.nonce_prefix).1
        ⨾ ReadBack.word_back l 8 72 4 h.block_count refl (omega arith)
          ∙ sym (Inverse.read_u32_inv bytes 72 h.block_count b p.block_count).1
        ⨾ ReadBack.zeros_back l 76 4 (omega arith) (omega arith)
          ∙ sym (Inverse.require_zero_inv bytes 76 80 "segment reserved fields" p.reserved).1
        ⨾ ReadBack.word_back l 9 80 8 h.payload_len refl (omega arith)
          ∙ sym (Inverse.read_u64_inv bytes 80 h.payload_len b p.payload_len).1
        ⨾ ReadBack.word_back l 10 88 8 h.file_len refl (omega arith)
          ∙ sym (Inverse.read_u64_inv bytes 88 h.file_len b p.file_len).1
        ⨾ ReadBack.zeros_back l 96 32 (omega arith) (omega arith)
          ∙ sym (Inverse.require_zero_inv bytes 96 128 "segment reserved tail" p.tail).1
        ⨾ tt)

-- `parse` gives back every valid segment header that `encode` wrote.
pub parse-encode_segment_header : (h : SegmentHeader) → IsValid h → parse (encode h) ≡ ok h
parse-encode_segment_header h v = rw (encode-writes h) (parse-encoded h v)

-- A segment header that `parse` accepts is valid, and encoding it gives the bytes that were read.
pub encode-parse_segment_header :
    (bytes : Bytes) (h : SegmentHeader)
    → All IsByte bytes
    → parse bytes ≡ ok h
    → IsValid h × (encode h ≡ take segment_header_size bytes)
encode-parse_segment_header bytes h b e =
    let p = parse-IsParsed bytes h e in
    (IsParsed-IsValid bytes h b p, encode-writes h ∙ encoded-of_parsed bytes h b p)
