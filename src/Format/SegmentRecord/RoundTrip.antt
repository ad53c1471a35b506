-- ===== src/Format/SegmentRecord/RoundTrip.antt =====
-- A segment record parses back from its encoding, and an accepted one is the canonical one.
use hakutaku.Prelude.{
  ℕ, ◌+◌, ◌<◌, ◌≡◌, refl, ap, ◌∙◌, sym, List, [], ◌∷◌, ◌++◌, length, All, arith, take,
}
use hakutaku.Wire.{
  Bytes, IsByte, ok, usize_mod, to_le_bytes, put_u8, put_u16, put_u32, put_u64, read_u32, read_u64,
  read_array, byte_at, require_zero, checked_add, checked_slice, append_record,
}
use hakutaku.Wire.Writes.{Write}
use hakutaku.Wire.ReadBack
use hakutaku.Wire.ReadBack.{IsLayout, encoded}
use hakutaku.Wire.Inverse
use hakutaku.Wire.Slices.{take-of_slices, ◌⨾◌}
use hakutaku.Format.Constants.{segment_record_size}
use hakutaku.Format.Enums.{
  availability_code, availability_parse, availability_parse-availability_code,
  availability_code-of_parse,
}
use hakutaku.Prelude.{append_assoc, length-append}
use hakutaku.Wire.{>>=-eq-ok}
use hakutaku.Format.SegmentRecord.{SegmentRecord, parse, parse_record, encode_into, IsValid}

abbrev writes : SegmentRecord → List Write
writes r =
    (0, r.id)
    ∷ (32, r.uid)
    ∷ (48, r.salt)
    ∷ (64, r.nonce_prefix)
    ∷ (72, to_le_bytes 8 r.file_len)
    ∷ (80, to_le_bytes 8 r.payload_len)
    ∷ (88, to_le_bytes 4 r.block_count)
    ∷ (92, availability_code r.availability ∷ [])
    ∷ []

encode_into-writes :
    (r : SegmentRecord) (out : Bytes)
    → encode_into r out ≡ out ++ encoded segment_record_size (writes r)
unfolding encode_into append_record put_u8 put_u16 put_u32 put_u64
encode_into-writes r out = refl

layout : (r : SegmentRecord) → IsValid r → IsLayout segment_record_size (writes r)
unfolding to_le_bytes
layout r v = record { within = omega arith; fits = omega arith }

parse_record-encoded :
    (r : SegmentRecord) → IsValid r → parse_record (encoded segment_record_size (writes r)) ≡ ok r
unfolding parse_record to_le_bytes checked_add
parse_record-encoded r v =
    let l = layout r v in
    ground (
      arith,
      ReadBack.array_back l 0 0 32 refl v.id_len (omega arith),
      ReadBack.array_back l 1 32 16 refl v.uid_len (omega arith),
      ReadBack.array_back l 2 48 16 refl v.salt_len (omega arith),
      ReadBack.array_back l 3 64 8 refl v.nonce_prefix_len (omega arith),
      ReadBack.u64_back l 4 72 r.file_len refl (omega arith) (omega arith),
      ReadBack.u64_back l 5 80 r.payload_len refl (omega arith) (omega arith),
      ReadBack.u32_back l 6 88 r.block_count refl (omega arith) (omega arith),
      ReadBack.byte_back l 7 92 (availability_code r.availability) refl (omega arith),
      availability_parse-availability_code r.availability,
      ReadBack.require_zero_back l 93 96 "segment record reserved fields" (omega arith),
    )

-- What `parse_record` has read when it accepts.
record IsParsed (bytes : Bytes) (r : SegmentRecord) : Type 0 where
  len : length bytes ≡ 96
  id : read_array 32 bytes 0 ≡ ok r.id
  uid : read_array 16 bytes 32 ≡ ok r.uid
  salt : read_array 16 bytes 48 ≡ ok r.salt
  nonce_prefix : read_array 8 bytes 64 ≡ ok r.nonce_prefix
  file_len : read_u64 bytes 72 ≡ ok r.file_len
  payload_len : read_u64 bytes 80 ≡ ok r.payload_len
  block_count : read_u32 bytes 88 ≡ ok r.block_count
  availability : availability_parse (byte_at bytes 92) ≡ ok r.availability
  reserved : require_zero bytes 93 96 "segment record reserved fields" ≡ ok tt

parse_record-IsParsed :
    (bytes : Bytes) (r : SegmentRecord)
    → length bytes ≡ 96
    → parse_record bytes ≡ ok r
    → IsParsed bytes r
unfolding parse_record checked_add
parse_record-IsParsed bytes r len e = record {
  len = len;
  id = ground arith;
  uid = ground arith;
  salt = ground arith;
  nonce_prefix = ground arith;
  file_len = ground arith;
  payload_len = ground arith;
  block_count = ground arith;
  availability = ground arith;
  reserved = ground arith;
}

IsParsed-IsValid :
    (bytes : Bytes) (r : SegmentRecord) → All IsByte bytes → IsParsed bytes r → IsValid r
IsParsed-IsValid bytes r b p = record {
  id_len = Inverse.length-read_array 32 bytes 0 p.id;
  uid_len = Inverse.length-read_array 16 bytes 32 p.uid;
  salt_len = Inverse.length-read_array 16 bytes 48 p.salt;
  nonce_prefix_len = Inverse.length-read_array 8 bytes 64 p.nonce_prefix;
  file_len_u64 = (Inverse.read_u64_inv bytes 72 r.file_len b p.file_len).2;
  payload_len_u64 = (Inverse.read_u64_inv bytes 80 r.payload_len b p.payload_len).2;
  block_count_u32 = (Inverse.read_u32_inv bytes 88 r.block_count b p.block_count).2;
}

encoded-of_parsed :
    (bytes : Bytes) (r : SegmentRecord)
    → All IsByte bytes
    → IsParsed bytes r
    → encoded segment_record_size (writes r) ≡ take segment_record_size bytes
unfolding to_le_bytes
encoded-of_parsed bytes r b p =
    let v = IsParsed-IsValid bytes r b p in
    let l = layout r v in
    take-of_slices (32 ∷ 16 ∷ 16 ∷ 8 ∷ 8 ∷ 8 ∷ 4 ∷ 1 ∷ 3 ∷ [])
      (encoded segment_record_size (writes r)) bytes (ReadBack.length-encoded l)
      (omega (arith, p.len))
      (ReadBack.slice_back l 0 0 32 refl v.id_len (omega arith)
          ∙ sym (Inverse.read_array_inv 32 bytes 0 p.id).1
        ⨾ ReadBack.slice_back l 1 32 16 refl v.uid_len (omega arith)
          ∙ sym (Inverse.read_array_inv 16 bytes 32 p.uid).1
        ⨾ ReadBack.slice_back l 2 48 16 refl v.salt_len (omega arith)
          ∙ sym (Inverse.read_array_inv 16 bytes 48 p.salt).1
        ⨾ ReadBack.slice_back l 3 64 8 refl v.nonce_prefix_len (omega arith)
          ∙ sym (Inverse.read_array_inv 8 bytes 64 p.nonce_prefix).1
        ⨾ ReadBack.word_back l 4 72 8 r.file_len refl (omega arith)
          ∙ sym (Inverse.read_u64_inv bytes 72 r.file_len b p.file_len).1
        ⨾ ReadBack.word_back l 5 80 8 r.payload_len refl (omega arith)
          ∙ sym (Inverse.read_u64_inv bytes 80 r.payload_len b p.payload_len).1
        ⨾ ReadBack.word_back l 6 88 4 r.block_count refl (omega arith)
          ∙ sym (Inverse.read_u32_inv bytes 88 r.block_count b p.block_count).1
        ⨾ ReadBack.slice_back l 7 92 1 refl refl (omega arith)
          ∙ sym (
              Inverse.slice_of_byte bytes 92 (omega (arith, p.len))
                (availability_code-of_parse _ r.availability p.availability))
        ⨾ ReadBack.zeros_back l 93 3 (omega arith) (omega arith)
          ∙ sym (Inverse.require_zero_inv bytes 93 96 "segment record reserved fields" p.reserved).1
        ⨾ tt)

-- `parse` finds a valid segment record at the offset where `encode_into` appended it, whatever follows.
pub parse-encode_into_segment_record :
    (r : SegmentRecord) (out rest : Bytes)
    → IsValid r
    → length out + segment_record_size < usize_mod
    → parse (encode_into r out ++ rest) (length out) ≡ ok r
unfolding parse
parse-encode_into_segment_record r out rest v h =
    rw
      (
        encode_into-writes r out,
        append_assoc out (encoded segment_record_size (writes r)) rest,
        ReadBack.checked_slice-append out (encoded segment_record_size (writes r)) rest 96
            (ReadBack.length-encoded (layout r v)) h,
      )
      (parse_record-encoded r v)

pub length-encode_into_segment_record :
    (r : SegmentRecord) (out : Bytes)
    → IsValid r
    → length (encode_into r out) ≡ length out + segment_record_size
length-encode_into_segment_record r out v = rw (encode_into-writes r out) (
    omega (
      arith,
      length-append out (encoded segment_record_size (writes r)),
      ReadBack.length-encoded (layout r v),
    ))

pub encode_into-append_segment_record :
    (r : SegmentRecord) (out : Bytes) → encode_into r out ≡ out ++ encode_into r []
encode_into-append_segment_record r out = rw (encode_into-writes r out, encode_into-writes r [])

pub parse_bound_segment_record :
    (bytes : Bytes) (offset : ℕ) (r : SegmentRecord)
    → parse bytes offset ≡ ok r
    → offset + segment_record_size < usize_mod
unfolding parse checked_slice checked_add
parse_bound_segment_record bytes offset r e = ground arith

-- A segment record that `parse` accepts is valid, and appending its encoding to the bytes before it
-- gives the bytes that were read.
pub encode_into-parse_segment_record :
    (bytes : Bytes) (offset : ℕ) (r : SegmentRecord)
    → All IsByte bytes
    → parse bytes offset ≡ ok r
    → IsValid r × (encode_into r (take offset bytes) ≡ take (offset + segment_record_size) bytes)
unfolding parse
encode_into-parse_segment_record bytes offset r b e =
    let (s, found, e') =
      >>=-eq-ok (checked_slice bytes offset segment_record_size) parse_record e in
    let c = Inverse.checked_slice_bytes bytes offset segment_record_size b found in
    let p = parse_record-IsParsed s r c.0 e' in
    (
      IsParsed-IsValid s r c.1 p,
      encode_into-writes r (take offset bytes)
          ∙ ap (λ (l : Bytes). take offset bytes ++ l) (encoded-of_parsed s r c.1 p)
          ∙ c.2,
    )
