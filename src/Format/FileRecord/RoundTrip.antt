-- ===== src/Format/FileRecord/RoundTrip.antt =====
-- A file record parses back from its encoding, and an accepted one is the canonical one.
use hakutaku.Prelude.{
  ℕ, ◌+◌, ◌<◌, ◌≡◌, refl, ap, ◌∙◌, sym, List, [], ◌∷◌, ◌++◌, length, All, arith, take,
}
use hakutaku.Wire.{
  Bytes, IsByte, ok, usize_mod, to_le_bytes, put_u8, put_u16, put_u32, put_u64, read_u16, read_u32,
  read_u64, byte_at, require_zero, checked_add, checked_slice, append_record,
}
use hakutaku.Wire.Writes.{Write}
use hakutaku.Wire.ReadBack
use hakutaku.Wire.ReadBack.{IsLayout, encoded}
use hakutaku.Wire.Inverse
use hakutaku.Wire.Slices.{take-of_slices, ◌⨾◌}
use hakutaku.Format.Constants.{file_record_size}
use hakutaku.Format.FileRecord.{HasBlockLength}
use hakutaku.Format.Enums.{
  layout_code, layout_parse, layout_parse-layout_code, layout_code-of_parse, access_code,
  access_parse, access_parse-access_code, access_code-of_parse,
}
use hakutaku.Prelude.{append_assoc, length-append}
use hakutaku.Wire.{>>=-eq-ok}
use hakutaku.Format.FileRecord.{FileRecord, parse, parse_record, encode_into, IsValid}

abbrev writes : FileRecord → List Write
writes r =
    (0, to_le_bytes 4 r.path_offset)
    ∷ (4, to_le_bytes 2 r.path_len)
    ∷ (6, layout_code r.layout ∷ [])
    ∷ (7, access_code r.access ∷ [])
    ∷ (8, to_le_bytes 8 r.logical_len)
    ∷ (16, to_le_bytes 4 r.first_block)
    ∷ (20, to_le_bytes 4 r.block_count)
    ∷ (24, to_le_bytes 4 r.fixed_block_len)
    ∷ []

encode_into-writes :
    (r : FileRecord) (out : Bytes) → encode_into r out ≡ out ++ encoded file_record_size (writes r)
unfolding encode_into append_record put_u8 put_u16 put_u32 put_u64
encode_into-writes r out = refl

layout : (r : FileRecord) → IsValid r → IsLayout file_record_size (writes r)
unfolding to_le_bytes
layout r v = record { within = omega arith; fits = omega arith }

parse_record-encoded :
    (r : FileRecord) → IsValid r → parse_record (encoded file_record_size (writes r)) ≡ ok r
unfolding parse_record to_le_bytes checked_add
parse_record-encoded r v =
    let l = layout r v in
    ground (
      arith,
      ReadBack.u32_back l 0 0 r.path_offset refl (omega arith) (omega arith),
      ReadBack.u16_back l 1 4 r.path_len refl (omega arith) (omega arith),
      ReadBack.byte_back l 2 6 (layout_code r.layout) refl (omega arith),
      layout_parse-layout_code r.layout,
      ReadBack.byte_back l 3 7 (access_code r.access) refl (omega arith),
      access_parse-access_code r.access,
      ReadBack.u64_back l 4 8 r.logical_len refl (omega arith) (omega arith),
      ReadBack.u32_back l 5 16 r.first_block refl (omega arith) (omega arith),
      ReadBack.u32_back l 6 20 r.block_count refl (omega arith) (omega arith),
      ReadBack.u32_back l 7 24 r.fixed_block_len refl (omega arith) (omega arith),
      ReadBack.require_zero_back l 28 32 "file record reserved fields" (omega arith),
    )

-- What `parse_record` has read when it accepts.
record IsParsed (bytes : Bytes) (r : FileRecord) : Type 0 where
  len : length bytes ≡ 32
  path_offset : read_u32 bytes 0 ≡ ok r.path_offset
  path_len : read_u16 bytes 4 ≡ ok r.path_len
  layout : layout_parse (byte_at bytes 6) ≡ ok r.layout
  access : access_parse (byte_at bytes 7) ≡ ok r.access
  logical_len : read_u64 bytes 8 ≡ ok r.logical_len
  first_block : read_u32 bytes 16 ≡ ok r.first_block
  block_count : read_u32 bytes 20 ≡ ok r.block_count
  fixed_block_len : read_u32 bytes 24 ≡ ok r.fixed_block_len
  reserved : require_zero bytes 28 32 "file record reserved fields" ≡ ok tt
  block_length : HasBlockLength r.layout r.logical_len r.fixed_block_len

parse_record-IsParsed :
    (bytes : Bytes) (r : FileRecord)
    → length bytes ≡ 32
    → parse_record bytes ≡ ok r
    → IsParsed bytes r
unfolding parse_record checked_add
parse_record-IsParsed bytes r len e = record {
  len = len;
  path_offset = ground arith;
  path_len = ground arith;
  layout = ground arith;
  access = ground arith;
  logical_len = ground arith;
  first_block = ground arith;
  block_count = ground arith;
  fixed_block_len = ground arith;
  reserved = ground arith;
  block_length = ground arith;
}

IsParsed-IsValid :
    (bytes : Bytes) (r : FileRecord) → All IsByte bytes → IsParsed bytes r → IsValid r
IsParsed-IsValid bytes r b p = record {
  path_offset_u32 = (Inverse.read_u32_inv bytes 0 r.path_offset b p.path_offset).2;
  path_len_u16 = (Inverse.read_u16_inv bytes 4 r.path_len b p.path_len).2;
  logical_len_u64 = (Inverse.read_u64_inv bytes 8 r.logical_len b p.logical_len).2;
  first_block_u32 = (Inverse.read_u32_inv bytes 16 r.first_block b p.first_block).2;
  block_count_u32 = (Inverse.read_u32_inv bytes 20 r.block_count b p.block_count).2;
  fixed_block_len_u32 = (Inverse.read_u32_inv bytes 24 r.fixed_block_len b p.fixed_block_len).2;
  block_length = p.block_length;
}

encoded-of_parsed :
    (bytes : Bytes) (r : FileRecord)
    → All IsByte bytes
    → IsParsed bytes r
    → encoded file_record_size (writes r) ≡ take file_record_size bytes
unfolding to_le_bytes
encoded-of_parsed bytes r b p =
    let v = IsParsed-IsValid bytes r b p in
    let l = layout r v in
    take-of_slices (4 ∷ 2 ∷ 1 ∷ 1 ∷ 8 ∷ 4 ∷ 4 ∷ 4 ∷ 4 ∷ []) (encoded file_record_size (writes r))
      bytes (ReadBack.length-encoded l) (omega (arith, p.len))
      (ReadBack.word_back l 0 0 4 r.path_offset refl (omega arith)
          ∙ sym (Inverse.read_u32_inv bytes 0 r.path_offset b p.path_offset).1
        ⨾ ReadBack.word_back l 1 4 2 r.path_len refl (omega arith)
          ∙ sym (Inverse.read_u16_inv bytes 4 r.path_len b p.path_len).1
        ⨾ ReadBack.slice_back l 2 6 1 refl refl (omega arith)
          ∙ sym (
              Inverse.slice_of_byte bytes 6 (omega (arith, p.len))
                (layout_code-of_parse _ r.layout p.layout))
        ⨾ ReadBack.slice_back l 3 7 1 refl refl (omega arith)
          ∙ sym (
              Inverse.slice_of_byte bytes 7 (omega (arith, p.len))
                (access_code-of_parse _ r.access p.access))
        ⨾ ReadBack.word_back l 4 8 8 r.logical_len refl (omega arith)
          ∙ sym (Inverse.read_u64_inv bytes 8 r.logical_len b p.logical_len).1
        ⨾ ReadBack.word_back l 5 16 4 r.first_block refl (omega arith)
          ∙ sym (Inverse.read_u32_inv bytes 16 r.first_block b p.first_block).1
        ⨾ ReadBack.word_back l 6 20 4 r.block_count refl (omega arith)
          ∙ sym (Inverse.read_u32_inv bytes 20 r.block_count b p.block_count).1
        ⨾ ReadBack.word_back l 7 24 4 r.fixed_block_len refl (omega arith)
          ∙ sym (Inverse.read_u32_inv bytes 24 r.fixed_block_len b p.fixed_block_len).1
        ⨾ ReadBack.zeros_back l 28 4 (omega arith) (omega arith)
          ∙ sym (Inverse.require_zero_inv bytes 28 32 "file record reserved fields" p.reserved).1
        ⨾ tt)

-- `parse` finds a valid file record at the offset where `encode_into` appended it, whatever follows.
pub parse-encode_into_file_record :
    (r : FileRecord) (out rest : Bytes)
    → IsValid r
    → length out + file_record_size < usize_mod
    → parse (encode_into r out ++ rest) (length out) ≡ ok r
unfolding parse
parse-encode_into_file_record r out rest v h =
    rw
      (
        encode_into-writes r out,
        append_assoc out (encoded file_record_size (writes r)) rest,
        ReadBack.checked_slice-append out (encoded file_record_size (writes r)) rest 32
            (ReadBack.length-encoded (layout r v)) h,
      )
      (parse_record-encoded r v)

pub length-encode_into_file_record :
    (r : FileRecord) (out : Bytes)
    → IsValid r
    → length (encode_into r out) ≡ length out + file_record_size
length-encode_into_file_record r out v = rw (encode_into-writes r out) (
    omega (
      arith,
      length-append out (encoded file_record_size (writes r)),
      ReadBack.length-encoded (layout r v),
    ))

pub encode_into-append_file_record :
    (r : FileRecord) (out : Bytes) → encode_into r out ≡ out ++ encode_into r []
encode_into-append_file_record r out = rw (encode_into-writes r out, encode_into-writes r [])

pub parse_bound_file_record :
    (bytes : Bytes) (offset : ℕ) (r : FileRecord)
    → parse bytes offset ≡ ok r
    → offset + file_record_size < usize_mod
unfolding parse checked_slice checked_add
parse_bound_file_record bytes offset r e = ground arith

-- A file record that `parse` accepts is valid, and appending its encoding to the bytes before it
-- gives the bytes that were read.
pub encode_into-parse_file_record :
    (bytes : Bytes) (offset : ℕ) (r : FileRecord)
    → All IsByte bytes
    → parse bytes offset ≡ ok r
    → IsValid r × (encode_into r (take offset bytes) ≡ take (offset + file_record_size) bytes)
unfolding parse
encode_into-parse_file_record bytes offset r b e =
    let (s, found, e') = >>=-eq-ok (checked_slice bytes offset file_record_size) parse_record e in
    let c = Inverse.checked_slice_bytes bytes offset file_record_size b found in
    let p = parse_record-IsParsed s r c.0 e' in
    (
      IsParsed-IsValid s r c.1 p,
      encode_into-writes r (take offset bytes)
          ∙ ap (λ (l : Bytes). take offset bytes ++ l) (encoded-of_parsed s r c.1 p)
          ∙ c.2,
    )
