-- ===== src/Format/BlockRef/RoundTrip.antt =====
-- A block reference parses back from its encoding, and an accepted one is the canonical one.
use hakutaku.Prelude.{
  ℕ, ◌+◌, ◌≤◌, ◌<◌, ◌≡◌, refl, ap, ◌∙◌, sym, List, [], ◌∷◌, ◌++◌, length, All, arith, take,
}
use hakutaku.Wire.{
  Bytes, IsByte, ok, usize_mod, to_le_bytes, put_u8, put_u16, put_u32, put_u64, read_u16, read_u32,
  read_u64, read_array, byte_at, checked_add, checked_slice, append_record,
}
use hakutaku.Wire.Writes.{Write}
use hakutaku.Wire.ReadBack
use hakutaku.Wire.ReadBack.{IsLayout, encoded}
use hakutaku.Wire.Inverse
use hakutaku.Wire.Slices.{take-of_slices, ◌⨾◌}
use hakutaku.Format.Constants.{block_ref_size, max_block_plain_len}
use hakutaku.Format.Lengths.{
  validate_encoded_length, validate_encoded_length_lem, validate_encoded_length_inv,
}
use hakutaku.Format.Enums.{codec_code, codec_parse, codec_parse-codec_code, codec_code-of_parse}
use hakutaku.Prelude.{append_assoc, length-append}
use hakutaku.Wire.{>>=-eq-ok}
use hakutaku.Format.BlockRef.{BlockRef, parse, parse_record, encode_into, IsValid}

abbrev writes : BlockRef → List Write
writes r =
    (0, to_le_bytes 8 r.logical_offset)
    ∷ (8, to_le_bytes 2 r.segment_ordinal)
    ∷ (10, to_le_bytes 4 r.segment_block_ordinal)
    ∷ (14, to_le_bytes 8 r.physical_offset)
    ∷ (22, to_le_bytes 4 r.stored_len)
    ∷ (26, to_le_bytes 4 r.plain_len)
    ∷ (30, codec_code r.codec ∷ [])
    ∷ (32, r.cipher_digest)
    ∷ []

encode_into-writes :
    (r : BlockRef) (out : Bytes) → encode_into r out ≡ out ++ encoded block_ref_size (writes r)
unfolding encode_into append_record put_u8 put_u16 put_u32 put_u64
encode_into-writes r out = refl

layout : (r : BlockRef) → IsValid r → IsLayout block_ref_size (writes r)
unfolding to_le_bytes
layout r v = record { within = omega arith; fits = omega arith }

parse_record-encoded :
    (r : BlockRef) → IsValid r → parse_record (encoded block_ref_size (writes r)) ≡ ok r
unfolding parse_record to_le_bytes checked_add
parse_record-encoded r v =
    let l = layout r v in
    ground (
      arith,
      ReadBack.u64_back l 0 0 r.logical_offset refl (omega arith) (omega arith),
      ReadBack.u16_back l 1 8 r.segment_ordinal refl (omega arith) (omega arith),
      ReadBack.u32_back l 2 10 r.segment_block_ordinal refl (omega arith) (omega arith),
      ReadBack.u64_back l 3 14 r.physical_offset refl (omega arith) (omega arith),
      ReadBack.u32_back l 4 22 r.stored_len refl (omega arith) (omega arith),
      ReadBack.u32_back l 5 26 r.plain_len refl (omega arith) (omega arith),
      ReadBack.byte_back l 6 30 (codec_code r.codec) refl (omega arith),
      codec_parse-codec_code r.codec,
      ReadBack.array_back l 7 32 16 refl v.cipher_digest_len (omega arith),
      ReadBack.zero_byte_back l 31 (omega arith),
      validate_encoded_length_lem r.codec r.stored_len r.plain_len "block encoded length"
          (omega arith) v.stored_length,
    )

-- What `parse_record` has read when it accepts.
record IsParsed (bytes : Bytes) (r : BlockRef) : Type 0 where
  len : length bytes ≡ 48
  logical_offset : read_u64 bytes 0 ≡ ok r.logical_offset
  segment_ordinal : read_u16 bytes 8 ≡ ok r.segment_ordinal
  segment_block_ordinal : read_u32 bytes 10 ≡ ok r.segment_block_ordinal
  physical_offset : read_u64 bytes 14 ≡ ok r.physical_offset
  stored_len : read_u32 bytes 22 ≡ ok r.stored_len
  plain_len : read_u32 bytes 26 ≡ ok r.plain_len
  codec : codec_parse (byte_at bytes 30) ≡ ok r.codec
  cipher_digest : read_array 16 bytes 32 ≡ ok r.cipher_digest
  reserved : byte_at bytes 31 ≡ 0
  plain_min : 0 < r.plain_len
  plain_max : r.plain_len ≤ max_block_plain_len
  lengths : validate_encoded_length r.codec r.stored_len r.plain_len "block encoded length" ≡ ok tt

parse_record-IsParsed :
    (bytes : Bytes) (r : BlockRef)
    → length bytes ≡ 48
    → parse_record bytes ≡ ok r
    → IsParsed bytes r
unfolding parse_record checked_add
parse_record-IsParsed bytes r len e = record {
  len = len;
  logical_offset = ground arith;
  segment_ordinal = ground arith;
  segment_block_ordinal = ground arith;
  physical_offset = ground arith;
  stored_len = ground arith;
  plain_len = ground arith;
  codec = ground arith;
  cipher_digest = ground arith;
  reserved = ground arith;
  plain_min = ground arith;
  plain_max = ground arith;
  lengths = ground arith;
}

IsParsed-IsValid : (bytes : Bytes) (r : BlockRef) → All IsByte bytes → IsParsed bytes r → IsValid r
IsParsed-IsValid bytes r b p = record {
  logical_offset_u64 = (Inverse.read_u64_inv bytes 0 r.logical_offset b p.logical_offset).2;
  segment_ordinal_u16 = (Inverse.read_u16_inv bytes 8 r.segment_ordinal b p.segment_ordinal).2;
  segment_block_ordinal_u32 =
      (Inverse.read_u32_inv bytes 10 r.segment_block_ordinal b p.segment_block_ordinal).2;
  physical_offset_u64 = (Inverse.read_u64_inv bytes 14 r.physical_offset b p.physical_offset).2;
  stored_len_u32 = (Inverse.read_u32_inv bytes 22 r.stored_len b p.stored_len).2;
  plain_len_u32 = (Inverse.read_u32_inv bytes 26 r.plain_len b p.plain_len).2;
  cipher_digest_len = Inverse.length-read_array 16 bytes 32 p.cipher_digest;
  plain_min = p.plain_min;
  plain_max = p.plain_max;
  stored_length =
      validate_encoded_length_inv r.codec r.stored_len r.plain_len "block encoded length" p.lengths;
}

encoded-of_parsed :
    (bytes : Bytes) (r : BlockRef)
    → All IsByte bytes
    → IsParsed bytes r
    → encoded block_ref_size (writes r) ≡ take block_ref_size bytes
unfolding to_le_bytes
encoded-of_parsed bytes r b p =
    let v = IsParsed-IsValid bytes r b p in
    let l = layout r v in
    take-of_slices (8 ∷ 2 ∷ 4 ∷ 8 ∷ 4 ∷ 4 ∷ 1 ∷ 1 ∷ 16 ∷ []) (encoded block_ref_size (writes r))
      bytes (ReadBack.length-encoded l) (omega (arith, p.len))
      (ReadBack.word_back l 0 0 8 r.logical_offset refl (omega arith)
          ∙ sym (Inverse.read_u64_inv bytes 0 r.logical_offset b p.logical_offset).1
        ⨾ ReadBack.word_back l 1 8 2 r.segment_ordinal refl (omega arith)
          ∙ sym (Inverse.read_u16_inv bytes 8 r.segment_ordinal b p.segment_ordinal).1
        ⨾ ReadBack.word_back l 2 10 4 r.segment_block_ordinal refl (omega arith)
          ∙ sym (Inverse.read_u32_inv bytes 10 r.segment_block_ordinal b p.segment_block_ordinal).1
        ⨾ ReadBack.word_back l 3 14 8 r.physical_offset refl (omega arith)
          ∙ sym (Inverse.read_u64_inv bytes 14 r.physical_offset b p.physical_offset).1
        ⨾ ReadBack.word_back l 4 22 4 r.stored_len refl (omega arith)
          ∙ sym (Inverse.read_u32_inv bytes 22 r.stored_len b p.stored_len).1
        ⨾ ReadBack.word_back l 5 26 4 r.plain_len refl (omega arith)
          ∙ sym (Inverse.read_u32_inv bytes 26 r.plain_len b p.plain_len).1
        ⨾ ReadBack.slice_back l 6 30 1 refl refl (omega arith)
          ∙ sym (
              Inverse.slice_of_byte bytes 30 (omega (arith, p.len))
                (codec_code-of_parse _ r.codec p.codec))
        ⨾ ReadBack.zeros_back l 31 1 (omega arith) (omega arith)
          ∙ sym (Inverse.slice_of_byte bytes 31 (omega (arith, p.len)) (sym p.reserved))
        ⨾ ReadBack.slice_back l 7 32 16 refl v.cipher_digest_len (omega arith)
          ∙ sym (Inverse.read_array_inv 16 bytes 32 p.cipher_digest).1
        ⨾ tt)

-- `parse` finds a valid block reference at the offset where `encode_into` appended it, whatever follows.
pub parse-encode_into_block_ref :
    (r : BlockRef) (out rest : Bytes)
    → IsValid r
    → length out + block_ref_size < usize_mod
    → parse (encode_into r out ++ rest) (length out) ≡ ok r
unfolding parse
parse-encode_into_block_ref r out rest v h =
    rw
      (
        encode_into-writes r out,
        append_assoc out (encoded block_ref_size (writes r)) rest,
        ReadBack.checked_slice-append out (encoded block_ref_size (writes r)) rest 48
            (ReadBack.length-encoded (layout r v)) h,
      )
      (parse_record-encoded r v)

pub length-encode_into_block_ref :
    (r : BlockRef) (out : Bytes)
    → IsValid r
    → length (encode_into r out) ≡ length out + block_ref_size
length-encode_into_block_ref r out v = rw (encode_into-writes r out) (
    omega (
      arith,
      length-append out (encoded block_ref_size (writes r)),
      ReadBack.length-encoded (layout r v),
    ))

pub encode_into-append_block_ref :
    (r : BlockRef) (out : Bytes) → encode_into r out ≡ out ++ encode_into r []
encode_into-append_block_ref r out = rw (encode_into-writes r out, encode_into-writes r [])

pub parse_bound_block_ref :
    (bytes : Bytes) (offset : ℕ) (r : BlockRef)
    → parse bytes offset ≡ ok r
    → offset + block_ref_size < usize_mod
unfolding parse checked_slice checked_add
parse_bound_block_ref bytes offset r e = ground arith

-- A block reference that `parse` accepts is valid, and appending its encoding to the bytes before it
-- gives the bytes that were read.
pub encode_into-parse_block_ref :
    (bytes : Bytes) (offset : ℕ) (r : BlockRef)
    → All IsByte bytes
    → parse bytes offset ≡ ok r
    → IsValid r × (encode_into r (take offset bytes) ≡ take (offset + block_ref_size) bytes)
unfolding parse
encode_into-parse_block_ref bytes offset r b e =
    let (s, found, e') = >>=-eq-ok (checked_slice bytes offset block_ref_size) parse_record e in
    let c = Inverse.checked_slice_bytes bytes offset block_ref_size b found in
    let p = parse_record-IsParsed s r c.0 e' in
    (
      IsParsed-IsValid s r c.1 p,
      encode_into-writes r (take offset bytes)
          ∙ ap (λ (l : Bytes). take offset bytes ++ l) (encoded-of_parsed s r c.1 p)
          ∙ c.2,
    )
