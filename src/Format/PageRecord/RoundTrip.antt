-- ===== src/Format/PageRecord/RoundTrip.antt =====
-- A page record parses back from its encoding, and an accepted one is the canonical one.
use hakutaku.Prelude.{
  ℕ, ◌+◌, ◌≤◌, ◌<◌, ◌≡◌, refl, ap, ◌∙◌, sym, List, [], ◌∷◌, ◌++◌, length, All, arith, take,
}
use hakutaku.Wire.{
  Bytes, IsByte, ok, usize_mod, to_le_bytes, put_u8, put_u16, put_u32, put_u64, read_u32, read_u64,
  read_array, byte_at, require_zero, checked_add, checked_slice, append_record,
}
use hakutaku.Wire.Writes.{Write}
use hakutaku.Wire.ReadBack
use hakutaku.Wire.ReadBack.{IsLayout, encoded}
use hakutaku.Wire.Inverse
use hakutaku.Wire.Slices.{take-of_slices, ◌⨾◌}
use hakutaku.Format.Constants.{page_record_size, max_page_plain_len}
use hakutaku.Format.Lengths.{
  validate_encoded_length, validate_encoded_length_lem, validate_encoded_length_inv,
}
use hakutaku.Format.Enums.{
  page_kind_code, page_kind_parse, page_kind_parse-page_kind_code, page_kind_code-of_parse,
  codec_code, codec_parse, codec_parse-codec_code, codec_code-of_parse,
}
use hakutaku.Prelude.{append_assoc, length-append}
use hakutaku.Wire.{>>=-eq-ok}
use hakutaku.Format.PageRecord.{PageRecord, parse, parse_record, encode_into, IsValid}

abbrev writes : PageRecord → List Write
writes r =
    (0, page_kind_code r.kind ∷ [])
    ∷ (1, codec_code r.codec ∷ [])
    ∷ (4, to_le_bytes 4 r.nonce_ordinal)
    ∷ (8, to_le_bytes 8 r.relative_offset)
    ∷ (16, to_le_bytes 4 r.stored_len)
    ∷ (20, to_le_bytes 4 r.plain_len)
    ∷ (24, r.digest)
    ∷ []

encode_into-writes :
    (r : PageRecord) (out : Bytes) → encode_into r out ≡ out ++ encoded page_record_size (writes r)
unfolding encode_into append_record put_u8 put_u16 put_u32 put_u64
encode_into-writes r out = refl

layout : (r : PageRecord) → IsValid r → IsLayout page_record_size (writes r)
unfolding to_le_bytes
layout r v = record { within = omega arith; fits = omega arith }

parse_record-encoded :
    (r : PageRecord) → IsValid r → parse_record (encoded page_record_size (writes r)) ≡ ok r
unfolding parse_record to_le_bytes checked_add
parse_record-encoded r v =
    let l = layout r v in
    ground (
      arith,
      ReadBack.byte_back l 0 0 (page_kind_code r.kind) refl (omega arith),
      page_kind_parse-page_kind_code r.kind,
      ReadBack.byte_back l 1 1 (codec_code r.codec) refl (omega arith),
      codec_parse-codec_code r.codec,
      ReadBack.u32_back l 2 4 r.nonce_ordinal refl (omega arith) (omega arith),
      ReadBack.u64_back l 3 8 r.relative_offset refl (omega arith) (omega arith),
      ReadBack.u32_back l 4 16 r.stored_len refl (omega arith) (omega arith),
      ReadBack.u32_back l 5 20 r.plain_len refl (omega arith) (omega arith),
      ReadBack.array_back l 6 24 32 refl v.digest_len (omega arith),
      ReadBack.require_zero_back l 2 4 "page record reserved fields" (omega arith),
      ReadBack.require_zero_back l 56 64 "page record reserved tail" (omega arith),
      validate_encoded_length_lem r.codec r.stored_len r.plain_len "page encoded length"
          (omega arith) v.stored_length,
    )

-- What `parse_record` has read when it accepts.
record IsParsed (bytes : Bytes) (r : PageRecord) : Type 0 where
  len : length bytes ≡ 64
  kind : page_kind_parse (byte_at bytes 0) ≡ ok r.kind
  codec : codec_parse (byte_at bytes 1) ≡ ok r.codec
  nonce_ordinal : read_u32 bytes 4 ≡ ok r.nonce_ordinal
  relative_offset : read_u64 bytes 8 ≡ ok r.relative_offset
  stored_len : read_u32 bytes 16 ≡ ok r.stored_len
  plain_len : read_u32 bytes 20 ≡ ok r.plain_len
  digest : read_array 32 bytes 24 ≡ ok r.digest
  reserved : require_zero bytes 2 4 "page record reserved fields" ≡ ok tt
  tail : require_zero bytes 56 64 "page record reserved tail" ≡ ok tt
  plain_min : 0 < r.plain_len
  plain_max : r.plain_len ≤ max_page_plain_len
  stored_min : 16 ≤ r.stored_len
  lengths : validate_encoded_length r.codec r.stored_len r.plain_len "page encoded length" ≡ ok tt

parse_record-IsParsed :
    (bytes : Bytes) (r : PageRecord)
    → length bytes ≡ 64
    → parse_record bytes ≡ ok r
    → IsParsed bytes r
unfolding parse_record checked_add
parse_record-IsParsed bytes r len e = record {
  len = len;
  kind = ground arith;
  codec = ground arith;
  nonce_ordinal = ground arith;
  relative_offset = ground arith;
  stored_len = ground arith;
  plain_len = ground arith;
  digest = ground arith;
  reserved = ground arith;
  tail = ground arith;
  plain_min = ground arith;
  plain_max = ground arith;
  stored_min = ground arith;
  lengths = ground arith;
}

IsParsed-IsValid :
    (bytes : Bytes) (r : PageRecord) → All IsByte bytes → IsParsed bytes r → IsValid r
IsParsed-IsValid bytes r b p = record {
  nonce_ordinal_u32 = (Inverse.read_u32_inv bytes 4 r.nonce_ordinal b p.nonce_ordinal).2;
  relative_offset_u64 = (Inverse.read_u64_inv bytes 8 r.relative_offset b p.relative_offset).2;
  stored_len_u32 = (Inverse.read_u32_inv bytes 16 r.stored_len b p.stored_len).2;
  plain_len_u32 = (Inverse.read_u32_inv bytes 20 r.plain_len b p.plain_len).2;
  digest_len = Inverse.length-read_array 32 bytes 24 p.digest;
  plain_min = p.plain_min;
  plain_max = p.plain_max;
  stored_min = p.stored_min;
  stored_length =
      validate_encoded_length_inv r.codec r.stored_len r.plain_len "page encoded length" p.lengths;
}

encoded-of_parsed :
    (bytes : Bytes) (r : PageRecord)
    → All IsByte bytes
    → IsParsed bytes r
    → encoded page_record_size (writes r) ≡ take page_record_size bytes
unfolding to_le_bytes
encoded-of_parsed bytes r b p =
    let v = IsParsed-IsValid bytes r b p in
    let l = layout r v in
    take-of_slices (1 ∷ 1 ∷ 2 ∷ 4 ∷ 8 ∷ 4 ∷ 4 ∷ 32 ∷ 8 ∷ []) (encoded page_record_size (writes r))
      bytes (ReadBack.length-encoded l) (omega (arith, p.len))
      (ReadBack.slice_back l 0 0 1 refl refl (omega arith)
          ∙ sym (
              Inverse.slice_of_byte bytes 0 (omega (arith, p.len))
                (page_kind_code-of_parse _ r.kind p.kind))
        ⨾ ReadBack.slice_back l 1 1 1 refl refl (omega arith)
          ∙ sym (
              Inverse.slice_of_byte bytes 1 (omega (arith, p.len))
                (codec_code-of_parse _ r.codec p.codec))
        ⨾ ReadBack.zeros_back l 2 2 (omega arith) (omega arith)
          ∙ sym (Inverse.require_zero_inv bytes 2 4 "page record reserved fields" p.reserved).1
        ⨾ ReadBack.word_back l 2 4 4 r.nonce_ordinal refl (omega arith)
          ∙ sym (Inverse.read_u32_inv bytes 4 r.nonce_ordinal b p.nonce_ordinal).1
        ⨾ ReadBack.word_back l 3 8 8 r.relative_offset refl (omega arith)
          ∙ sym (Inverse.read_u64_inv bytes 8 r.relative_offset b p.relative_offset).1
        ⨾ ReadBack.word_back l 4 16 4 r.stored_len refl (omega arith)
          ∙ sym (Inverse.read_u32_inv bytes 16 r.stored_len b p.stored_len).1
        ⨾ ReadBack.word_back l 5 20 4 r.plain_len refl (omega arith)
          ∙ sym (Inverse.read_u32_inv bytes 20 r.plain_len b p.plain_len).1
        ⨾ ReadBack.slice_back l 6 24 32 refl v.digest_len (omega arith)
          ∙ sym (Inverse.read_array_inv 32 bytes 24 p.digest).1
        ⨾ ReadBack.zeros_back l 56 8 (omega arith) (omega arith)
          ∙ sym (Inverse.require_zero_inv bytes 56 64 "page record reserved tail" p.tail).1
        ⨾ tt)

-- `parse` finds a valid page record at the offset where `encode_into` appended it, whatever follows.
pub parse-encode_into_page_record :
    (r : PageRecord) (out rest : Bytes)
    → IsValid r
    → length out + page_record_size < usize_mod
    → parse (encode_into r out ++ rest) (length out) ≡ ok r
unfolding parse
parse-encode_into_page_record r out rest v h =
    rw
      (
        encode_into-writes r out,
        append_assoc out (encoded page_record_size (writes r)) rest,
        ReadBack.checked_slice-append out (encoded page_record_size (writes r)) rest 64
            (ReadBack.length-encoded (layout r v)) h,
      )
      (parse_record-encoded r v)

pub length-encode_into_page_record :
    (r : PageRecord) (out : Bytes)
    → IsValid r
    → length (encode_into r out) ≡ length out + page_record_size
length-encode_into_page_record r out v = rw (encode_into-writes r out) (
    omega (
      arith,
      length-append out (encoded page_record_size (writes r)),
      ReadBack.length-encoded (layout r v),
    ))

pub encode_into-append_page_record :
    (r : PageRecord) (out : Bytes) → encode_into r out ≡ out ++ encode_into r []
encode_into-append_page_record r out = rw (encode_into-writes r out, encode_into-writes r [])

pub parse_bound_page_record :
    (bytes : Bytes) (offset : ℕ) (r : PageRecord)
    → parse bytes offset ≡ ok r
    → offset + page_record_size < usize_mod
unfolding parse checked_slice checked_add
parse_bound_page_record bytes offset r e = ground arith

-- A page record that `parse` accepts is valid, and appending its encoding to the bytes before it
-- gives the bytes that were read.
pub encode_into-parse_page_record :
    (bytes : Bytes) (offset : ℕ) (r : PageRecord)
    → All IsByte bytes
    → parse bytes offset ≡ ok r
    → IsValid r × (encode_into r (take offset bytes) ≡ take (offset + page_record_size) bytes)
unfolding parse
encode_into-parse_page_record bytes offset r b e =
    let (s, found, e') = >>=-eq-ok (checked_slice bytes offset page_record_size) parse_record e in
    let c = Inverse.checked_slice_bytes bytes offset page_record_size b found in
    let p = parse_record-IsParsed s r c.0 e' in
    (
      IsParsed-IsValid s r c.1 p,
      encode_into-writes r (take offset bytes)
          ∙ ap (λ (l : Bytes). take offset bytes ++ l) (encoded-of_parsed s r c.1 p)
          ∙ c.2,
    )
