-- ===== src/Format/PathSlot/RoundTrip.antt =====
-- A path slot parses back from its encoding, and an accepted one is the canonical one.
use hakutaku.Prelude.{
  ℕ, ◌+◌, ◌<◌, ◌≡◌, refl, ap, ◌∙◌, sym, List, [], ◌∷◌, ◌++◌, length, All, arith, take,
}
use hakutaku.Wire.{
  Bytes, IsByte, ok, usize_mod, to_le_bytes, put_u8, put_u16, put_u32, put_u64, read_u32,
  checked_add, checked_slice, append_record,
}
use hakutaku.Wire.Writes.{Write}
use hakutaku.Wire.ReadBack
use hakutaku.Wire.ReadBack.{IsLayout, encoded}
use hakutaku.Wire.Inverse
use hakutaku.Wire.Slices.{take-of_slices, ◌⨾◌}
use hakutaku.Format.Constants.{path_slot_size}
use hakutaku.Prelude.{append_assoc, length-append}
use hakutaku.Wire.{>>=-eq-ok}
use hakutaku.Format.PathSlot.{PathSlot, parse, parse_record, encode_into, IsValid}

abbrev writes : PathSlot → List Write
writes r = (0, to_le_bytes 4 r.hash) ∷ (4, to_le_bytes 4 r.file_index) ∷ []

encode_into-writes :
    (r : PathSlot) (out : Bytes) → encode_into r out ≡ out ++ encoded path_slot_size (writes r)
unfolding encode_into append_record put_u8 put_u16 put_u32 put_u64
encode_into-writes r out = refl

layout : (r : PathSlot) → IsValid r → IsLayout path_slot_size (writes r)
unfolding to_le_bytes
layout r v = record { within = omega arith; fits = omega arith }

parse_record-encoded :
    (r : PathSlot) → IsValid r → parse_record (encoded path_slot_size (writes r)) ≡ ok r
unfolding parse_record to_le_bytes checked_add
parse_record-encoded r v =
    let l = layout r v in
    ground (
      arith,
      ReadBack.u32_back l 0 0 r.hash refl (omega arith) (omega arith),
      ReadBack.u32_back l 1 4 r.file_index refl (omega arith) (omega arith),
    )

-- What `parse_record` has read when it accepts.
record IsParsed (bytes : Bytes) (r : PathSlot) : Type 0 where
  len : length bytes ≡ 8
  hash : read_u32 bytes 0 ≡ ok r.hash
  file_index : read_u32 bytes 4 ≡ ok r.file_index

parse_record-IsParsed :
    (bytes : Bytes) (r : PathSlot) → length bytes ≡ 8 → parse_record bytes ≡ ok r → IsParsed bytes r
unfolding parse_record checked_add
parse_record-IsParsed bytes r len e = record {
  len = len;
  hash = ground arith;
  file_index = ground arith;
}

IsParsed-IsValid : (bytes : Bytes) (r : PathSlot) → All IsByte bytes → IsParsed bytes r → IsValid r
IsParsed-IsValid bytes r b p = record {
  hash_u32 = (Inverse.read_u32_inv bytes 0 r.hash b p.hash).2;
  file_index_u32 = (Inverse.read_u32_inv bytes 4 r.file_index b p.file_index).2;
}

encoded-of_parsed :
    (bytes : Bytes) (r : PathSlot)
    → All IsByte bytes
    → IsParsed bytes r
    → encoded path_slot_size (writes r) ≡ take path_slot_size bytes
unfolding to_le_bytes
encoded-of_parsed bytes r b p =
    let v = IsParsed-IsValid bytes r b p in
    let l = layout r v in
    take-of_slices (4 ∷ 4 ∷ []) (encoded path_slot_size (writes r)) bytes
      (ReadBack.length-encoded l) (omega (arith, p.len))
      (ReadBack.word_back l 0 0 4 r.hash refl (omega arith)
          ∙ sym (Inverse.read_u32_inv bytes 0 r.hash b p.hash).1
        ⨾ ReadBack.word_back l 1 4 4 r.file_index refl (omega arith)
          ∙ sym (Inverse.read_u32_inv bytes 4 r.file_index b p.file_index).1
        ⨾ tt)

-- `parse` finds a valid path slot at the offset where `encode_into` appended it, whatever follows.
pub parse-encode_into_path_slot :
    (r : PathSlot) (out rest : Bytes)
    → IsValid r
    → length out + path_slot_size < usize_mod
    → parse (encode_into r out ++ rest) (length out) ≡ ok r
unfolding parse
parse-encode_into_path_slot r out rest v h =
    rw
      (
        encode_into-writes r out,
        append_assoc out (encoded path_slot_size (writes r)) rest,
        ReadBack.checked_slice-append out (encoded path_slot_size (writes r)) rest 8
            (ReadBack.length-encoded (layout r v)) h,
      )
      (parse_record-encoded r v)

pub length-encode_into_path_slot :
    (r : PathSlot) (out : Bytes)
    → IsValid r
    → length (encode_into r out) ≡ length out + path_slot_size
length-encode_into_path_slot r out v = rw (encode_into-writes r out) (
    omega (
      arith,
      length-append out (encoded path_slot_size (writes r)),
      ReadBack.length-encoded (layout r v),
    ))

pub encode_into-append_path_slot :
    (r : PathSlot) (out : Bytes) → encode_into r out ≡ out ++ encode_into r []
encode_into-append_path_slot r out = rw (encode_into-writes r out, encode_into-writes r [])

pub parse_bound_path_slot :
    (bytes : Bytes) (offset : ℕ) (r : PathSlot)
    → parse bytes offset ≡ ok r
    → offset + path_slot_size < usize_mod
unfolding parse checked_slice checked_add
parse_bound_path_slot bytes offset r e = ground arith

-- A path slot that `parse` accepts is valid, and appending its encoding to the bytes before it
-- gives the bytes that were read.
encode_into-parse_path_slot :
    (bytes : Bytes) (offset : ℕ) (r : PathSlot)
    → All IsByte bytes
    → parse bytes offset ≡ ok r
    → IsValid r × (encode_into r (take offset bytes) ≡ take (offset + path_slot_size) bytes)
unfolding parse
encode_into-parse_path_slot bytes offset r b e =
    let (s, found, e') = >>=-eq-ok (checked_slice bytes offset path_slot_size) parse_record e in
    let c = Inverse.checked_slice_bytes bytes offset path_slot_size b found in
    let p = parse_record-IsParsed s r c.0 e' in
    (
      IsParsed-IsValid s r c.1 p,
      encode_into-writes r (take offset bytes)
          ∙ ap (λ (l : Bytes). take offset bytes ++ l) (encoded-of_parsed s r c.1 p)
          ∙ c.2,
    )
