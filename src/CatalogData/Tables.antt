-- ===== src/CatalogData/Tables.antt =====
-- A table of records of one size, behind what its codec promises of one record.
use hakutaku.Prelude.{
  ℕ, zero, suc, ◌+◌, ◌*◌, ◌<◌, ◌≡◌, sym, ap, ◌∙◌, List, [], ◌∷◌, ◌++◌, length, get_elem?, some, All,
  arith, String, leb, false, get_elem?-lt, append_assoc, append-nil,
}
use hakutaku.Wire.{
  Bytes, Result, ok, usize_mod, checked_table_end, checked_mul, checked_add, table_offset,
}
use hakutaku.Format.SegmentRecord
use hakutaku.Format.SegmentRecord.{SegmentRecord}
use hakutaku.Format.SegmentRecord.RoundTrip.{
  parse-encode_into_segment_record, length-encode_into_segment_record,
  encode_into-append_segment_record,
}
use hakutaku.Format.FileRecord
use hakutaku.Format.FileRecord.{FileRecord}
use hakutaku.Format.FileRecord.RoundTrip.{
  parse-encode_into_file_record, length-encode_into_file_record, encode_into-append_file_record,
}
use hakutaku.Format.PathSlot
use hakutaku.Format.PathSlot.{PathSlot}
use hakutaku.Format.PathSlot.RoundTrip.{
  parse-encode_into_path_slot, length-encode_into_path_slot, encode_into-append_path_slot,
}
use hakutaku.Format.PageRecord
use hakutaku.Format.PageRecord.{PageRecord}
use hakutaku.Format.PageRecord.RoundTrip.{
  parse-encode_into_page_record, length-encode_into_page_record, encode_into-append_page_record,
}
use hakutaku.Catalog.{record_at}
use hakutaku.CatalogData.{append_all}

pub table_end_lem :
    (start count size : ℕ)
    → start + count * size < usize_mod
    → checked_table_end start count size ≡ ok (start + count * size)
unfolding checked_table_end checked_mul checked_add
table_end_lem start count size h = ground arith

mul_bound : (i n start size : ℕ) {m : ℕ} → i < n → start + n * size < m → start + i * size < m
mul_bound i n start size lt h = grind arith

-- A record type with the operations and the laws that a table needs.
pub record RecordCodec (A : Type 0) : Type 1 where
  pub size : ℕ
  pub encode_into : A → Bytes → Bytes
  pub parse : Bytes → ℕ → Result A
  pub Valid : A → Type 0
  pub grows : (r : A) (out : Bytes) → Valid r → length (encode_into r out) ≡ length out + size
  pub appends : (r : A) (out : Bytes) → encode_into r out ≡ out ++ encode_into r []
  pub parses :
      (r : A) (out rest : Bytes)
      → Valid r
      → length out + size < usize_mod
      → parse (encode_into r out ++ rest) (length out) ≡ ok r

module _ {A : Type 0} (codec : RecordCodec A) where
  open codec use {size, encode_into, parse, Valid}

  suc_mul : (n : ℕ) → suc n * size ≡ size + n * size
  suc_mul n = grind arith

  pub append_all-append :
      (rs : List A) (out : Bytes)
      → append_all encode_into rs out ≡ out ++ append_all encode_into rs []
  unfolding append_all
  append_all-append [] out = sym (append-nil out)
  append_all-append (r ∷ rs) out =
      append_all-append rs (encode_into r out)
      ∙ rw (codec.appends r out, append_assoc)
          (ap (λ l. out ++ l) (sym (append_all-append rs (encode_into r []))))

  pub length-append_all :
      (rs : List A) (out : Bytes)
      → All Valid rs
      → length (append_all encode_into rs out) ≡ length out + length rs * size
  unfolding append_all
  length-append_all [] out v = omega arith
  length-append_all (r ∷ rs) out (v, vs) =
      omega (
        arith,
        length-append_all rs (encode_into r out) vs,
        codec.grows r out v,
        suc_mul (length rs),
      )

  -- Record `i` of a table that `append_all` wrote is read back, whatever follows.
  pub parse-append_all :
      (rs : List A) (i : ℕ) (r : A) (out rest : Bytes)
      → get_elem? rs i ≡ some r
      → All Valid rs
      → length out + length rs * size < usize_mod
      → parse (append_all encode_into rs out ++ rest) (length out + i * size) ≡ ok r
  unfolding append_all
  parse-append_all [] i r out rest at v h = absurd (cc)
  parse-append_all (x ∷ rs) zero r out rest at (v, vs) h =
      let same : x ≡ r = ground (arith, at) in
      let here : length out + 0 * size ≡ length out = omega arith in
      rw (here, append_all-append rs (encode_into x out), append_assoc, ← same)
        (codec.parses x out (append_all encode_into rs [] ++ rest) v
          (omega (arith, h, suc_mul (length rs))))
  parse-append_all (x ∷ rs) (suc i) r out rest at (v, vs) h =
      let grown = codec.grows x out v in
      let here : length out + suc i * size ≡ length (encode_into x out) + i * size =
        omega (arith, grown, suc_mul i) in
      rw here (
        parse-append_all rs i r (encode_into x out) rest at vs
          (omega (arith, h, grown, suc_mul (length rs))))

  -- The accessor of such a table finds the record.
  pub record_at-append_all :
      (rs : List A) (name : String) (i : ℕ) (r : A) (out rest : Bytes) (start : ℕ)
      → length out ≡ start
      → get_elem? rs i ≡ some r
      → All Valid rs
      → start + length rs * size < usize_mod
      → record_at parse name (append_all encode_into rs out ++ rest) start size (length rs) i ≡ ok r
  unfolding record_at table_offset
  record_at-append_all rs name i r out rest start begins at v h =
      let below = get_elem?-lt rs i r at in
      let in_range : leb (length rs) i ≡ false = ground (arith, below) in
      let fits : start + i * size < usize_mod = mul_bound i (length rs) start size below h in
      rw (in_range, table_end_lem start i size fits, ← begins)
        (parse-append_all rs i r out rest at v (omega (arith, h, begins)))

abbrev pub segment_codec : RecordCodec SegmentRecord
segment_codec = record {
  size = 96;
  encode_into = SegmentRecord.encode_into;
  parse = SegmentRecord.parse;
  Valid = SegmentRecord.IsValid;
  grows = length-encode_into_segment_record;
  appends = encode_into-append_segment_record;
  parses = parse-encode_into_segment_record;
}

abbrev pub file_codec : RecordCodec FileRecord
file_codec = record {
  size = 32;
  encode_into = FileRecord.encode_into;
  parse = FileRecord.parse;
  Valid = FileRecord.IsValid;
  grows = length-encode_into_file_record;
  appends = encode_into-append_file_record;
  parses = parse-encode_into_file_record;
}

abbrev pub slot_codec : RecordCodec PathSlot
slot_codec = record {
  size = 8;
  encode_into = PathSlot.encode_into;
  parse = PathSlot.parse;
  Valid = PathSlot.IsValid;
  grows = length-encode_into_path_slot;
  appends = encode_into-append_path_slot;
  parses = parse-encode_into_path_slot;
}

abbrev pub page_codec : RecordCodec PageRecord
page_codec = record {
  size = 64;
  encode_into = PageRecord.encode_into;
  parse = PageRecord.parse;
  Valid = PageRecord.IsValid;
  grows = length-encode_into_page_record;
  appends = encode_into-append_page_record;
  parses = parse-encode_into_page_record;
}
