-- ===== src/Format/FileRecord.antt =====
-- `FileRecord` of crates/core/src/format.rs: the 32 bytes of an asset in the catalog.
pub mod RoundTrip
use hakutaku.Prelude.{
  ℕ, ◌+◌, ◌≤◌, ◌<◌, ◌≡◌, ◌≢◌, ◌&&◌, ◌||◌, ◌^◌, Bool, true, false, not, [], ◌∷◌, length, replicate,
  ◌==◌, leb, ltb, if◌then◌else◌, ◌⊎◌,
}
use hakutaku.Wire.{
  Bytes, Result, ok, err, invalid_format, limit_exceeded, ◌>>=◌, ◌>>◌, guard, checked_slice,
  require_zero, read_u16, read_u32, read_u64, read_array, byte_at, ◌▹◌, copy_at, put_u8, put_u16,
  put_u32, put_u64, append_record,
}
use hakutaku.Format.Constants.{file_record_size}
use hakutaku.Format.Enums.{
  LayoutKind, fixed, content_defined, layout_code, layout_parse, AccessClass, access_code,
  access_parse,
}

pub record FileRecord : Type 0 where
  pub path_offset : ℕ
  pub path_len : ℕ
  pub layout : LayoutKind
  pub access : AccessClass
  pub logical_len : ℕ
  pub first_block : ℕ
  pub block_count : ℕ
  pub fixed_block_len : ℕ

-- `layout == LayoutKind::Fixed`
unfoldable pub is_fixed : LayoutKind → Bool
is_fixed fixed = true
is_fixed content_defined = false

-- `parse` behind its `checked_slice`.
unfoldable pub parse_record : Bytes → Result FileRecord
unfolding is_fixed
parse_record record_bytes = do
  require_zero record_bytes 28 32 "file record reserved fields"
  path_offset ← read_u32 record_bytes 0
  path_len ← read_u16 record_bytes 4
  layout ← layout_parse (byte_at record_bytes 6)
  access ← access_parse (byte_at record_bytes 7)
  logical_len ← read_u64 record_bytes 8
  first_block ← read_u32 record_bytes 16
  block_count ← read_u32 record_bytes 20
  fixed_block_len ← read_u32 record_bytes 24
  guard (not (is_fixed layout && ltb 0 logical_len && fixed_block_len == 0))
      (invalid_format "fixed layout has zero block length")
  guard (not (not (is_fixed layout) && not (fixed_block_len == 0)))
      (invalid_format "content-defined layout has fixed length")
  ok (record {
    path_offset = path_offset;
    path_len = path_len;
    layout = layout;
    access = access;
    logical_len = logical_len;
    first_block = first_block;
    block_count = block_count;
    fixed_block_len = fixed_block_len;
  })

unfoldable pub parse : Bytes → ℕ → Result FileRecord
parse bytes offset = do
  record_bytes ← checked_slice bytes offset file_record_size
  parse_record record_bytes

unfoldable pub encode_into : FileRecord → Bytes → Bytes
encode_into r = append_record file_record_size λ out.
    out
    ▹ put_u32 0 r.path_offset
    ▹ put_u16 4 r.path_len
    ▹ put_u8 6 (layout_code r.layout)
    ▹ put_u8 7 (access_code r.access)
    ▹ put_u64 8 r.logical_len
    ▹ put_u32 16 r.first_block
    ▹ put_u32 20 r.block_count
    ▹ put_u32 24 r.fixed_block_len

-- A non-empty fixed layout has a block length, and a content-defined layout has none.
abbrev pub HasBlockLength : LayoutKind → ℕ → ℕ → Type 0
HasBlockLength fixed logical_len fixed_block_len = 0 < logical_len → 0 < fixed_block_len
HasBlockLength content_defined logical_len fixed_block_len = fixed_block_len ≡ 0

-- What the Rust types say of a record, and the rule for its block length.
pub record IsValid (r : FileRecord) : Type 0 where
  pub path_offset_u32 : r.path_offset < 2 ^ 32
  pub path_len_u16 : r.path_len < 2 ^ 16
  pub logical_len_u64 : r.logical_len < 2 ^ 64
  pub first_block_u32 : r.first_block < 2 ^ 32
  pub block_count_u32 : r.block_count < 2 ^ 32
  pub fixed_block_len_u32 : r.fixed_block_len < 2 ^ 32
  pub block_length : HasBlockLength r.layout r.logical_len r.fixed_block_len
