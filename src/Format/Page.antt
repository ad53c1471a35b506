-- ===== src/Format/Page.antt =====
-- The block-map and reuse pages of crates/core/src/format.rs: a 16-byte header and equal records.
pub mod RoundTrip
use hakutaku.Prelude.{
  ℕ, zero, suc, ◌+◌, ◌-◌, ◌*◌, ◌/◌, ◌%◌, ◌≤◌, ◌<◌, ◌≡◌, ◌&&◌, ◌||◌, Bool, true, false, not, List,
  [], ◌∷◌, ◌++◌, length, drop, take, replicate, ◌==◌, ltb, if◌then◌else◌, All,
}
use hakutaku.Wire.{
  Bytes, Result, ok, err, invalid_format, ◌>>=◌, ◌>>◌, guard, ok_or, checked_add, checked_mul,
  usize_mod, require_len, require_magic, read_u16, read_u32, ◌▹◌, copy_at, put_u16, put_u32,
}
use hakutaku.Format.Constants.{
  page_header_size, block_ref_size, reuse_record_size, blocks_per_map_page, reuse_per_page,
  format_major, map_page_magic, reuse_page_magic,
}
use hakutaku.Format.BlockRef
use hakutaku.Format.BlockRef.{BlockRef}

-- The header that both kinds of pages begin with.
unfoldable pub page_header : Bytes → ℕ → ℕ → Bytes
page_header magic record_size first_record =
    replicate page_header_size 0
    ▹ copy_at 0 magic
    ▹ put_u16 8 format_major
    ▹ put_u16 10 record_size
    ▹ put_u32 12 first_record

-- `for record in records { record.encode_into(&mut out); }`
unfoldable pub append_blocks : List BlockRef → Bytes → Bytes
append_blocks [] out = out
append_blocks (r ∷ records) out = append_blocks records (BlockRef.encode_into r out)

unfoldable pub encode_map_page : ℕ → List BlockRef → Result Bytes
encode_map_page first_record records =
    if length records == 0 || ltb blocks_per_map_page (length records)
    then err (invalid_format "map page record count")
    else ok (append_blocks records (page_header map_page_magic block_ref_size first_record))

-- `for record in records { out.extend_from_slice(record); }`
unfoldable pub append_chunks : List Bytes → Bytes → Bytes
append_chunks [] out = out
append_chunks (r ∷ records) out = append_chunks records (out ++ r)

unfoldable pub encode_reuse_page : ℕ → List Bytes → Result Bytes
encode_reuse_page first_record records =
    if length records == 0 || ltb reuse_per_page (length records)
    then err (invalid_format "reuse page record count")
    else ok (append_chunks records (page_header reuse_page_magic reuse_record_size first_record))

unfoldable pub parse_page_header : Bytes → Bytes → ℕ → ℕ → Result ℕ
parse_page_header bytes magic record_size expected_first = do
  require_len bytes page_header_size "page header"
  require_magic bytes magic "page magic"
  major ← read_u16 bytes 8
  size ← read_u16 bytes 10
  guard (major == format_major && size == record_size)
      (invalid_format "page version or record size")
  first ← read_u32 bytes 12
  guard (first == expected_first) (invalid_format "page first record")
  let payload = length bytes - page_header_size
  guard (not (payload == 0 || not (payload % record_size == 0)))
      (invalid_format "page payload length")
  ok (payload / record_size)

unfoldable pub validate_map_page : Bytes → ℕ → Result ℕ
validate_map_page bytes expected_first =
    parse_page_header bytes map_page_magic block_ref_size expected_first

-- The loop `for index in 0..count`, from `index` with `rounds` left.
unfoldable pub parse_blocks : ℕ → ℕ → Bytes → Result (List BlockRef)
parse_blocks zero index bytes = ok []
parse_blocks (suc rounds) index bytes = do
  r ← BlockRef.parse bytes (page_header_size + index * block_ref_size)
  rest ← parse_blocks rounds (index + 1) bytes
  ok (r ∷ rest)

unfoldable pub parse_map_page : Bytes → ℕ → Result (List BlockRef)
parse_map_page bytes expected_first = do
  count ← validate_map_page bytes expected_first
  parse_blocks count 0 bytes

unfoldable pub map_page_record : Bytes → ℕ → Result BlockRef
map_page_record bytes index = do
  at ← ok_or (checked_mul usize_mod index block_ref_size) (invalid_format "map page index overflow")
  offset ←
      ok_or (checked_add usize_mod page_header_size at) (invalid_format "map page offset overflow")
  BlockRef.parse bytes offset

-- `as_chunks` of the standard library: the whole chunks from the front, with `rounds` to bound them.
unfoldable pub as_chunks : ℕ → ℕ → Bytes → List Bytes
as_chunks zero n bytes = []
as_chunks (suc rounds) n bytes =
    let rest = as_chunks rounds n (drop n bytes) in
    if ltb (length bytes) n then [] else take n bytes ∷ rest

unfoldable pub parse_reuse_page : Bytes → ℕ → Result (List Bytes)
parse_reuse_page bytes expected_first = do
  count ← parse_page_header bytes reuse_page_magic reuse_record_size expected_first
  ok (as_chunks (length bytes) reuse_record_size (drop page_header_size bytes))
