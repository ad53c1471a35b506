-- ===== src/Catalog/View.antt =====
-- The fields of `Catalog`, and its accessors: a table's record `i` is decoded when it is asked for.
use hakutaku.Prelude.{
  ℕ, zero, suc, ◌*◌, ◌||◌, Bool, false, not, Option, none, some, ◌==◌, leb, String,
}
use hakutaku.Utf8.{is_utf8}
use hakutaku.Wire.{
  Bytes, Result, ok, invalid_format, ◌>>=◌, ◌>>◌, guard, ok_or, checked_add, usize_mod,
  checked_slice, table_offset,
}
use hakutaku.Format.Constants.{
  segment_record_size, file_record_size, path_slot_size, page_record_size,
}
use hakutaku.Format.SegmentRecord
use hakutaku.Format.SegmentRecord.{SegmentRecord}
use hakutaku.Format.FileRecord
use hakutaku.Format.FileRecord.{FileRecord}
use hakutaku.Format.PathSlot
use hakutaku.Format.PathSlot.{PathSlot}
use hakutaku.Format.PageRecord
use hakutaku.Format.PageRecord.{PageRecord}

pub record Catalog : Type 0 where
  pub bytes : Bytes
  pub segment_count : ℕ
  pub file_count : ℕ
  pub total_blocks : ℕ
  pub path_pool_len : ℕ
  pub path_slot_count : ℕ
  pub page_count : ℕ
  pub map_page_count : ℕ
  pub reuse_page_count : ℕ
  pub segment_offset : ℕ
  pub file_offset : ℕ
  pub path_slot_offset : ℕ
  pub path_pool_offset : ℕ
  pub page_offset : ℕ

-- `is_power_of_two`, for a number of at most 64 bits: one of the powers from `power` on is `n`.
unfoldable pub power_from : ℕ → ℕ → ℕ → Bool
power_from zero power n = false
power_from (suc rounds) power n = power == n || power_from rounds (2 * power) n

unfoldable pub is_power_of_two : ℕ → Bool
unfolding power_from
is_power_of_two n = power_from 64 1 n

-- `sum == Some(n)`
unfoldable pub is_sum : Option ℕ → ℕ → Bool
is_sum none n = false
is_sum (some sum) n = sum == n

-- An accessor of a table: the bound of its index, the place of the record, and its `parse`.
unfoldable pub record_at :
    {A : Type 0} → (Bytes → ℕ → Result A) → String → Bytes → ℕ → ℕ → ℕ → ℕ → Result A
record_at parse name bytes start size count index = do
  guard (not (leb count index)) (invalid_format name)
  offset ← table_offset start index size
  parse bytes offset

unfoldable pub segment : Catalog → ℕ → Result SegmentRecord
unfolding record_at
segment c index =
    record_at SegmentRecord.parse "segment index" c.bytes c.segment_offset segment_record_size
      c.segment_count index

unfoldable pub file : Catalog → ℕ → Result FileRecord
unfolding record_at
file c index =
    record_at FileRecord.parse "file index" c.bytes c.file_offset file_record_size c.file_count
      index

unfoldable pub path_slot : Catalog → ℕ → Result PathSlot
unfolding record_at
path_slot c index =
    record_at PathSlot.parse "path slot index" c.bytes c.path_slot_offset path_slot_size
      c.path_slot_count index

unfoldable pub page : Catalog → ℕ → Result PageRecord
unfolding record_at
page c index =
    record_at PageRecord.parse "page index" c.bytes c.page_offset page_record_size c.page_count
      index

-- `Catalog::path`, with the bytes of the `str`.
unfoldable pub path : Catalog → ℕ → Result Bytes
path c file_index = do
  f ← file c file_index
  start ←
      ok_or (checked_add usize_mod c.path_pool_offset f.path_offset)
        (invalid_format "path offset overflow")
  name ← checked_slice c.bytes start f.path_len
  guard (is_utf8 name) (invalid_format "path is not UTF-8")
  ok name
