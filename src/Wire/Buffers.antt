-- ===== src/Wire/Buffers.antt =====
-- The byte readers and writers of crates/core/src/format.rs (`checked_slice`, `read_u32`, `put_u32`,
-- `require_zero`, `checked_table_end` and the like). A slice index that the source would panic on
-- does not occur: every write lies inside its buffer.
use hakutaku.Prelude.{
  ℕ, zero, suc, ◌+◌, ◌-◌, ◌*◌, ◌/◌, ◌%◌, ◌^◌, ◌<◌, Bool, true, false, ◌&&◌, Option, none, some,
  String, List, [], ◌∷◌, ◌++◌, ltb, leb, ◌==◌, if◌then◌else◌, length, take, drop, replicate,
}
use hakutaku.Wire.Errors.{Result, ok, err, invalid_format, limit_exceeded, ◌>>=◌, ok_or}

abbrev pub Bytes : Type 0
Bytes = List ℕ

abbrev pub IsByte : ℕ → Type 0
IsByte b = b < 256

-- `checked_add` and `checked_mul` on words below `m`.
unfoldable pub checked_add : ℕ → ℕ → ℕ → Option ℕ
checked_add m a b = if ltb (a + b) m then some (a + b) else none

unfoldable pub checked_mul : ℕ → ℕ → ℕ → Option ℕ
checked_mul m a b = if ltb (a * b) m then some (a * b) else none

abbrev pub u32_mod : ℕ
u32_mod = 2 ^ 32

abbrev pub u64_mod : ℕ
u64_mod = 2 ^ 64

abbrev pub usize_mod : ℕ
usize_mod = 2 ^ 64

-- `bytes.get(start..end)`
unfoldable pub get_range : Bytes → ℕ → ℕ → Option Bytes
get_range bytes start end =
    if leb start end && leb end (length bytes)
    then some (take (end - start) (drop start bytes))
    else none

-- Equality of byte slices.
unfoldable pub bytes_eq : Bytes → Bytes → Bool
bytes_eq [] [] = true
bytes_eq [] (y ∷ ys) = false
bytes_eq (x ∷ xs) [] = false
bytes_eq (x ∷ xs) (y ∷ ys) = x == y && bytes_eq xs ys

-- `u16::from_le_bytes` and its wider siblings, at the width of the slice.
unfoldable pub from_le_bytes : Bytes → ℕ
from_le_bytes [] = 0
from_le_bytes (b ∷ bs) = b + 256 * from_le_bytes bs

-- `to_le_bytes` at a width in bytes.
unfoldable pub to_le_bytes : ℕ → ℕ → Bytes
to_le_bytes zero v = []
to_le_bytes (suc n) v = (v % 256) ∷ to_le_bytes n (v / 256)

unfoldable pub all_zero : Bytes → Bool
all_zero [] = true
all_zero (b ∷ bs) = b == 0 && all_zero bs

unfoldable pub require_len : Bytes → ℕ → String → Result (Unit {0})
require_len bytes minimum name =
    if ltb (length bytes) minimum then err (invalid_format name) else ok tt

unfoldable pub matches_magic : Option Bytes → Bytes → Bool
matches_magic none magic = false
matches_magic (some front) magic = bytes_eq front magic

unfoldable pub require_magic : Bytes → Bytes → String → Result (Unit {0})
unfolding matches_magic
require_magic bytes magic name =
    if matches_magic (get_range bytes 0 8) magic then ok tt else err (invalid_format name)

unfoldable pub require_zero : Bytes → ℕ → ℕ → String → Result (Unit {0})
require_zero bytes start end name = do
  value ← ok_or (get_range bytes start end) (invalid_format name)
  if all_zero value then ok tt else err (invalid_format name)

unfoldable pub checked_slice : Bytes → ℕ → ℕ → Result Bytes
checked_slice bytes offset len = do
  end ← ok_or (checked_add usize_mod offset len) (invalid_format "slice range overflow")
  ok_or (get_range bytes offset end) (invalid_format "slice range is out of bounds")

-- The array length `N` is an argument.
unfoldable pub read_array : ℕ → Bytes → ℕ → Result Bytes
read_array n bytes offset = checked_slice bytes offset n

unfoldable pub read_u16 : Bytes → ℕ → Result ℕ
read_u16 bytes offset = do a ← read_array 2 bytes offset; ok (from_le_bytes a)

unfoldable pub read_u32 : Bytes → ℕ → Result ℕ
read_u32 bytes offset = do a ← read_array 4 bytes offset; ok (from_le_bytes a)

unfoldable pub read_u64 : Bytes → ℕ → Result ℕ
read_u64 bytes offset = do a ← read_array 8 bytes offset; ok (from_le_bytes a)

-- `record[i]`, of a record that has more than `i` bytes.
unfoldable pub byte_at : Bytes → ℕ → ℕ
byte_at [] i = 0
byte_at (b ∷ bs) zero = b
byte_at (b ∷ bs) (suc i) = byte_at bs i

-- `out[offset..offset + source.len()].copy_from_slice(source)`
unfoldable pub copy_at : ℕ → Bytes → Bytes → Bytes
copy_at offset source out = take offset out ++ (source ++ drop (offset + length source) out)

unfoldable pub put_u16 : ℕ → ℕ → Bytes → Bytes
put_u16 offset value = copy_at offset (to_le_bytes 2 value)

unfoldable pub put_u32 : ℕ → ℕ → Bytes → Bytes
put_u32 offset value = copy_at offset (to_le_bytes 4 value)

unfoldable pub put_u64 : ℕ → ℕ → Bytes → Bytes
put_u64 offset value = copy_at offset (to_le_bytes 8 value)

-- `out[offset] = value`
unfoldable pub put_u8 : ℕ → ℕ → Bytes → Bytes
put_u8 offset value = copy_at offset (value ∷ [])

-- Statements in order, each on the buffer that the one before it left.
infixl 2 ◌▹◌
abbrev pub ◌▹◌ : Bytes → (Bytes → Bytes) → Bytes
out ▹ write = write out

-- `let start = out.len(); out.resize(start + size, 0);` and the writes to `out[start..]`.
unfoldable pub append_record : ℕ → (Bytes → Bytes) → Bytes → Bytes
append_record size fill out = out ++ fill (replicate size 0)

unfoldable pub validate_count : ℕ → ℕ → String → Result (Unit {0})
validate_count value maximum name = if ltb maximum value then err (limit_exceeded name) else ok tt

unfoldable pub checked_table_end : ℕ → ℕ → ℕ → Result ℕ
checked_table_end start count record_size = do
  size ← ok_or (checked_mul usize_mod count record_size) (invalid_format "table size overflow")
  ok_or (checked_add usize_mod start size) (invalid_format "table end overflow")

unfoldable pub table_offset : ℕ → ℕ → ℕ → Result ℕ
table_offset start index record_size = checked_table_end start index record_size

unfoldable pub usize_to_u32 : ℕ → Result ℕ
usize_to_u32 value =
    if ltb value u32_mod then ok value else err (invalid_format "value does not fit u32")
