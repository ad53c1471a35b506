-- ===== src/Format/PathSlot.antt =====
-- `PathSlot` of crates/core/src/format.rs: the 8 bytes of a slot of the path index.
pub mod RoundTrip
use hakutaku.Prelude.{
  ℕ, ◌+◌, ◌≤◌, ◌<◌, ◌≡◌, ◌≢◌, ◌&&◌, ◌||◌, ◌^◌, Bool, true, false, not, [], ◌∷◌, length, replicate,
  ◌==◌, leb, ltb, if◌then◌else◌, ◌⊎◌,
}
use hakutaku.Wire.{
  Bytes, Result, ok, err, invalid_format, limit_exceeded, ◌>>=◌, ◌>>◌, guard, checked_slice,
  require_zero, read_u16, read_u32, read_u64, read_array, byte_at, ◌▹◌, copy_at, put_u8, put_u16,
  put_u32, put_u64, append_record,
}
use hakutaku.Format.Constants.{path_slot_size}

pub record PathSlot : Type 0 where
  pub hash : ℕ
  pub file_index : ℕ

-- `parse` behind its `checked_slice`.
unfoldable pub parse_record : Bytes → Result PathSlot
parse_record record_bytes = do
  hash ← read_u32 record_bytes 0
  file_index ← read_u32 record_bytes 4
  ok (record { hash = hash; file_index = file_index })

unfoldable pub parse : Bytes → ℕ → Result PathSlot
parse bytes offset = do
  record_bytes ← checked_slice bytes offset path_slot_size
  parse_record record_bytes

unfoldable pub encode_into : PathSlot → Bytes → Bytes
encode_into r = append_record path_slot_size λ out. out ▹ put_u32 0 r.hash ▹ put_u32 4 r.file_index

-- What the Rust types say of a slot.
pub record IsValid (r : PathSlot) : Type 0 where
  pub hash_u32 : r.hash < 2 ^ 32
  pub file_index_u32 : r.file_index < 2 ^ 32
