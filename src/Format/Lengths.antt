-- ===== src/Format/Lengths.antt =====
-- `validate_encoded_length` of crates/core/src/format.rs: the stored length that goes with a plain
-- length, shared by page records and block references.
use hakutaku.Prelude.{
  ℕ, ◌+◌, ◌≤◌, ◌<◌, ◌≡◌, Bool, ◌&&◌, String, ◌==◌, leb, ltb, if◌then◌else◌, arith,
}
use hakutaku.Wire.{Result, ok, err, invalid_format, ◌>>=◌, ok_or, checked_add, u32_mod}
use hakutaku.Format.Enums.{Codec, raw, zstd}

unfoldable pub is_canonical_length : Codec → ℕ → ℕ → Bool
is_canonical_length raw stored_len raw_len = stored_len == raw_len
is_canonical_length zstd stored_len raw_len = leb 16 stored_len && ltb stored_len raw_len

unfoldable pub validate_encoded_length : Codec → ℕ → ℕ → String → Result (Unit {0})
validate_encoded_length codec stored_len plain_len name = do
  raw_len ← ok_or (checked_add u32_mod plain_len 16) (invalid_format name)
  if is_canonical_length codec stored_len raw_len then ok tt else err (invalid_format name)

-- Raw data is stored with its 16-byte tag; compressed data is stored only if it is shorter.
abbrev pub HasStoredLength : Codec → ℕ → ℕ → Type 0
HasStoredLength raw stored_len plain_len = stored_len ≡ plain_len + 16
HasStoredLength zstd stored_len plain_len = (16 ≤ stored_len) × (stored_len < plain_len + 16)

pub validate_encoded_length_lem :
    (c : Codec) (s p : ℕ) (name : String)
    → p + 16 < u32_mod
    → HasStoredLength c s p
    → validate_encoded_length c s p name ≡ ok tt
unfolding validate_encoded_length checked_add is_canonical_length
validate_encoded_length_lem raw s p name h k = ground arith
validate_encoded_length_lem zstd s p name h k = ground arith

pub validate_encoded_length_inv :
    (c : Codec) (s p : ℕ) (name : String)
    → validate_encoded_length c s p name ≡ ok tt
    → HasStoredLength c s p
unfolding validate_encoded_length checked_add is_canonical_length
validate_encoded_length_inv raw s p name e = ground arith
validate_encoded_length_inv zstd s p name e = ground arith
