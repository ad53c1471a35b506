-- ===== src/Crypto.antt =====
-- crates/core/src/crypto.rs: the bytes that the program hands to the ciphers and hashes, and what it
-- does with their answers. BLAKE3 and Ed25519 are parameters: `hash`, `keyed_hash` with its key,
-- `derive_key` with its context, and `verify`. An update of a hasher appends to what it hashes.
pub mod Parts
pub mod Contexts
pub mod Keys
mod Tests
use hakutaku.Prelude.{
  ℕ, ◌+◌, ◌-◌, Bool, true, false, not, List, [], ◌∷◌, ◌++◌, length, replicate, take, ltb,
  if◌then◌else◌,
}
use hakutaku.Wire.{
  Bytes, Result, ok, err, signature, ◌>>=◌, ◌>>◌, guard, u64_mod, to_le_bytes, copy_at, bytes_eq,
  ◌▹◌,
}
use hakutaku.Format.Enums.{Codec, PageKind, codec_code, page_kind_code}
use hakutaku.Format.SnapshotHeader
use hakutaku.Format.SnapshotHeader.{SnapshotHeader}
use hakutaku.Format.SegmentHeader.{SegmentHeader}

-- b"Hakutaku project master v2"
abbrev pub master_context : Bytes
master_context =
    b'H' ∷ b'a' ∷ b'k' ∷ b'u' ∷ b't' ∷ b'a' ∷ b'k' ∷ b'u' ∷ 32 ∷ b'p' ∷ b'r' ∷ b'o' ∷ b'j' ∷ b'e'
    ∷ b'c' ∷ b't' ∷ 32 ∷ b'm' ∷ b'a' ∷ b's' ∷ b't' ∷ b'e' ∷ b'r' ∷ 32 ∷ b'v' ∷ b'2' ∷ []

-- b"Hakutaku snapshot signature v2"
abbrev pub snapshot_signature_domain : Bytes
snapshot_signature_domain =
    b'H' ∷ b'a' ∷ b'k' ∷ b'u' ∷ b't' ∷ b'a' ∷ b'k' ∷ b'u' ∷ 32 ∷ b's' ∷ b'n' ∷ b'a' ∷ b'p' ∷ b's'
    ∷ b'h' ∷ b'o' ∷ b't' ∷ 32 ∷ b's' ∷ b'i' ∷ b'g' ∷ b'n' ∷ b'a' ∷ b't' ∷ b'u' ∷ b'r' ∷ b'e' ∷ 32
    ∷ b'v' ∷ b'2' ∷ []

-- b"Hakutaku catalog aad v2"
abbrev pub catalog_aad_domain : Bytes
catalog_aad_domain =
    b'H' ∷ b'a' ∷ b'k' ∷ b'u' ∷ b't' ∷ b'a' ∷ b'k' ∷ b'u' ∷ 32 ∷ b'c' ∷ b'a' ∷ b't' ∷ b'a' ∷ b'l'
    ∷ b'o' ∷ b'g' ∷ 32 ∷ b'a' ∷ b'a' ∷ b'd' ∷ 32 ∷ b'v' ∷ b'2' ∷ []

-- b"Hakutaku page aad v2"
abbrev pub page_aad_domain : Bytes
page_aad_domain =
    b'H' ∷ b'a' ∷ b'k' ∷ b'u' ∷ b't' ∷ b'a' ∷ b'k' ∷ b'u' ∷ 32 ∷ b'p' ∷ b'a' ∷ b'g' ∷ b'e' ∷ 32
    ∷ b'a' ∷ b'a' ∷ b'd' ∷ 32 ∷ b'v' ∷ b'2' ∷ []

-- b"Hakutaku block aad v2"
abbrev pub block_aad_domain : Bytes
block_aad_domain =
    b'H' ∷ b'a' ∷ b'k' ∷ b'u' ∷ b't' ∷ b'a' ∷ b'k' ∷ b'u' ∷ 32 ∷ b'b' ∷ b'l' ∷ b'o' ∷ b'c' ∷ b'k'
    ∷ 32 ∷ b'a' ∷ b'a' ∷ b'd' ∷ 32 ∷ b'v' ∷ b'2' ∷ []

-- b"snapshot"
abbrev pub snapshot_domain : Bytes
snapshot_domain = b's' ∷ b'n' ∷ b'a' ∷ b'p' ∷ b's' ∷ b'h' ∷ b'o' ∷ b't' ∷ []

-- b"segment"
abbrev pub segment_domain : Bytes
segment_domain = b's' ∷ b'e' ∷ b'g' ∷ b'm' ∷ b'e' ∷ b'n' ∷ b't' ∷ []

-- b"path"
abbrev pub path_domain : Bytes
path_domain = b'p' ∷ b'a' ∷ b't' ∷ b'h' ∷ []

-- The loop of `encode_aad`, with the parts that are left.
unfoldable pub encode_parts : List Bytes → ℕ → Bytes → Bytes
encode_parts [] offset encoded = encoded
encode_parts (part ∷ parts) offset encoded =
    encode_parts parts (offset + length part) (copy_at offset part encoded)

-- The array length `N` is an argument.
unfoldable pub encode_aad : ℕ → List Bytes → Bytes
unfolding encode_parts
encode_aad n parts = encode_parts parts 0 (replicate n 0)

abbrev pub catalog_aad_len : ℕ
catalog_aad_len = length catalog_aad_domain + 16 + 8 + 8 + 8 + 4

abbrev pub page_aad_len : ℕ
page_aad_len = length page_aad_domain + 16 + 8 + 1 + 1 + 4 + 4 + 4

abbrev pub block_aad_len : ℕ
block_aad_len = length block_aad_domain + 16 + 16 + 4 + 1 + 4 + 4

unfoldable pub page_aad : Bytes → ℕ → PageKind → Codec → ℕ → ℕ → ℕ → Bytes
unfolding encode_aad
page_aad project_id release_sequence kind codec nonce_ordinal stored_len plain_len =
    encode_aad page_aad_len (
      page_aad_domain
      ∷ project_id
      ∷ to_le_bytes 8 release_sequence
      ∷ (page_kind_code kind ∷ [])
      ∷ (codec_code codec ∷ [])
      ∷ to_le_bytes 4 nonce_ordinal
      ∷ to_le_bytes 4 stored_len
      ∷ to_le_bytes 4 plain_len
      ∷ [])

unfoldable pub block_aad : Bytes → Bytes → ℕ → Codec → ℕ → ℕ → Bytes
unfolding encode_aad
block_aad project_id segment_uid block_ordinal codec stored_len plain_len =
    encode_aad block_aad_len (
      block_aad_domain
      ∷ project_id
      ∷ segment_uid
      ∷ to_le_bytes 4 block_ordinal
      ∷ (codec_code codec ∷ [])
      ∷ to_le_bytes 4 stored_len
      ∷ to_le_bytes 4 plain_len
      ∷ [])

unfoldable pub catalog_aad : SnapshotHeader → Bytes
unfolding encode_aad
catalog_aad header = encode_aad catalog_aad_len (
    catalog_aad_domain
    ∷ header.project_id
    ∷ to_le_bytes 8 header.release_sequence
    ∷ to_le_bytes 8 header.catalog_stored_len
    ∷ to_le_bytes 8 header.catalog_plain_len
    ∷ to_le_bytes 4 header.page_count
    ∷ [])

unfoldable pub nonce : Bytes → ℕ → Bytes
nonce prefix ordinal = replicate 12 0 ▹ copy_at 0 prefix ▹ copy_at 8 (to_le_bytes 4 ordinal)

-- The loop of `derive`: each field behind its length, saturated at 64 bits.
unfoldable pub update_fields : List Bytes → Bytes → Bytes
update_fields [] hashed = hashed
update_fields (field ∷ fields) hashed = update_fields fields (
    hashed
    ++ to_le_bytes 8 (if ltb (length field) u64_mod then length field else (u64_mod - 1))
    ++ field)

-- All that `derive` hashes under the master key.
unfoldable pub derive_input : Bytes → List Bytes → Bytes
unfolding update_fields
derive_input domain fields = update_fields fields domain

module _ (keyed_hash : Bytes → Bytes → Bytes) (derive_key : Bytes → Bytes → Bytes) where
  -- `ProjectKeys::new`; the keys are the master key.
  unfoldable pub project_keys : Bytes → Bytes → Bytes
  project_keys root_key project_id =
      derive_key master_context (replicate 48 0 ▹ copy_at 0 root_key ▹ copy_at 32 project_id)

  unfoldable pub derive : Bytes → Bytes → List Bytes → Bytes
  unfolding derive_input
  derive master domain fields = keyed_hash master (derive_input domain fields)

  unfoldable pub snapshot_key : Bytes → Bytes → Bytes
  unfolding derive
  snapshot_key master salt = derive master snapshot_domain (salt ∷ [])

  unfoldable pub segment_key : Bytes → SegmentHeader → Bytes
  unfolding derive
  segment_key master header = derive master segment_domain (header.segment_uid ∷ header.salt ∷ [])

  unfoldable pub path_key : Bytes → Bytes
  unfolding derive
  path_key master = derive master path_domain []

module _ (hash : Bytes → Bytes) where
  unfoldable pub signing_key_id : Bytes → Bytes
  signing_key_id public_key = take 16 (hash public_key)

  unfoldable pub snapshot_signature_message : Bytes → Bytes → Bytes
  snapshot_signature_message zeroed_header catalog_ciphertext =
      snapshot_signature_domain ++ hash (zeroed_header ++ catalog_ciphertext)

  module _ (verify : Bytes → Bytes → Bytes → Bool) where
    unfoldable pub verify_snapshot_signature : SnapshotHeader → Bytes → Bytes → Result (Unit {0})
    unfolding signing_key_id snapshot_signature_message
    verify_snapshot_signature header catalog_ciphertext public_key = do
      guard (bytes_eq (signing_key_id public_key) header.signing_key_id) signature
      let message =
          snapshot_signature_message (SnapshotHeader.encode header true) catalog_ciphertext
      guard (verify public_key message header.signature) signature
