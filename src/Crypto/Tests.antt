-- ===== src/Crypto/Tests.antt =====
-- Runs of the byte layouts of crypto.rs.
use hakutaku.Prelude.{ℕ, ◌≡◌, refl, List, [], ◌∷◌, replicate, drop, length, ◌<◌, All, arith}
use hakutaku.Wire.{Bytes, u64_mod, to_le_bytes, copy_at}
use hakutaku.Format.Enums.{block_map, raw, codec_code, page_kind_code}
use hakutaku.Format.SnapshotHeader
use hakutaku.Format.SnapshotHeader.{SnapshotHeader}
use hakutaku.Crypto.{
  page_aad, catalog_aad, snapshot_signature_message, encode_aad, encode_parts, snapshot_domain,
}
use hakutaku.Crypto.Contexts.{
  AreSeparate, PageContext, IsPageContext, BlockContext, IsBlockContext, page_bytes, block_bytes,
  page_aad_inj, block_aad_inj, aads_ne,
}
use hakutaku.Crypto.Keys.{nonce_inj, derive_input_inj}

abbrev a_page : PageContext
a_page = record {
  project_id = replicate 16 1;
  release_sequence = 7;
  kind = block_map;
  codec = raw;
  nonce_ordinal = 2;
  stored_len = 80;
  plain_len = 64;
}

a_page-IsPageContext : IsPageContext a_page
a_page-IsPageContext = omega arith

-- The ordinal and the lengths are the last twelve bytes.
page_tail : drop 46 (page_bytes a_page) ≡ 2 ∷ 0 ∷ 0 ∷ 0 ∷ 80 ∷ 0 ∷ 0 ∷ 0 ∷ 64 ∷ 0 ∷ 0 ∷ 0 ∷ []
unfolding page_aad encode_aad encode_parts copy_at to_le_bytes page_kind_code codec_code
page_tail = refl

page_aad_inj_example : a_page ≡ a_page
page_aad_inj_example = page_aad_inj a_page a_page a_page-IsPageContext a_page-IsPageContext refl

abbrev a_block : BlockContext
a_block = record {
  project_id = replicate 16 1;
  segment_uid = replicate 16 2;
  block_ordinal = 3;
  codec = raw;
  stored_len = 80;
  plain_len = 64;
}

a_block-IsBlockContext : IsBlockContext a_block
a_block-IsBlockContext = omega arith

block_aad_inj_example : a_block ≡ a_block
block_aad_inj_example =
    block_aad_inj a_block a_block a_block-IsBlockContext a_block-IsBlockContext refl

abbrev a_snapshot_header : SnapshotHeader
a_snapshot_header = record {
  project_id = replicate 16 1;
  release_sequence = 1;
  catalog_stored_len = 16;
  catalog_plain_len = 1;
  page_region_offset = 272;
  page_count = 0;
  snapshot_salt = replicate 16 2;
  nonce_prefix = replicate 8 3;
  signing_key_id = replicate 16 4;
  source_fingerprint = replicate 32 5;
  signature = replicate 64 6;
}

a_snapshot_header-IsValid : SnapshotHeader.IsValid a_snapshot_header
a_snapshot_header-IsValid = omega arith

abbrev a_hash : Bytes → Bytes
a_hash bytes = length bytes ∷ []

aads_ne_example :
    AreSeparate
      (page_bytes a_page)
      (block_bytes a_block)
      (catalog_aad a_snapshot_header)
      (snapshot_signature_message a_hash (replicate 256 0) (1 ∷ 2 ∷ []))
aads_ne_example =
    aads_ne a_hash a_page a_block a_snapshot_header (replicate 256 0) (1 ∷ 2 ∷ [])
      a_page-IsPageContext a_block-IsBlockContext a_snapshot_header-IsValid

abbrev a_prefix : Bytes
a_prefix = replicate 8 4

abbrev an_ordinal : ℕ
an_ordinal = 258

nonce_inj_example : (a_prefix ≡ a_prefix) × (an_ordinal ≡ an_ordinal)
nonce_inj_example =
    nonce_inj a_prefix a_prefix an_ordinal an_ordinal refl refl (omega arith) (omega arith) refl

abbrev some_fields : List Bytes
some_fields = (1 ∷ 2 ∷ []) ∷ [] ∷ (3 ∷ []) ∷ []

some_fields-IsShort : All (λ field. length field < u64_mod) some_fields
some_fields-IsShort = omega arith

derive_input_inj_example : some_fields ≡ some_fields
derive_input_inj_example =
    derive_input_inj snapshot_domain some_fields some_fields some_fields-IsShort some_fields-IsShort
      refl
