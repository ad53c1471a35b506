-- ===== src/Crypto/Contexts.antt =====
-- The authenticated data of pages, blocks and the catalog, and the signed message: different contexts
-- have different bytes.
use hakutaku.Prelude.{
  ℕ, ◌<◌, ◌^◌, ◌≡◌, ◌≢◌, sym, ap, ◌∙◌, List, [], ◌∷◌, refl, length, take, get_elem?, some, arith,
}
use hakutaku.Wire.{Bytes, to_le_bytes}
use hakutaku.Format.Enums.{Codec, PageKind, codec_code, page_kind_code}
use hakutaku.Format.SnapshotHeader
use hakutaku.Format.SnapshotHeader.{SnapshotHeader}
use hakutaku.Crypto.{
  page_aad, block_aad, catalog_aad, page_aad_domain, block_aad_domain, catalog_aad_domain,
  snapshot_signature_domain, snapshot_signature_message,
}
use hakutaku.Crypto.Parts.{
  concat, concat_inj, encode_aad-concat, to_le_bytes_inj, codec_code_inj, page_kind_code_inj,
}

-- The arguments of `page_aad`, within their types.
pub record PageContext : Type 0 where
  pub project_id : Bytes
  pub release_sequence : ℕ
  pub kind : PageKind
  pub codec : Codec
  pub nonce_ordinal : ℕ
  pub stored_len : ℕ
  pub plain_len : ℕ

pub record IsPageContext (p : PageContext) : Type 0 where
  pub project_id_len : length p.project_id ≡ 16
  pub release_sequence_u64 : p.release_sequence < 2 ^ 64
  pub nonce_ordinal_u32 : p.nonce_ordinal < 2 ^ 32
  pub stored_len_u32 : p.stored_len < 2 ^ 32
  pub plain_len_u32 : p.plain_len < 2 ^ 32

abbrev page_parts : PageContext → List Bytes
page_parts p =
    page_aad_domain
    ∷ p.project_id
    ∷ to_le_bytes 8 p.release_sequence
    ∷ (page_kind_code p.kind ∷ [])
    ∷ (codec_code p.codec ∷ [])
    ∷ to_le_bytes 4 p.nonce_ordinal
    ∷ to_le_bytes 4 p.stored_len
    ∷ to_le_bytes 4 p.plain_len
    ∷ []

abbrev pub page_bytes : PageContext → Bytes
page_bytes p =
    page_aad p.project_id p.release_sequence p.kind p.codec p.nonce_ordinal p.stored_len p.plain_len

page_bytes-concat : (p : PageContext) → IsPageContext p → page_bytes p ≡ concat (page_parts p)
unfolding page_aad to_le_bytes
page_bytes-concat p v = encode_aad-concat 58 (page_parts p) (omega (arith, v.project_id_len))

page_parts_inj :
    (p q : PageContext) → IsPageContext p → IsPageContext q → page_parts p ≡ page_parts q → p ≡ q
page_parts_inj p q v w e =
    let release =
      to_le_bytes_inj 8 p.release_sequence q.release_sequence v.release_sequence_u64
        w.release_sequence_u64 (cc) in
    let ordinal =
      to_le_bytes_inj 4 p.nonce_ordinal q.nonce_ordinal v.nonce_ordinal_u32 w.nonce_ordinal_u32
        (cc) in
    let stored =
      to_le_bytes_inj 4 p.stored_len q.stored_len v.stored_len_u32 w.stored_len_u32 (cc) in
    let plain = to_le_bytes_inj 4 p.plain_len q.plain_len v.plain_len_u32 w.plain_len_u32 (cc) in
    let kinds = page_kind_code_inj p.kind q.kind (cc) in
    let codecs = codec_code_inj p.codec q.codec (cc) in
    let projects : p.project_id ≡ q.project_id = cc in
    ground (arith, release, ordinal, stored, plain, kinds, codecs, projects)

-- Two pages with the same authenticated data agree in every argument of `page_aad`.
pub page_aad_inj :
    (p q : PageContext) → IsPageContext p → IsPageContext q → page_bytes p ≡ page_bytes q → p ≡ q
unfolding to_le_bytes
page_aad_inj p q v w e = page_parts_inj p q v w (
    concat_inj (page_parts p) (page_parts q) (omega (arith, v.project_id_len, w.project_id_len))
      (sym (page_bytes-concat p v) ∙ e ∙ page_bytes-concat q w))

-- The arguments of `block_aad`, within their types.
pub record BlockContext : Type 0 where
  pub project_id : Bytes
  pub segment_uid : Bytes
  pub block_ordinal : ℕ
  pub codec : Codec
  pub stored_len : ℕ
  pub plain_len : ℕ

pub record IsBlockContext (b : BlockContext) : Type 0 where
  pub project_id_len : length b.project_id ≡ 16
  pub segment_uid_len : length b.segment_uid ≡ 16
  pub block_ordinal_u32 : b.block_ordinal < 2 ^ 32
  pub stored_len_u32 : b.stored_len < 2 ^ 32
  pub plain_len_u32 : b.plain_len < 2 ^ 32

abbrev block_parts : BlockContext → List Bytes
block_parts b =
    block_aad_domain
    ∷ b.project_id
    ∷ b.segment_uid
    ∷ to_le_bytes 4 b.block_ordinal
    ∷ (codec_code b.codec ∷ [])
    ∷ to_le_bytes 4 b.stored_len
    ∷ to_le_bytes 4 b.plain_len
    ∷ []

abbrev pub block_bytes : BlockContext → Bytes
block_bytes b =
    block_aad b.project_id b.segment_uid b.block_ordinal b.codec b.stored_len b.plain_len

block_bytes-concat : (b : BlockContext) → IsBlockContext b → block_bytes b ≡ concat (block_parts b)
unfolding block_aad to_le_bytes
block_bytes-concat b v =
    encode_aad-concat 66 (block_parts b) (omega (arith, v.project_id_len, v.segment_uid_len))

block_parts_inj :
    (a b : BlockContext)
    → IsBlockContext a
    → IsBlockContext b
    → block_parts a ≡ block_parts b
    → a ≡ b
block_parts_inj a b v w e =
    let ordinal =
      to_le_bytes_inj 4 a.block_ordinal b.block_ordinal v.block_ordinal_u32 w.block_ordinal_u32
        (cc) in
    let stored =
      to_le_bytes_inj 4 a.stored_len b.stored_len v.stored_len_u32 w.stored_len_u32 (cc) in
    let plain = to_le_bytes_inj 4 a.plain_len b.plain_len v.plain_len_u32 w.plain_len_u32 (cc) in
    let codecs = codec_code_inj a.codec b.codec (cc) in
    let projects : a.project_id ≡ b.project_id = cc in
    let uids : a.segment_uid ≡ b.segment_uid = cc in
    ground (arith, ordinal, stored, plain, codecs, projects, uids)

-- Two blocks with the same authenticated data agree in every argument of `block_aad`.
pub block_aad_inj :
    (a b : BlockContext)
    → IsBlockContext a
    → IsBlockContext b
    → block_bytes a ≡ block_bytes b
    → a ≡ b
unfolding to_le_bytes
block_aad_inj a b v w e = block_parts_inj a b v w (
    concat_inj (block_parts a) (block_parts b)
      (omega (arith, v.project_id_len, w.project_id_len, v.segment_uid_len, w.segment_uid_len))
      (sym (block_bytes-concat a v) ∙ e ∙ block_bytes-concat b w))

abbrev catalog_parts : SnapshotHeader → List Bytes
catalog_parts h =
    catalog_aad_domain
    ∷ h.project_id
    ∷ to_le_bytes 8 h.release_sequence
    ∷ to_le_bytes 8 h.catalog_stored_len
    ∷ to_le_bytes 8 h.catalog_plain_len
    ∷ to_le_bytes 4 h.page_count
    ∷ []

catalog_aad-concat :
    (h : SnapshotHeader) → SnapshotHeader.IsValid h → catalog_aad h ≡ concat (catalog_parts h)
unfolding catalog_aad to_le_bytes
catalog_aad-concat h v = encode_aad-concat 67 (catalog_parts h) (omega (arith, v.project_id_len))

-- What the authenticated data of a catalog fixes of its header.
pub record SameCatalog (h k : SnapshotHeader) : Type 0 where
  pub project_id : h.project_id ≡ k.project_id
  pub release_sequence : h.release_sequence ≡ k.release_sequence
  pub catalog_stored_len : h.catalog_stored_len ≡ k.catalog_stored_len
  pub catalog_plain_len : h.catalog_plain_len ≡ k.catalog_plain_len
  pub page_count : h.page_count ≡ k.page_count

-- Two valid headers with the same authenticated data have the same project, release, catalog
-- lengths and page count.
pub catalog_aad_inj :
    (h k : SnapshotHeader)
    → SnapshotHeader.IsValid h
    → SnapshotHeader.IsValid k
    → catalog_aad h ≡ catalog_aad k
    → SameCatalog h k
unfolding to_le_bytes
catalog_aad_inj h k v w e =
    let same =
      concat_inj (catalog_parts h) (catalog_parts k)
        (omega (arith, v.project_id_len, w.project_id_len))
        (sym (catalog_aad-concat h v) ∙ e ∙ catalog_aad-concat k w) in
    record {
      project_id = cc;
      release_sequence = to_le_bytes_inj 8 _ _ v.release_sequence_u64 w.release_sequence_u64 (cc);
      catalog_stored_len =
          to_le_bytes_inj 8 _ _ (omega (arith, v.catalog_stored_max))
            (omega (arith, w.catalog_stored_max)) (cc);
      catalog_plain_len =
          to_le_bytes_inj 8 _ _ (omega (arith, v.catalog_plain_max))
            (omega (arith, w.catalog_plain_max)) (cc);
      page_count =
          to_le_bytes_inj 4 _ _ (omega (arith, v.page_count_max)) (omega (arith, w.page_count_max))
            (cc);
    }

-- The first bytes of each kind, as far as they are domain.
module _ (n : ℕ) where
  page_front :
      (p : PageContext) → IsPageContext p → take n (page_bytes p) ≡ take n (concat (page_parts p))
  page_front p v = ap (take n) (page_bytes-concat p v)

  block_front :
      (b : BlockContext)
      → IsBlockContext b
      → take n (block_bytes b) ≡ take n (concat (block_parts b))
  block_front b v = ap (take n) (block_bytes-concat b v)

  catalog_front :
      (h : SnapshotHeader)
      → SnapshotHeader.IsValid h
      → take n (catalog_aad h) ≡ take n (concat (catalog_parts h))
  catalog_front h v = ap (take n) (catalog_aad-concat h v)

-- Byte strings with different bytes at the tenth place.
tenth_ne :
    (xs ys : Bytes) (a b : ℕ) → get_elem? xs 9 ≡ some a → get_elem? ys 9 ≡ some b → a ≢ b → xs ≢ ys
tenth_ne xs ys a b at at' ne e = ne (cc (at, at', ap (λ l. get_elem? l 9) e))

-- Each kind of bytes begins with its domain, and the domains tell them apart in ten bytes.
pub record AreSeparate (page block catalog message : Bytes) : Type 0 where
  pub page_begins : take (length page_aad_domain) page ≡ page_aad_domain
  pub block_begins : take (length block_aad_domain) block ≡ block_aad_domain
  pub catalog_begins : take (length catalog_aad_domain) catalog ≡ catalog_aad_domain
  pub message_begins : take (length snapshot_signature_domain) message ≡ snapshot_signature_domain
  pub page_block : take 10 page ≢ take 10 block
  pub page_catalog : take 10 page ≢ take 10 catalog
  pub page_message : take 10 page ≢ take 10 message
  pub block_catalog : take 10 block ≢ take 10 catalog
  pub block_message : take 10 block ≢ take 10 message
  pub catalog_message : take 10 catalog ≢ take 10 message

-- The authenticated data of a page, a block and a catalog and the message that is signed each begin
-- with the domain of their kind, and no two of them agree in their first ten bytes.
pub aads_ne :
    (hash : Bytes → Bytes) (p : PageContext) (b : BlockContext) (h : SnapshotHeader)
    (zeroed_header catalog_ciphertext : Bytes)
    → IsPageContext p
    → IsBlockContext b
    → SnapshotHeader.IsValid h
    → AreSeparate
        (page_bytes p)
        (block_bytes b)
        (catalog_aad h)
        (snapshot_signature_message hash zeroed_header catalog_ciphertext)
unfolding snapshot_signature_message
aads_ne hash p b h zeroed_header catalog_ciphertext v w x = record {
  page_begins = page_front 20 p v;
  block_begins = block_front 21 b w;
  catalog_begins = catalog_front 23 h x;
  message_begins = refl;
  page_block =
      rw (page_front 10 p v, block_front 10 b w)
        (tenth_ne _ _ 112 98 refl refl (λ e. omega (arith, e)));
  page_catalog =
      rw (page_front 10 p v, catalog_front 10 h x)
        (tenth_ne _ _ 112 99 refl refl (λ e. omega (arith, e)));
  page_message = rw (page_front 10 p v) (tenth_ne _ _ 112 115 refl refl (λ e. omega (arith, e)));
  block_catalog =
      rw (block_front 10 b w, catalog_front 10 h x)
        (tenth_ne _ _ 98 99 refl refl (λ e. omega (arith, e)));
  block_message = rw (block_front 10 b w) (tenth_ne _ _ 98 115 refl refl (λ e. omega (arith, e)));
  catalog_message =
      rw (catalog_front 10 h x) (tenth_ne _ _ 99 115 refl refl (λ e. omega (arith, e)));
}
