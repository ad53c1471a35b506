-- ===== src/Format/Constants.antt =====
-- The constants of crates/core/src/format.rs.
use hakutaku.Prelude.{ℕ, ◌+◌, ◌-◌, ◌*◌, ◌/◌, [], ◌∷◌}
use hakutaku.Wire.{Bytes}

abbrev pub snapshot_header_size : ℕ
snapshot_header_size = 256

abbrev pub segment_header_size : ℕ
segment_header_size = 128

abbrev pub catalog_header_size : ℕ
catalog_header_size = 64

abbrev pub segment_record_size : ℕ
segment_record_size = 96

abbrev pub file_record_size : ℕ
file_record_size = 32

abbrev pub path_slot_size : ℕ
path_slot_size = 8

abbrev pub page_record_size : ℕ
page_record_size = 64

abbrev pub page_header_size : ℕ
page_header_size = 16

abbrev pub block_ref_size : ℕ
block_ref_size = 48

abbrev pub reuse_record_size : ℕ
reuse_record_size = 32

abbrev pub blocks_per_map_page : ℕ
blocks_per_map_page = (16 * 1024 - page_header_size) / block_ref_size

abbrev pub reuse_per_page : ℕ
reuse_per_page = (16 * 1024 - page_header_size) / reuse_record_size

abbrev pub max_catalog_plain_len : ℕ
max_catalog_plain_len = 64 * 1024 * 1024

abbrev pub max_catalog_stored_len : ℕ
max_catalog_stored_len = max_catalog_plain_len + 1024 * 1024 + 16

abbrev pub max_page_plain_len : ℕ
max_page_plain_len = 1024 * 1024

abbrev pub max_block_plain_len : ℕ
max_block_plain_len = 1024 * 1024

abbrev pub max_segments : ℕ
max_segments = 65535

abbrev pub max_files : ℕ
max_files = 1_000_000

abbrev pub max_blocks : ℕ
max_blocks = 10_000_000

abbrev pub max_pages : ℕ
max_pages = 100_000

abbrev pub max_path_pool_len : ℕ
max_path_pool_len = 32 * 1024 * 1024

-- `u32::MAX`
abbrev pub empty_path_slot : ℕ
empty_path_slot = 4294967295

-- b"HAKU0002"
abbrev pub snapshot_magic : Bytes
snapshot_magic = b'H' ∷ b'A' ∷ b'K' ∷ b'U' ∷ b'0' ∷ b'0' ∷ b'0' ∷ b'2' ∷ []

-- b"HAKCAT02"
abbrev pub catalog_magic : Bytes
catalog_magic = b'H' ∷ b'A' ∷ b'K' ∷ b'C' ∷ b'A' ∷ b'T' ∷ b'0' ∷ b'2' ∷ []

-- b"HAKSEG02"
abbrev pub segment_magic : Bytes
segment_magic = b'H' ∷ b'A' ∷ b'K' ∷ b'S' ∷ b'E' ∷ b'G' ∷ b'0' ∷ b'2' ∷ []

-- b"HAKMAP02"
abbrev pub map_page_magic : Bytes
map_page_magic = b'H' ∷ b'A' ∷ b'K' ∷ b'M' ∷ b'A' ∷ b'P' ∷ b'0' ∷ b'2' ∷ []

-- b"HAKREU02"
abbrev pub reuse_page_magic : Bytes
reuse_page_magic = b'H' ∷ b'A' ∷ b'K' ∷ b'R' ∷ b'E' ∷ b'U' ∷ b'0' ∷ b'2' ∷ []

abbrev pub format_major : ℕ
format_major = 2

abbrev pub format_minor : ℕ
format_minor = 0

abbrev pub signature_offset : ℕ
signature_offset = 152

abbrev pub signature_len : ℕ
signature_len = 64
