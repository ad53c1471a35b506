-- ===== src/BuildCache.antt =====
-- crates/pack/src/build_cache.rs: the file that remembers the chunks of unchanged sources. `save` is
-- `encode`, without its writes to the file system; the BLAKE3 hash of the checksum is a parameter.
mod Tests
pub mod Words
pub mod Header
pub mod Entries
pub mod Maps
pub mod Parsed
pub mod Loop
pub mod Foreign
pub mod RoundTrip
use hakutaku.Prelude.{
  ℕ, zero, suc, ◌+◌, ◌-◌, ◌*◌, ◌/◌, ◌^◌, ◌≡◌, Bool, true, false, ◌&&◌, not, Option, none, some,
  String, List, [], ◌∷◌, ◌++◌, ◌⊎◌, inl, inr, length, get_elem?, ltb, leb, ◌==◌, if◌then◌else◌,
}
use hakutaku.Prelude.Options.{◌>>=◌, ◌>>◌, guard}
use hakutaku.Prelude.Keys.{Eq, lookup, insert}
use hakutaku.Wire.{
  Bytes, Result, ok, err, get_range, from_le_bytes, to_le_bytes, checked_add, checked_mul, bytes_eq,
  all_zero, usize_mod, u32_mod, ◌▹◌,
}
use hakutaku.Wire.Inverse.{bytes_eq-eq, bytes_eq_refl}
use hakutaku.Format.Enums.{
  LayoutKind, fixed, content_defined, AccessClass, hot, normal, streaming, transient, Availability,
  required, deferred, layout_code, access_code, availability_code,
}
use hakutaku.Paths.{validate_canonical_path}
use hakutaku.Utf8.{is_utf8}

-- b"HAKBC002"
abbrev pub magic : Bytes
magic = b'H' ∷ b'A' ∷ b'K' ∷ b'B' ∷ b'C' ∷ b'0' ∷ b'0' ∷ b'2' ∷ []

abbrev pub header_size : ℕ
header_size = 48

abbrev pub entry_header_size : ℕ
entry_header_size = 51

abbrev pub checksum_size : ℕ
checksum_size = 32

abbrev pub chunk_size : ℕ
chunk_size = 44

abbrev pub max_entries : ℕ
max_entries = 1000000

abbrev pub max_chunks : ℕ
max_chunks = 10000000

pub data CompressionPolicy : Type 0 where
  auto raw : CompressionPolicy

-- `self as u8`
unfoldable pub compression_code : CompressionPolicy → ℕ
compression_code auto = 0
compression_code raw = 1

-- The stamp on Unix. `modified` is in seconds and nanoseconds.
pub record SourceStamp : Type 0 where
  pub len : ℕ
  pub modified : Option (ℕ × ℕ)
  pub device : ℕ
  pub inode : ℕ

pub record CachedChunk : Type 0 where
  pub logical_offset : ℕ
  pub plain_len : ℕ
  pub chunk_id : Bytes

pub record CachedEntry : Type 0 where
  pub stamp : SourceStamp
  pub layout : LayoutKind
  pub fixed_block_len : ℕ
  pub access : AccessClass
  pub availability : Availability
  pub compression : CompressionPolicy
  pub chunks : List CachedChunk

pub record BuildCache : Type 0 where
  pub entries : List (Bytes × CachedEntry)

instance abbrev pub path_keys : Eq Bytes
path_keys = record { beq = bytes_eq; beq_iff = λ a b. (bytes_eq-eq a b, same a b) }
  where
    same : (a b : Bytes) → a ≡ b → bytes_eq a b ≡ true
    same a b e = rw e (bytes_eq_refl b)

unfoldable pub get : Bytes → BuildCache → Option CachedEntry
get path c = lookup path c.entries

unfoldable pub parse_layout : ℕ → Option LayoutKind
parse_layout value =
    if value == 0 then some fixed else if value == 1 then some content_defined else none

unfoldable pub parse_access : ℕ → Option AccessClass
parse_access value =
    if value == 0
    then some hot
    else if value == 1
    then some normal
    else if value == 2
    then some streaming
    else if value == 3
    then some transient
    else none

unfoldable pub parse_availability : ℕ → Option Availability
parse_availability value =
    if value == 0 then some required else if value == 1 then some deferred else none

unfoldable pub parse_compression : ℕ → Option CompressionPolicy
parse_compression value = if value == 0 then some auto else if value == 1 then some raw else none

unfoldable pub read_u16 : Bytes → ℕ → Option ℕ
read_u16 bytes offset = do word ← get_range bytes offset (offset + 2); some (from_le_bytes word)

unfoldable pub read_u32 : Bytes → ℕ → Option ℕ
read_u32 bytes offset = do word ← get_range bytes offset (offset + 4); some (from_le_bytes word)

unfoldable pub read_u64 : Bytes → ℕ → Option ℕ
read_u64 bytes offset = do word ← get_range bytes offset (offset + 8); some (from_le_bytes word)

-- The fields of an entry's header, as the loop of `parse` reads them.
pub record EntryHeader : Type 0 where
  pub path_len : ℕ
  pub layout : LayoutKind
  pub access : AccessClass
  pub availability : Availability
  pub compression : CompressionPolicy
  pub modified_known : ℕ
  pub fixed_block_len : ℕ
  pub len : ℕ
  pub modified_secs : ℕ
  pub modified_nanos : ℕ
  pub device : ℕ
  pub inode : ℕ
  pub chunk_count : ℕ

unfoldable pub parse_entry_header : Bytes → ℕ → Option EntryHeader
unfolding read_u16 read_u32 read_u64 parse_layout parse_access parse_availability parse_compression
parse_entry_header bytes offset = do
  path_len ← read_u16 bytes offset
  layout_byte ← get_elem? bytes (offset + 2)
  layout ← parse_layout layout_byte
  access_byte ← get_elem? bytes (offset + 3)
  access ← parse_access access_byte
  availability_byte ← get_elem? bytes (offset + 4)
  availability ← parse_availability availability_byte
  compression_byte ← get_elem? bytes (offset + 5)
  compression ← parse_compression compression_byte
  modified_known ← get_elem? bytes (offset + 6)
  guard (leb modified_known 1)
  fixed_block_len ← read_u32 bytes (offset + 7)
  len ← read_u64 bytes (offset + 11)
  modified_secs ← read_u64 bytes (offset + 19)
  modified_nanos ← read_u32 bytes (offset + 27)
  device ← read_u64 bytes (offset + 31)
  inode ← read_u64 bytes (offset + 39)
  chunk_count ← read_u32 bytes (offset + 47)
  some record {
    path_len = path_len;
    layout = layout;
    access = access;
    availability = availability;
    compression = compression;
    modified_known = modified_known;
    fixed_block_len = fixed_block_len;
    len = len;
    modified_secs = modified_secs;
    modified_nanos = modified_nanos;
    device = device;
    inode = inode;
    chunk_count = chunk_count;
  }

-- The loop over the chunks of an entry: the chunks, and the offset behind them.
unfoldable pub parse_chunks : ℕ → Bytes → ℕ → Option (List CachedChunk × ℕ)
unfolding read_u32 read_u64
parse_chunks zero bytes offset = some ([], offset)
parse_chunks (suc count) bytes offset = do
  chunk_end ← checked_add usize_mod offset chunk_size
  logical_offset ← read_u64 bytes offset
  plain_len ← read_u32 bytes (offset + 8)
  chunk_id ← get_range bytes (offset + 12) chunk_end
  rest ← parse_chunks count bytes chunk_end
  some (
    record { logical_offset = logical_offset; plain_len = plain_len; chunk_id = chunk_id } ∷ rest.0,
    rest.1,
  )

unfoldable pub modified_of : EntryHeader → Option (ℕ × ℕ)
modified_of h = if h.modified_known == 1 then some (h.modified_secs, h.modified_nanos) else none

unfoldable pub is_ok : Result (Unit {0}) → Bool
is_ok (ok done) = true
is_ok (err failure) = false

unfoldable pub is_some : Option CachedEntry → Bool
is_some none = false
is_some (some entry) = true

-- What the loop over the entries carries on.
pub record Progress : Type 0 where
  pub offset : ℕ
  pub total_chunks : ℕ
  pub entries : List (Bytes × CachedEntry)

-- One round of the loop over the entries.
unfoldable pub parse_entry : Bytes → ℕ → Progress → Option Progress
unfolding parse_entry_header parse_chunks modified_of is_ok is_some
parse_entry bytes payload_len p = do
  h ← parse_entry_header bytes p.offset
  total_chunks ← checked_add usize_mod p.total_chunks h.chunk_count
  guard (leb total_chunks max_chunks && ltb h.modified_nanos 1000000000)
  start ← checked_add usize_mod p.offset entry_header_size
  path_end ← checked_add usize_mod start h.path_len
  path ← get_range bytes start path_end
  guard (is_utf8 path)
  guard (is_ok (validate_canonical_path path))
  chunks_len ← checked_mul usize_mod h.chunk_count chunk_size
  chunks_end ← checked_add usize_mod path_end chunks_len
  guard (leb chunks_end payload_len)
  read ← parse_chunks h.chunk_count bytes path_end
  guard (not (is_some (lookup path p.entries)))
  some record {
    offset = read.1;
    total_chunks = total_chunks;
    entries =
        insert path
          record {
            stamp = record {
              len = h.len;
              modified = modified_of h;
              device = h.device;
              inode = h.inode;
            };
            layout = h.layout;
            fixed_block_len = h.fixed_block_len;
            access = h.access;
            availability = h.availability;
            compression = h.compression;
            chunks = read.0;
          }
          p.entries;
  }

unfoldable pub parse_entries : ℕ → Bytes → ℕ → Progress → Option Progress
unfolding parse_entry
parse_entries zero bytes payload_len p = some p
parse_entries (suc count) bytes payload_len p = do
  next ← parse_entry bytes payload_len p
  parse_entries count bytes payload_len next

-- `bytes.extend_from_slice(part)`
abbrev pub extend : Bytes → Bytes → Bytes
extend part bytes = bytes ++ part

unfoldable pub seconds_of : Option (ℕ × ℕ) → ℕ × ℕ
seconds_of none = (0, 0)
seconds_of (some modified) = modified

unfoldable pub known_code : Option (ℕ × ℕ) → ℕ
known_code none = 0
known_code (some modified) = 1

-- The loop of `save` over the chunks.
unfoldable pub append_chunks : List CachedChunk → Bytes → Bytes
append_chunks [] bytes = bytes
append_chunks (chunk ∷ chunks) bytes = append_chunks chunks (
    bytes
    ▹ extend (to_le_bytes 8 chunk.logical_offset)
    ▹ extend (to_le_bytes 4 chunk.plain_len)
    ▹ extend chunk.chunk_id)

unfoldable pub append_entry : Bytes → CachedEntry → Bytes → Bytes
unfolding append_chunks seconds_of known_code compression_code
append_entry path entry bytes =
    bytes
    ▹ extend (to_le_bytes 2 (length path))
    ▹ extend (layout_code entry.layout ∷ [])
    ▹ extend (access_code entry.access ∷ [])
    ▹ extend (availability_code entry.availability ∷ [])
    ▹ extend (compression_code entry.compression ∷ [])
    ▹ extend (known_code entry.stamp.modified ∷ [])
    ▹ extend (to_le_bytes 4 entry.fixed_block_len)
    ▹ extend (to_le_bytes 8 entry.stamp.len)
    ▹ extend (to_le_bytes 8 (seconds_of entry.stamp.modified).0)
    ▹ extend (to_le_bytes 4 (seconds_of entry.stamp.modified).1)
    ▹ extend (to_le_bytes 8 entry.stamp.device)
    ▹ extend (to_le_bytes 8 entry.stamp.inode)
    ▹ extend (to_le_bytes 4 (length entry.chunks))
    ▹ extend path
    ▹ append_chunks entry.chunks

-- The loop of `save` over the entries. An `Error::InvalidInput` is known by its text.
unfoldable pub append_entries : List (Bytes × CachedEntry) → Bytes → String ⊎ Bytes
unfolding append_entry
append_entries [] bytes = inr bytes
append_entries ((path, entry) ∷ entries) bytes =
    let rest = append_entries entries (append_entry path entry bytes) in
    if ltb (length path) (2 ^ 16)
    then if ltb (length entry.chunks) u32_mod then rest else inl "too many cached chunks"
    else inl "build-cache path is too long"

unfoldable pub header : Bytes → ℕ → ℕ → Bytes
header project_id release_sequence entry_count =
    []
    ▹ extend magic
    ▹ extend (to_le_bytes 2 2)
    ▹ extend (to_le_bytes 2 header_size)
    ▹ extend project_id
    ▹ extend (to_le_bytes 8 release_sequence)
    ▹ extend (to_le_bytes 4 entry_count)
    ▹ extend (0 ∷ 0 ∷ 0 ∷ 0 ∷ 0 ∷ 0 ∷ 0 ∷ 0 ∷ [])

module _ (hash : Bytes → Bytes) where
  unfoldable pub parse : Bytes → Bytes → ℕ → Option BuildCache
  unfolding read_u16 read_u32 read_u64 parse_entries
  parse bytes project_id release_sequence = do
    guard (leb (header_size + checksum_size) (length bytes))
    found_magic ← get_range bytes 0 8
    guard (bytes_eq found_magic magic)
    version ← read_u16 bytes 8
    guard (version == 2)
    found_size ← read_u16 bytes 10
    guard (found_size == header_size)
    found_project ← get_range bytes 12 28
    guard (bytes_eq found_project project_id)
    found_release ← read_u64 bytes 28
    guard (found_release == release_sequence)
    reserved ← get_range bytes 40 48
    guard (all_zero reserved)
    let payload_len = length bytes - checksum_size
    payload ← get_range bytes 0 payload_len
    checksum ← get_range bytes payload_len (length bytes)
    guard (bytes_eq (hash payload) checksum)
    entry_count ← read_u32 bytes 36
    guard (leb entry_count max_entries)
    guard (leb entry_count ((payload_len - header_size) / (entry_header_size + 1)))
    last ←
        parse_entries entry_count bytes payload_len
          record { offset = header_size; total_chunks = 0; entries = [] }
    guard (last.offset == payload_len)
    some record { entries = last.entries }

  -- The bytes that `save` writes.
  unfoldable pub encode : Bytes → ℕ → List (Bytes × CachedEntry) → String ⊎ Bytes
  unfolding header append_entries
  encode project_id release_sequence entries =
      if ltb (length entries) u32_mod
      then elim (append_entries entries (header project_id release_sequence (length entries))) [
        | inl failure ↦ inl failure
        | inr bytes ↦ inr (bytes ++ hash bytes)
      ]
      else inl "too many build-cache entries"
