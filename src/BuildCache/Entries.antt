-- ===== src/BuildCache/Entries.antt =====
-- One entry of a build cache: what `save` appends for it, and the fields and chunks that `parse` reads
-- there.
use hakutaku.Prelude.{
  ℕ, suc, ◌+◌, ◌*◌, ◌^◌, ◌<◌, ◌≡◌, refl, sym, ap, ◌∙◌, none, some, Option, List, [], ◌∷◌, ◌++◌,
  length, All, arith, append_assoc, append-nil, length-append, leb, ◌==◌, if◌then◌else◌,
}
use hakutaku.Prelude.Options.{◌>>=◌, guard}
use hakutaku.Wire.{Bytes, get_range, checked_add, to_le_bytes, usize_mod}
use hakutaku.Wire.Fronts.{get_elem?-behind, take_front}
use hakutaku.Format.Enums.{
  LayoutKind, fixed, content_defined, AccessClass, hot, normal, streaming, transient, Availability,
  required, deferred, layout_code, access_code, availability_code,
}
use hakutaku.BuildCache.{
  CompressionPolicy, auto, raw, CachedChunk, CachedEntry, EntryHeader, compression_code, known_code,
  seconds_of, parse_layout, parse_access, parse_availability, parse_compression, read_u16, read_u32,
  read_u64, parse_entry_header, append_entry, append_chunks, modified_of, parse_chunks,
}
use hakutaku.BuildCache.Words.{range_behind, u16_behind, u32_behind, u64_behind}

-- Numbers and arrays within their types.
pub record IsChunk (c : CachedChunk) : Type 0 where
  pub logical_offset_u64 : c.logical_offset < 2 ^ 64
  pub plain_len_u32 : c.plain_len < 2 ^ 32
  pub chunk_id_len : length c.chunk_id ≡ 32

pub record IsEntry (e : CachedEntry) : Type 0 where
  pub len_u64 : e.stamp.len < 2 ^ 64
  pub seconds_u64 : (seconds_of e.stamp.modified).0 < 2 ^ 64
  pub nanos_max : (seconds_of e.stamp.modified).1 < 1000000000
  pub device_u64 : e.stamp.device < 2 ^ 64
  pub inode_u64 : e.stamp.inode < 2 ^ 64
  pub fixed_block_len_u32 : e.fixed_block_len < 2 ^ 32
  pub chunk_count_u32 : length e.chunks < 2 ^ 32
  pub each_chunk : All IsChunk e.chunks

abbrev pub fields : Bytes → CachedEntry → Bytes → Bytes
fields path e rest =
    to_le_bytes 2 (length path)
    ++ (layout_code e.layout
        ∷ access_code e.access
        ∷ availability_code e.availability
        ∷ compression_code e.compression
        ∷ known_code e.stamp.modified
        ∷ (to_le_bytes 4 e.fixed_block_len
            ++ (to_le_bytes 8 e.stamp.len
                ++ (to_le_bytes 8 (seconds_of e.stamp.modified).0
                    ++ (to_le_bytes 4 (seconds_of e.stamp.modified).1
                        ++ (to_le_bytes 8 e.stamp.device
                            ++ (to_le_bytes 8 e.stamp.inode
                                ++ (to_le_bytes 4 (length e.chunks) ++ rest))))))))

abbrev pub header_of : Bytes → CachedEntry → EntryHeader
header_of path e = record {
  path_len = length path;
  layout = e.layout;
  access = e.access;
  availability = e.availability;
  compression = e.compression;
  modified_known = known_code e.stamp.modified;
  fixed_block_len = e.fixed_block_len;
  len = e.stamp.len;
  modified_secs = (seconds_of e.stamp.modified).0;
  modified_nanos = (seconds_of e.stamp.modified).1;
  device = e.stamp.device;
  inode = e.stamp.inode;
  chunk_count = length e.chunks;
}

parse_layout-layout_code : (l : LayoutKind) → parse_layout (layout_code l) ≡ some l
unfolding parse_layout layout_code
parse_layout-layout_code fixed = refl
parse_layout-layout_code content_defined = refl

parse_access-access_code : (a : AccessClass) → parse_access (access_code a) ≡ some a
unfolding parse_access access_code
parse_access-access_code hot = refl
parse_access-access_code normal = refl
parse_access-access_code streaming = refl
parse_access-access_code transient = refl

parse_availability-availability_code :
    (a : Availability) → parse_availability (availability_code a) ≡ some a
unfolding parse_availability availability_code
parse_availability-availability_code required = refl
parse_availability-availability_code deferred = refl

parse_compression-compression_code :
    (c : CompressionPolicy) → parse_compression (compression_code c) ≡ some c
unfolding parse_compression compression_code
parse_compression-compression_code auto = refl
parse_compression-compression_code raw = refl

known_code_max : (m : Option (ℕ × ℕ)) → guard (leb (known_code m) 1) ≡ some tt
unfolding known_code
known_code_max none = refl
known_code_max (some modified) = refl

modified_of_code :
    (m : Option (ℕ × ℕ))
    → (if known_code m == 1 then some ((seconds_of m).0, (seconds_of m).1) else none) ≡ m
unfolding known_code seconds_of
modified_of_code none = refl
modified_of_code (some modified) = refl

pub modified_of-header_of :
    (path : Bytes) (e : CachedEntry) → modified_of (header_of path e) ≡ e.stamp.modified
unfolding modified_of
modified_of-header_of path e = modified_of_code e.stamp.modified

module _ (front path : Bytes) (e : CachedEntry) (rest : Bytes) where
  abbrev here : Bytes
  here = fields path e rest

  pub length-fields : length (fields path e rest) ≡ 51 + length rest
  unfolding to_le_bytes
  length-fields = omega arith

  pub parse_entry_header-fields :
      length path < 2 ^ 16
      → IsEntry e
      → parse_entry_header (front ++ here) (length front) ≡ some (header_of path e)
  unfolding parse_entry_header to_le_bytes
  parse_entry_header-fields h v =
      let at_start : length front + 0 ≡ length front = omega arith in
      let path_len = u16_behind front here 0 (length path) (omega (arith, length-fields)) h refl in
      rw
        (
          ap (read_u16 (front ++ here)) (sym at_start) ∙ path_len,
          get_elem?-behind front here 2,
          parse_layout-layout_code e.layout,
          get_elem?-behind front here 3,
          parse_access-access_code e.access,
          get_elem?-behind front here 4,
          parse_availability-availability_code e.availability,
          get_elem?-behind front here 5,
          parse_compression-compression_code e.compression,
          get_elem?-behind front here 6,
          known_code_max e.stamp.modified,
          u32_behind front here 7 _ (omega (arith, length-fields)) v.fixed_block_len_u32 refl,
          u64_behind front here 11 _ (omega (arith, length-fields)) v.len_u64 refl,
          u64_behind front here 19 _ (omega (arith, length-fields)) v.seconds_u64 refl,
          u32_behind front here 27 _ (omega (arith, length-fields)) (omega (arith, v.nanos_max))
              refl,
          u64_behind front here 31 _ (omega (arith, length-fields)) v.device_u64 refl,
          u64_behind front here 39 _ (omega (arith, length-fields)) v.inode_u64 refl,
          u32_behind front here 47 _ (omega (arith, length-fields)) v.chunk_count_u32 refl,
        )
        refl

  -- The path behind the fields.
  pub path-fields :
      (tail : Bytes)
      → rest ≡ path ++ tail
      → get_range (front ++ here) (length front + 51) (length front + 51 + length path) ≡ some path
  unfolding to_le_bytes
  path-fields tail e =
      range_behind front here 51 (length path) path
        (omega (arith, length-fields, ap length e, length-append path tail))
        (rw e (take_front path tail))

append_entry-append :
    (path : Bytes) (e : CachedEntry) (bytes : Bytes)
    → append_entry path e bytes ≡ append_chunks e.chunks (bytes ++ fields path e path)
unfolding append_entry to_le_bytes
append_entry-append path e bytes = ap (append_chunks e.chunks) (simp (append_assoc) refl)

-- What `append_chunks` appends.
abbrev chunk_bytes : CachedChunk → Bytes → Bytes
chunk_bytes c rest =
    to_le_bytes 8 c.logical_offset ++ (to_le_bytes 4 c.plain_len ++ (c.chunk_id ++ rest))

abbrev pub all_chunks : List CachedChunk → Bytes → Bytes
all_chunks [] rest = rest
all_chunks (c ∷ cs) rest = chunk_bytes c (all_chunks cs rest)

append_chunks-append :
    (cs : List CachedChunk) (bytes : Bytes) → append_chunks cs bytes ≡ bytes ++ all_chunks cs []
unfolding append_chunks to_le_bytes
append_chunks-append [] bytes = sym (append-nil bytes)
append_chunks-append (c ∷ cs) bytes = append_chunks-append cs _ ∙ simp (append_assoc) refl

all_chunks-append :
    (cs : List CachedChunk) (xs ys : Bytes) → all_chunks cs xs ++ ys ≡ all_chunks cs (xs ++ ys)
unfolding to_le_bytes
all_chunks-append [] xs ys = refl
all_chunks-append (c ∷ cs) xs ys =
    rw (append_assoc c.chunk_id (all_chunks cs xs) ys, all_chunks-append cs xs ys) refl

pub length-all_chunks :
    (cs : List CachedChunk) (rest : Bytes)
    → All IsChunk cs
    → length (all_chunks cs rest) ≡ 44 * length cs + length rest
unfolding to_le_bytes
length-all_chunks [] rest v = omega arith
length-all_chunks (c ∷ cs) rest (w, v) = omega (
  arith,
  length-append c.chunk_id (all_chunks cs rest),
  w.chunk_id_len,
  length-all_chunks cs rest v,
)

-- The bytes of one entry, with what follows.
abbrev pub entry_bytes : Bytes × CachedEntry → Bytes → Bytes
entry_bytes (path, e) rest = fields path e (path ++ all_chunks e.chunks rest)

pub append_entry-entry_bytes :
    (path : Bytes) (e : CachedEntry) (bytes : Bytes)
    → append_entry path e bytes ≡ bytes ++ entry_bytes (path, e) []
unfolding to_le_bytes
append_entry-entry_bytes path e bytes =
    append_entry-append path e bytes
    ∙ append_chunks-append e.chunks (bytes ++ fields path e path)
    ∙ append_assoc bytes (fields path e path) (all_chunks e.chunks [])

pub entry_bytes-split :
    (front path : Bytes) (e : CachedEntry) (rest : Bytes)
    → front ++ entry_bytes (path, e) rest
      ≡ (front ++ fields path e path) ++ all_chunks e.chunks rest
unfolding to_le_bytes
entry_bytes-split front path e rest = simp (append_assoc) refl

pub entry_bytes-append :
    (p : Bytes × CachedEntry) (xs ys : Bytes) → entry_bytes p xs ++ ys ≡ entry_bytes p (xs ++ ys)
unfolding to_le_bytes
entry_bytes-append (path, e) xs ys =
    rw (append_assoc path (all_chunks e.chunks xs) ys, all_chunks-append e.chunks xs ys) refl

-- One chunk behind a buffer.
module _ (front rest : Bytes) (c : CachedChunk) (w : IsChunk c) where
  abbrev bytes : Bytes
  bytes = front ++ chunk_bytes c rest

  length-chunk_bytes : length (chunk_bytes c rest) ≡ 44 + length rest
  unfolding to_le_bytes
  length-chunk_bytes = omega (arith, length-append c.chunk_id rest, w.chunk_id_len)

  logical_offset_back : read_u64 bytes (length front) ≡ some c.logical_offset
  unfolding to_le_bytes
  logical_offset_back =
      let at_start : length front + 0 ≡ length front = omega arith in
      ap (read_u64 bytes) (sym at_start)
      ∙ u64_behind front (chunk_bytes c rest) 0 c.logical_offset (omega (arith, length-chunk_bytes))
          w.logical_offset_u64 refl

  plain_len_back : read_u32 bytes (length front + 8) ≡ some c.plain_len
  unfolding to_le_bytes
  plain_len_back =
      u32_behind front (chunk_bytes c rest) 8 c.plain_len (omega (arith, length-chunk_bytes))
        w.plain_len_u32 refl

  chunk_id_back : get_range bytes (length front + 12) (length front + 44) ≡ some c.chunk_id
  unfolding to_le_bytes
  chunk_id_back =
      let end : length front + 44 ≡ length front + 12 + 32 = omega arith in
      rw end (
        range_behind front (chunk_bytes c rest) 12 32 c.chunk_id (omega (arith, length-chunk_bytes))
          (rw (← w.chunk_id_len) (take_front c.chunk_id rest)))

  chunk_end_back :
      length front + 44 < usize_mod
      → checked_add usize_mod (length front) 44 ≡ some (length front + 44)
  unfolding checked_add
  chunk_end_back h = ground arith

  parse_chunks-step :
      (n : ℕ)
      → length front + 44 < usize_mod
      → parse_chunks (suc n) bytes (length front)
        ≡ (parse_chunks n bytes (length front + 44) >>= λ more. some (c ∷ more.0, more.1))
  unfolding parse_chunks
  parse_chunks-step n h =
      rw (chunk_end_back h, logical_offset_back, plain_len_back, chunk_id_back) refl

chunk_front-length :
    (front : Bytes) (c : CachedChunk)
    → IsChunk c
    → length (front ++ chunk_bytes c []) ≡ length front + 44
chunk_front-length front c w =
    omega (arith, length-append front (chunk_bytes c []), length-chunk_bytes front [] c w)

chunk_front-append :
    (front rest : Bytes) (c : CachedChunk)
    → front ++ chunk_bytes c rest ≡ (front ++ chunk_bytes c []) ++ rest
unfolding to_le_bytes
chunk_front-append front rest c = simp (append_assoc, append-nil) refl

-- The loop reads the chunks back, and ends behind them.
pub parse_chunks-all_chunks :
    (cs : List CachedChunk) (front rest : Bytes)
    → All IsChunk cs
    → length front + 44 * length cs < usize_mod
    → parse_chunks (length cs) (front ++ all_chunks cs rest) (length front)
      ≡ some (cs, length front + 44 * length cs)
unfolding parse_chunks
parse_chunks-all_chunks [] front rest v h = ap (λ (n : ℕ). some ([], n)) (omega arith)
parse_chunks-all_chunks (c ∷ cs) front rest (w, v) h =
    let next = chunk_front-length front c w in
    let tail =
      parse_chunks-all_chunks cs (front ++ chunk_bytes c []) rest v (omega (arith, next)) in
    parse_chunks-step front (all_chunks cs rest) c w (length cs) (omega arith)
    ∙ rw (chunk_front-append front (all_chunks cs rest) c, ← next, tail)
        (ap (λ (n : ℕ). some (c ∷ cs, n)) (omega (arith, next)))
