-- ===== src/BuildCache/Parsed.antt =====
-- `parse` reads back one entry that `save` appended.
use hakutaku.Prelude.{
  ℕ, ◌+◌, ◌*◌, ◌^◌, ◌≤◌, ◌<◌, ◌≡◌, refl, ap, true, none, some, List, ◌++◌, length, arith,
  length-append, le→leb, leb, ltb, ◌&&◌,
}
use hakutaku.Prelude.Keys.{lookup, insert}
use hakutaku.Wire.{Bytes, ok, usize_mod}
use hakutaku.Paths.{validate_canonical_path}
use hakutaku.Utf8.{is_utf8}
use hakutaku.BuildCache.{
  path_keys, CachedEntry, Progress, parse_chunks, parse_entry, seconds_of, max_chunks,
}
use hakutaku.BuildCache.Words.{checked_add_lem, checked_mul_lem}
use hakutaku.BuildCache.Entries.{
  IsEntry, fields, entry_bytes, all_chunks, parse_entry_header-fields, path-fields,
  parse_chunks-all_chunks, modified_of-header_of, length-fields, entry_bytes-split,
}

-- An entry as the packer keeps it: a canonical path in UTF-8, and fields within their types.
pub record IsNamed (path : Bytes) (e : CachedEntry) : Type 0 where
  pub path_u16 : length path < 2 ^ 16
  pub path_utf8 : is_utf8 path ≡ true
  pub path_canonical : validate_canonical_path path ≡ ok tt
  pub entry : IsEntry e

abbrev pub entry_len : Bytes × CachedEntry → ℕ
entry_len (path, e) = 51 + length path + 44 * length e.chunks

abbrev pub progress : ℕ → ℕ → List (Bytes × CachedEntry) → Progress
progress offset total_chunks entries = record {
  offset = offset;
  total_chunks = total_chunks;
  entries = entries;
}

limits_hold :
    (total : ℕ) (e : CachedEntry)
    → total ≤ max_chunks
    → IsEntry e
    → leb total max_chunks && ltb (seconds_of e.stamp.modified).1 1000000000 ≡ true
limits_hold total e h v = ground (arith, v.nanos_max)

module _ (front path : Bytes) (e : CachedEntry) (rest : Bytes) (v : IsNamed path e) where
  abbrev bytes : Bytes
  bytes = front ++ entry_bytes (path, e) rest

  abbrev n : ℕ
  n = length e.chunks

  abbrev behind_fields : Bytes
  behind_fields = front ++ fields path e path

  chunks_split : bytes ≡ behind_fields ++ all_chunks e.chunks rest
  chunks_split = entry_bytes-split front path e rest

  length-behind_fields : length behind_fields ≡ length front + 51 + length path
  length-behind_fields =
      omega (arith, length-append front (fields path e path), length-fields front path e path)

  chunks_back :
      length front + entry_len (path, e) < usize_mod
      → parse_chunks n bytes (length front + 51 + length path)
        ≡ some (e.chunks, length front + 51 + length path + 44 * n)
  chunks_back h =
      rw (chunks_split, ← length-behind_fields)
        (parse_chunks-all_chunks e.chunks behind_fields rest v.entry.each_chunk
          (omega (arith, length-behind_fields)))

  pub parse_entry-entry_bytes :
      (payload_len : ℕ) (p : Progress)
      → p.offset ≡ length front
      → payload_len < usize_mod
      → length front + entry_len (path, e) ≤ payload_len
      → p.total_chunks + n ≤ max_chunks
      → lookup path p.entries ≡ none
      → parse_entry bytes payload_len p
        ≡ some (
            progress
              (length front + entry_len (path, e))
              (p.total_chunks + n)
              (insert path e p.entries))
  unfolding parse_entry
  parse_entry-entry_bytes payload_len p here fits ends few new =
      rw
        (
          here,
          parse_entry_header-fields front path e (path ++ all_chunks e.chunks rest) v.path_u16
              v.entry,
          checked_add_lem usize_mod p.total_chunks n (omega arith),
          limits_hold (p.total_chunks + n) e few v.entry,
          checked_add_lem usize_mod (length front) 51 (omega arith),
          checked_add_lem usize_mod (length front + 51) (length path) (omega arith),
          path-fields front path e (path ++ all_chunks e.chunks rest) (all_chunks e.chunks rest)
              refl,
          v.path_utf8,
          v.path_canonical,
          checked_mul_lem usize_mod n 44 (omega arith),
          checked_add_lem usize_mod (length front + 51 + length path) (n * 44) (omega arith),
          le→leb (length front + 51 + length path + n * 44) payload_len (omega arith),
          chunks_back (omega arith),
          new,
          modified_of-header_of path e,
        )
        (ap (λ (k : ℕ). some (progress k (p.total_chunks + n) (insert path e p.entries)))
          (omega arith))
