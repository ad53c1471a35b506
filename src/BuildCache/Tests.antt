-- ===== src/BuildCache/Tests.antt =====
-- A build cache of two files, and the theorems at it.
use hakutaku.Prelude.{◌%◌, ℕ, ◌≡◌, refl, List, [], ◌∷◌, none, some, inr, length, replicate, arith}
use hakutaku.Prelude.Keys.{lookup, insert, remove}
use hakutaku.Wire.{
  Bytes, bytes_eq, to_le_bytes, from_le_bytes, get_range, all_zero, checked_add, checked_mul,
}
use hakutaku.Format.Enums.{
  fixed, content_defined, hot, streaming, required, deferred, layout_code, access_code,
  availability_code,
}
use hakutaku.Paths.{validate_canonical_path}
use hakutaku.Utf8.{is_utf8}
use hakutaku.BuildCache.{
  path_keys, BuildCache, CachedEntry, auto, raw, get, parse, encode, seconds_of, parse_entries,
  parse_entry, parse_entry_header, parse_chunks, parse_layout, parse_access, parse_availability,
  parse_compression, read_u16, read_u32, read_u64, is_ok, is_some, modified_of, header,
  compression_code, known_code,
}
use hakutaku.BuildCache.Parsed.{IsNamed}
use hakutaku.BuildCache.RoundTrip.{IsInventory, saved, encode-saved, parse-encode}
use hakutaku.BuildCache.Foreign.{parse-encode_same}

abbrev a_text : CachedEntry
a_text = record {
  stamp = record { len = 4; modified = some (42, 7); device = 11; inode = 13 };
  layout = fixed;
  fixed_block_len = 4;
  access = hot;
  availability = required;
  compression = auto;
  chunks = record { logical_offset = 0; plain_len = 4; chunk_id = replicate 32 1 } ∷ [];
}

abbrev a_film : CachedEntry
a_film = record {
  stamp = record { len = 0; modified = none; device = 11; inode = 14 };
  layout = content_defined;
  fixed_block_len = 0;
  access = streaming;
  availability = deferred;
  compression = raw;
  chunks = [];
}

abbrev two_files : List (Bytes × CachedEntry)
two_files = (97 ∷ [], a_text) ∷ (98 ∷ [], a_film) ∷ []

a_text-IsNamed : IsNamed (97 ∷ []) a_text
unfolding is_utf8 validate_canonical_path bytes_eq seconds_of
a_text-IsNamed = record {
  path_u16 = omega arith;
  path_utf8 = refl;
  path_canonical = refl;
  entry = omega arith;
}

a_film-IsNamed : IsNamed (98 ∷ []) a_film
unfolding is_utf8 validate_canonical_path bytes_eq seconds_of
a_film-IsNamed = record {
  path_u16 = omega arith;
  path_utf8 = refl;
  path_canonical = refl;
  entry = omega arith;
}

two_files-IsInventory : IsInventory two_files
unfolding lookup bytes_eq
two_files-IsInventory = record {
  named = (a_text-IsNamed, (a_film-IsNamed, tt));
  distinct = (refl, (refl, tt));
  entries_max = omega arith;
  chunks_max = omega arith;
}

abbrev a_project : Bytes
a_project = replicate 16 9

abbrev a_hash : Bytes → Bytes
a_hash bytes = (length bytes % 256) ∷ replicate 31 0

a_hash_len : (bytes : Bytes) → length (a_hash bytes) ≡ 32
a_hash_len bytes = refl

parse-encode_example :
    (bytes : Bytes) × (c : BuildCache) × (encode a_hash a_project 7 two_files ≡ inr bytes)
    × (parse a_hash bytes a_project 7 ≡ some c)
    × ((path : Bytes) → get path c ≡ lookup path two_files)
parse-encode_example =
    parse-encode a_hash a_hash_len a_project 7 two_files refl (omega arith) two_files-IsInventory

abbrev a_release : ℕ
a_release = 7

abbrev a_file : Bytes
a_file =
    saved a_hash a_hash_len a_project a_release two_files refl (omega arith) two_files-IsInventory

abbrev a_cache : BuildCache
a_cache = record { entries = (98 ∷ [], a_film) ∷ (97 ∷ [], a_text) ∷ [] }

a_file_parses : parse a_hash a_file a_project a_release ≡ some a_cache
unfolding parse parse_entries parse_entry parse_entry_header parse_chunks parse_layout parse_access
    parse_availability parse_compression read_u16 read_u32 read_u64 is_ok is_some modified_of header
    to_le_bytes from_le_bytes get_range bytes_eq all_zero layout_code access_code availability_code
    compression_code known_code seconds_of checked_add checked_mul is_utf8 validate_canonical_path
    lookup insert remove
a_file_parses = refl

a_file_encodes : encode a_hash a_project a_release two_files ≡ inr a_file
a_file_encodes =
    encode-saved a_hash a_hash_len a_project a_release two_files refl (omega arith)
      two_files-IsInventory

parse-encode_same_example : (a_project ≡ a_project) × (a_release ≡ a_release)
parse-encode_same_example =
    parse-encode_same a_hash a_hash_len a_project a_project a_release a_release two_files a_file
      a_cache refl (omega arith) two_files-IsInventory a_file_encodes a_file_parses
