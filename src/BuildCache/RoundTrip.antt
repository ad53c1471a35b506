-- ===== src/BuildCache/RoundTrip.antt =====
-- `parse` reads back what `save` writes.
use hakutaku.Prelude.{
  ℕ, ◌+◌, ◌-◌, ◌^◌, ◌≤◌, ◌<◌, ◌≡◌, refl, sym, ap, ap₂, ◌∙◌, true, some, List, [], ◌++◌, length,
  arith, append_assoc, length-append, ◌/◌, ◌==◌, le→leb, lt→ltb, inr,
}
use hakutaku.Prelude.Keys.{lookup}
use hakutaku.Wire.Fronts.{get_range-front, get_range-back}
use hakutaku.Wire.Inverse.{bytes_eq_refl}
use hakutaku.Wire.{Bytes, bytes_eq, all_zero, get_range}
use hakutaku.BuildCache.{
  path_keys, CachedEntry, parse_entries, max_chunks, encode, parse, header, get, BuildCache,
  read_u16, read_u32, read_u64, max_entries,
}
use hakutaku.BuildCache.Header.{
  whole, length-header, magic_back, version_back, size_back, project_back, release_back, count_back,
  reserved_back,
}
use hakutaku.BuildCache.Maps.{Distinct, insert_all, lookup-insert_all_nil}
use hakutaku.BuildCache.Parsed.{progress}
use hakutaku.BuildCache.Loop.{
  AllNamed, entries_bytes, entries_len, chunk_total, parse_entries-entries_bytes,
  append_entries-entries_bytes, entries_bytes-append, entries_len-le, length-entries_bytes,
}

-- What a packer hands to `save`: names and fields within their types, no path twice, and no more
-- entries and chunks than a cache may have.
pub record IsInventory (es : List (Bytes × CachedEntry)) : Type 0 where
  pub named : AllNamed es
  pub distinct : Distinct es
  pub entries_max : length es ≤ max_entries
  pub chunks_max : chunk_total es ≤ max_chunks

module _ (hash : Bytes → Bytes) (hash_len : (bytes : Bytes) → length (hash bytes) ≡ 32)
    (project_id : Bytes) (release_sequence : ℕ) (es : List (Bytes × CachedEntry))
    (project_len : length project_id ≡ 16) (release_u64 : release_sequence < 2 ^ 64)
    (v : IsInventory es) where
  abbrev payload : Bytes
  payload = header project_id release_sequence (length es) ++ entries_bytes es []

  abbrev pub saved : Bytes
  saved = payload ++ hash payload

  pub encode-saved : encode hash project_id release_sequence es ≡ inr saved
  unfolding encode
  encode-saved =
      let few : length es < 2 ^ 32 = omega (arith, v.entries_max) in
      rw (lt→ltb (length es) (2 ^ 32) few, append_entries-entries_bytes es _ v.named) refl

  length-payload : length payload ≡ 48 + entries_len es
  length-payload = omega (
    arith,
    length-append (header project_id release_sequence (length es)) (entries_bytes es []),
    length-header project_id release_sequence (length es) [] project_len,
    length-entries_bytes es [] v.named,
  )

  abbrev pub behind : Bytes
  behind = entries_bytes es (hash payload)

  pub saved_split : saved ≡ whole project_id release_sequence (length es) behind
  saved_split =
      append_assoc (header project_id release_sequence (length es)) (entries_bytes es [])
        (hash payload)
      ∙ ap (λ l. header project_id release_sequence (length es) ++ l)
          (entries_bytes-append es [] (hash payload))

  length-saved : length saved ≡ length payload + 32
  length-saved = omega (arith, length-append payload (hash payload), hash_len payload)

  entries_back :
      parse_entries (length es) saved (length payload) (progress 48 0 [])
      ≡ some (progress (length payload) (chunk_total es) (insert_all es []))
  unfolding lookup
  entries_back =
      let head = header project_id release_sequence (length es) in
      let head_len = length-header project_id release_sequence (length es) behind project_len in
      let bounds = entries_len-le es v.named in
      rw (saved_split, ← head_len)
        (parse_entries-entries_bytes es [] head (hash payload) (length payload) 0 v.named v.distinct
            (λ k. inr refl) (omega (arith, length-payload, bounds, v.entries_max, v.chunks_max))
            (omega (arith, length-payload, head_len)) (omega (arith, v.chunks_max))
          ∙ ap₂ (λ (j k : ℕ). some (progress j k (insert_all es [])))
              (omega (arith, length-payload, head_len)) (omega arith))

  checksum_back : get_range saved (length payload) (length payload + 32) ≡ some (hash payload)
  checksum_back =
      ap (λ (k : ℕ). get_range saved (length payload) (length payload + k)) (sym (hash_len payload))
      ∙ get_range-back payload (hash payload)

  parse-saved :
      parse hash saved project_id release_sequence ≡ some record { entries = insert_all es [] }
  unfolding parse bytes_eq all_zero
  parse-saved =
      let n = length es in
      let bounds = entries_len-le es v.named in
      let payload_place : length payload + 32 - 32 ≡ length payload = omega arith in
      rw
        (
          length-saved,
          payload_place,
          le→leb 80 (length payload + 32) (omega (arith, length-payload)),
          ap (λ l. get_range l 0 8) saved_split
              ∙ magic_back project_id release_sequence n behind project_len,
          ap (λ l. read_u16 l 8) saved_split
              ∙ version_back project_id release_sequence n behind project_len,
          ap (λ l. read_u16 l 10) saved_split
              ∙ size_back project_id release_sequence n behind project_len,
          ap (λ l. get_range l 12 28) saved_split
              ∙ project_back project_id release_sequence n behind project_len,
          bytes_eq_refl project_id,
          ap (λ l. read_u64 l 28) saved_split
              ∙ release_back project_id release_sequence n behind project_len release_u64,
          same release_sequence,
          ap (λ l. get_range l 40 48) saved_split
              ∙ reserved_back project_id release_sequence n behind project_len,
          get_range-front payload (hash payload),
          checksum_back,
          bytes_eq_refl (hash payload),
          ap (λ l. read_u32 l 36) saved_split
              ∙ count_back project_id release_sequence n behind project_len
                  (omega (arith, v.entries_max)),
          le→leb n max_entries v.entries_max,
          le→leb n ((length payload - 48) / 52) (omega (arith, length-payload, bounds)),
          entries_back,
          same (length payload),
        )
        refl
    where
      same : (n : ℕ) → (n == n) ≡ true
      same n = ground arith

  -- A cache that `save` wrote loads under the same project and release, and has for every path the
  -- entry that was saved under it.
  pub parse-encode :
      (bytes : Bytes) × (c : BuildCache) × (encode hash project_id release_sequence es ≡ inr bytes)
      × (parse hash bytes project_id release_sequence ≡ some c)
      × ((path : Bytes) → get path c ≡ lookup path es)
  unfolding get
  parse-encode = (
    saved,
    record { entries = insert_all es [] },
    encode-saved,
    parse-saved,
    λ path. lookup-insert_all_nil es path v.distinct,
  )
