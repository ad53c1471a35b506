-- ===== src/BuildCache/Loop.antt =====
-- The loop over the entries of a build cache reads back what the loop of `save` appends.
use hakutaku.Prelude.{
  ℕ, ◌+◌, ◌*◌, ◌^◌, ◌≤◌, ◌<◌, ◌≡◌, refl, sym, ap, ap₂, ◌∙◌, some, List, [], ◌∷◌, ◌++◌, length,
  arith, append_assoc, append-nil, length-append, lt→ltb, inr,
}
use hakutaku.Prelude.Keys.{insert}
use hakutaku.Wire.{Bytes, ok, usize_mod}
use hakutaku.Paths.{validate_canonical_path}
use hakutaku.BuildCache.{
  path_keys, CachedEntry, parse_entries, max_chunks, append_entries, append_entry,
}
use hakutaku.BuildCache.Entries.{
  append_entry-entry_bytes, entry_bytes, all_chunks, length-all_chunks, entry_bytes-append,
  length-fields,
}
use hakutaku.BuildCache.Maps.{Distinct, insert_all, Apart, Apart-new, Apart-insert}
use hakutaku.BuildCache.Parsed.{IsNamed, entry_len, progress, parse_entry-entry_bytes}

abbrev pub entries_bytes : List (Bytes × CachedEntry) → Bytes → Bytes
entries_bytes [] rest = rest
entries_bytes (e ∷ es) rest = entry_bytes e (entries_bytes es rest)

abbrev pub entries_len : List (Bytes × CachedEntry) → ℕ
entries_len [] = 0
entries_len (e ∷ es) = entry_len e + entries_len es

abbrev pub chunk_total : List (Bytes × CachedEntry) → ℕ
chunk_total [] = 0
chunk_total ((path, e) ∷ es) = length e.chunks + chunk_total es

abbrev pub AllNamed : List (Bytes × CachedEntry) → Type 0
AllNamed [] = Unit {0}
AllNamed ((path, e) ∷ es) = IsNamed path e × AllNamed es

length-entry_bytes :
    (path : Bytes) (e : CachedEntry) (rest : Bytes)
    → IsNamed path e
    → length (entry_bytes (path, e) rest) ≡ entry_len (path, e) + length rest
length-entry_bytes path e rest v = omega (
  arith,
  length-fields [] path e (path ++ all_chunks e.chunks rest),
  length-append path (all_chunks e.chunks rest),
  length-all_chunks e.chunks rest v.entry.each_chunk,
)

pub length-entries_bytes :
    (es : List (Bytes × CachedEntry)) (rest : Bytes)
    → AllNamed es
    → length (entries_bytes es rest) ≡ entries_len es + length rest
length-entries_bytes [] rest v = omega arith
length-entries_bytes ((path, e) ∷ es) rest (w, v) =
    omega
      (arith, length-entry_bytes path e (entries_bytes es rest) w, length-entries_bytes es rest v)

entry_front-length :
    (front path : Bytes) (e : CachedEntry)
    → IsNamed path e
    → length (front ++ entry_bytes (path, e) []) ≡ length front + entry_len (path, e)
entry_front-length front path e v =
    omega (arith, length-append front (entry_bytes (path, e) []), length-entry_bytes path e [] v)

entry_front-append :
    (front rest : Bytes) (p : Bytes × CachedEntry)
    → front ++ entry_bytes p rest ≡ (front ++ entry_bytes p []) ++ rest
entry_front-append front rest p =
    ap (λ l. front ++ l) (sym (entry_bytes-append p [] rest))
    ∙ sym (append_assoc front (entry_bytes p []) rest)

-- The loop puts every entry into the map, and ends behind the last.
pub parse_entries-entries_bytes :
    (es m : List (Bytes × CachedEntry)) (front rest : Bytes) (payload_len total : ℕ)
    → AllNamed es
    → Distinct es
    → Apart es m
    → payload_len < usize_mod
    → length front + entries_len es ≤ payload_len
    → total + chunk_total es ≤ max_chunks
    → parse_entries
        (length es)
        (front ++ entries_bytes es rest)
        payload_len
        (progress (length front) total m)
      ≡ some (progress (length front + entries_len es) (total + chunk_total es) (insert_all es m))
unfolding parse_entries
parse_entries-entries_bytes [] m front rest payload_len total v d a h fits few =
    ap₂ (λ (j k : ℕ). some (progress j k m)) (omega arith) (omega arith)
parse_entries-entries_bytes ((path, e) ∷ es) m front rest payload_len total (w, v) d a h fits few =
    let next = entry_front-length front path e w in
    let first =
      parse_entry-entry_bytes front path e (entries_bytes es rest) w payload_len
        (progress (length front) total m) refl h (omega arith) (omega arith)
        (Apart-new path e es m a) in
    let tail =
      parse_entries-entries_bytes es (insert path e m) (front ++ entry_bytes (path, e) []) rest
        payload_len (total + length e.chunks) v d.1 (Apart-insert path e es m d a) h
        (omega (arith, next)) (omega arith) in
    rw (first, entry_front-append front (entries_bytes es rest) (path, e), ← next, tail)
      (ap₂ (λ (j k : ℕ). some (progress j k (insert_all es (insert path e m))))
        (omega (arith, next)) (omega arith))

pub append_entries-entries_bytes :
    (es : List (Bytes × CachedEntry)) (bytes : Bytes)
    → AllNamed es
    → append_entries es bytes ≡ inr (bytes ++ entries_bytes es [])
unfolding append_entries
append_entries-entries_bytes [] bytes v = ap inr (sym (append-nil bytes))
append_entries-entries_bytes ((path, e) ∷ es) bytes (w, v) =
    let tail = append_entries-entries_bytes es (append_entry path e bytes) v in
    rw
      (
        lt→ltb (length path) (2 ^ 16) w.path_u16,
        lt→ltb (length e.chunks) (2 ^ 32) w.entry.chunk_count_u32,
        tail,
        append_entry-entry_bytes path e bytes,
        ← entry_front-append bytes (entries_bytes es []) (path, e),
      )
      refl

pub entries_bytes-append :
    (es : List (Bytes × CachedEntry)) (xs ys : Bytes)
    → entries_bytes es xs ++ ys ≡ entries_bytes es (xs ++ ys)
entries_bytes-append [] xs ys = refl
entries_bytes-append (e ∷ es) xs ys =
    entry_bytes-append e (entries_bytes es xs) ys
    ∙ ap (entry_bytes e) (entries_bytes-append es xs ys)

path-positive : (path : Bytes) → validate_canonical_path path ≡ ok tt → 0 < length path
unfolding validate_canonical_path
path-positive [] h = absurd (cc)
path-positive (x ∷ path) h = omega arith

pub entries_len-le :
    (es : List (Bytes × CachedEntry))
    → AllNamed es
    → (52 * length es ≤ entries_len es) × (entries_len es ≤ 65586 * length es + 44 * chunk_total es)
entries_len-le [] v = (omega arith, omega arith)
entries_len-le ((path, e) ∷ es) (w, v) =
    let bounds = entries_len-le es v in
    let positive = path-positive path w.path_canonical in
    (omega (arith, bounds, positive), omega (arith, bounds, w.path_u16))
