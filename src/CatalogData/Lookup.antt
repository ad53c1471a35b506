-- ===== src/CatalogData/Lookup.antt =====
-- From the packer to the runtime: `find_file` on the catalog that was encoded with the slots that
-- `build_path_slots` returned.
use hakutaku.Prelude.{
  ℕ, ◌+◌, ◌<◌, ◌≤◌, ◌≡◌, ap, ◌∙◌, true, List, length, get_elem?, some, inr, arith,
}
use hakutaku.Utf8.{is_utf8}
use hakutaku.Wire.{Bytes, ok, checked_slice, read_array, checked_add, usize_mod, u32_mod}
use hakutaku.Wire.ReadBack.{checked_slice_lem}
use hakutaku.Wire.Inverse.{checked_slice_inv, length-read_array}
use hakutaku.Wire.Slices.{slice, ext, get_elem?-slice}
use hakutaku.Format.FileRecord.{FileRecord}
use hakutaku.Paths.{validate_canonical_path}
use hakutaku.PathIndex.{build_path_slots, find_file}
use hakutaku.PathIndex.Finding.{find_file-build_path_slots}
use hakutaku.Catalog.{Catalog, path_slot, path, parse_header}
use hakutaku.CatalogData.{CatalogData, encode}
use hakutaku.CatalogData.Header.{view, encode-IsEncoded}
use hakutaku.CatalogData.RoundTrip.{IsValid, ReadsBack, parse_header-encode}

slice_twice :
    (b : Bytes) (o o' n m : ℕ) → o' + n ≤ m → slice b (o + o') n ≡ slice (slice b o m) o' n
slice_twice b o o' n m h = ext (slice b (o + o') n) (slice (slice b o m) o' n) λ i. ground (
  arith,
  get_elem?-slice b (o + o') n i,
  get_elem?-slice (slice b o m) o' n i,
  get_elem?-slice b o m (o' + i),
  ap (get_elem? b) (shift i),
)
  where
    shift : (i : ℕ) → o + o' + i ≡ o + (o' + i)
    shift i = omega arith

-- A slice of a slice.
slice_slice :
    (b s r : Bytes) (o o' n m : ℕ)
    → checked_slice b o m ≡ ok s
    → checked_slice s o' n ≡ ok r
    → o + m < usize_mod
    → checked_slice b (o + o') n ≡ ok r
slice_slice b s r o o' n m outer inner small =
    let (fits, at) = checked_slice_inv b o m outer in
    let (fits', at') = checked_slice_inv s o' n inner in
    let len : length s ≡ m = unfold read_array in length-read_array m b o outer in
    checked_slice_lem b (o + o') n (omega arith) (omega arith)
    ∙ ap ok (slice_twice b o o' n m (omega arith) ∙ rw at at')

-- The files have these names in the path pool.
abbrev pub Names : CatalogData → List Bytes → Type 0
Names d paths =
    (i : ℕ) (name : Bytes)
    → get_elem? paths i ≡ some name
    → (f : FileRecord) × (get_elem? d.files i ≡ some f)
      × (checked_slice d.path_pool f.path_offset f.path_len ≡ ok name)
      × (is_utf8 name ≡ true)

path-of_pool :
    (d : CatalogData) (c : Catalog) (paths : List Bytes)
    → ReadsBack d c
    → c.path_pool_offset + c.path_pool_len < usize_mod
    → Names d paths
    → (i : ℕ) (name : Bytes) → get_elem? paths i ≡ some name
    → path c i ≡ ok name
unfolding path checked_add
path-of_pool d c paths back small names i name at =
    let (f, there, in_pool, text) = names i name at in
    let whole =
      slice_slice c.bytes d.path_pool name c.path_pool_offset f.path_offset f.path_len
        c.path_pool_len back.path_pool in_pool small in
    let (fits, _) = checked_slice_inv d.path_pool f.path_offset f.path_len in_pool in
    let len : length d.path_pool ≡ c.path_pool_len =
      unfold read_array in
      length-read_array c.path_pool_len c.bytes c.path_pool_offset back.path_pool in
    ground (arith, back.files i f there, whole, text, fits, len)

-- Take a catalog whose slots are those that `build_path_slots` returned for its paths, and whose
-- files have these paths in the pool. In what `encode` makes of it, `find_file` finds every
-- canonical one of the paths, as a file that has it.
pub find_file-encode :
    (hash_of : Bytes → ℕ) (d : CatalogData) (bytes : Bytes) (paths : List Bytes)
    → IsValid d
    → encode d ≡ ok bytes
    → build_path_slots hash_of paths (length d.files) ≡ inr d.path_slots
    → length paths < u32_mod
    → Names d paths
    → (i : ℕ) (name : Bytes) → get_elem? paths i ≡ some name
    → validate_canonical_path name ≡ ok tt
    → (c : Catalog) × (parse_header bytes ≡ ok c)
      × (j : ℕ) × (get_elem? paths j ≡ some name)
      × (find_file (path_slot c) (path c) hash_of c.path_slot_count name ≡ ok (some j))
find_file-encode hash_of d bytes paths v e built small names i name at valid =
    let (header, back) = parse_header-encode d bytes v e in
    let x = encode-IsEncoded d bytes e in
    let c = view d bytes in
    let (j, has_name, answer) =
      find_file-build_path_slots hash_of paths (length d.files) d.path_slots (path_slot c) (path c)
        built small back.path_slots (path-of_pool d c paths back (omega (arith, x.total_max)) names)
        i name at valid in
    (c, header, j, has_name, answer)
