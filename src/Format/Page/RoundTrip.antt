-- ===== src/Format/Page/RoundTrip.antt =====
-- A page parses back into the records it was made of, and its records are found one by one.
use hakutaku.Prelude.{
  ℕ, zero, suc, ◌+◌, ◌-◌, ◌*◌, ◌/◌, ◌%◌, ◌^◌, ◌≤◌, ◌<◌, ◌≡◌, refl, ap, ◌∙◌, sym, List, [], ◌∷◌,
  ◌++◌, length, drop, take, All, arith, get_elem?, some, length-append, append_assoc, append-nil,
  ltb, false,
}
use hakutaku.Wire.{
  Bytes, ok, ◌>>=◌, checked_mul, checked_add, usize_mod, >>=-eq-ok, require_len, to_le_bytes,
  put_u16, put_u32,
}
use hakutaku.Wire.Writes.{Write}
use hakutaku.Wire.ReadBack
use hakutaku.Wire.ReadBack.{IsLayout, encoded}
use hakutaku.Wire.Fronts
use hakutaku.Format.Constants.{
  page_header_size, block_ref_size, reuse_record_size, map_page_magic, reuse_page_magic,
  format_major, blocks_per_map_page, reuse_per_page,
}
use hakutaku.Format.BlockRef
use hakutaku.Format.BlockRef.{BlockRef}
use hakutaku.Format.BlockRef.RoundTrip.{
  parse-encode_into_block_ref, length-encode_into_block_ref, encode_into-append_block_ref,
}
use hakutaku.Format.Page.{
  page_header, append_blocks, encode_map_page, append_chunks, encode_reuse_page, parse_page_header,
  validate_map_page, parse_blocks, parse_map_page, map_page_record, as_chunks, parse_reuse_page,
}

abbrev header_writes : Bytes → ℕ → ℕ → List Write
header_writes magic record_size first =
    (0, magic)
    ∷ (8, to_le_bytes 2 format_major)
    ∷ (10, to_le_bytes 2 record_size)
    ∷ (12, to_le_bytes 4 first)
    ∷ []

page_header-writes :
    (magic : Bytes) (n first : ℕ)
    → page_header magic n first ≡ encoded page_header_size (header_writes magic n first)
unfolding page_header put_u16 put_u32
page_header-writes magic n first = refl

layout :
    (magic : Bytes) (n first : ℕ)
    → length magic ≡ 8
    → IsLayout page_header_size (header_writes magic n first)
unfolding to_le_bytes
layout magic n first h = record { within = omega arith; fits = omega arith }

length-page_header :
    (magic : Bytes) (n first : ℕ) → length magic ≡ 8 → length (page_header magic n first) ≡ 16
length-page_header magic n first h =
    rw page_header-writes (ReadBack.length-encoded (layout magic n first h))

-- The header of a page with `count` records is accepted, and gives the count.
parse_page_header-append :
    (magic body : Bytes) (n first count : ℕ)
    → length magic ≡ 8
    → n < 2 ^ 16
    → first < 2 ^ 32
    → 0 < length body
    → length body % n ≡ 0
    → length body / n ≡ count
    → parse_page_header (page_header magic n first ++ body) magic n first ≡ ok count
unfolding parse_page_header to_le_bytes require_len
parse_page_header-append magic body n first count h hn hf pos whole e =
    let l = layout magic n first h in
    let front = encoded page_header_size (header_writes magic n first) in
    let len = ReadBack.length-encoded l in
    rw page_header-writes (
      ground (
        arith,
        length-append front body,
        len,
        Fronts.require_magic-append front body magic "page magic" (omega (arith, len)),
        ReadBack.require_magic_back l "page magic" refl h (omega arith),
        Fronts.read_u16-append front body 8 (omega (arith, len)),
        ReadBack.u16_back l 1 8 2 refl (omega arith) (omega arith),
        Fronts.read_u16-append front body 10 (omega (arith, len)),
        ReadBack.u16_back l 2 10 n refl hn (omega arith),
        Fronts.read_u32-append front body 12 (omega (arith, len)),
        ReadBack.u32_back l 3 12 first refl hf (omega arith),
        payload,
      ))
  where
    payload : 16 + length body - 16 ≡ length body
    payload = omega arith

append_blocks-append :
    (rs : List BlockRef) (out : Bytes) → append_blocks rs out ≡ out ++ append_blocks rs []
unfolding append_blocks
append_blocks-append [] out = sym (append-nil out)
append_blocks-append (r ∷ rs) out =
    append_blocks-append rs (BlockRef.encode_into r out)
    ∙ rw (encode_into-append_block_ref r out, append_assoc)
        (ap (λ l. out ++ l) (sym (append_blocks-append rs (BlockRef.encode_into r []))))

length-append_blocks :
    (rs : List BlockRef) (out : Bytes)
    → All BlockRef.IsValid rs
    → length (append_blocks rs out) ≡ length out + length rs * 48
unfolding append_blocks
length-append_blocks [] out v = omega arith
length-append_blocks (r ∷ rs) out (v, vs) = omega (
  arith,
  length-append_blocks rs (BlockRef.encode_into r out) vs,
  length-encode_into_block_ref r out v,
)

parse_blocks-append_blocks :
    (rs : List BlockRef) (index : ℕ) (out : Bytes)
    → All BlockRef.IsValid rs
    → length out ≡ 16 + index * 48
    → 16 + (index + length rs) * 48 < usize_mod
    → parse_blocks (length rs) index (append_blocks rs out) ≡ ok rs
unfolding parse_blocks append_blocks
parse_blocks-append_blocks [] index out v l h = refl
parse_blocks-append_blocks (r ∷ rs) index out (v, vs) l h =
    let out' = BlockRef.encode_into r out in
    let at : BlockRef.parse (append_blocks rs out') (16 + index * 48) ≡ ok r =
      rw (append_blocks-append rs out', ← l)
        (parse-encode_into_block_ref r out (append_blocks rs []) v (omega arith)) in
    rw (
      at,
      parse_blocks-append_blocks rs (index + 1) out' vs
          (omega (arith, length-encode_into_block_ref r out v)) (omega arith),
    )

-- A list of one to 341 valid references encodes into a page, and the page parses back into them.
pub parse_map_page-encode_map_page :
    (first : ℕ) (rs : List BlockRef)
    → first < 2 ^ 32
    → All BlockRef.IsValid rs
    → 0 < length rs
    → length rs ≤ blocks_per_map_page
    → (encode_map_page first rs >>= λ page. parse_map_page page first) ≡ ok rs
unfolding encode_map_page parse_map_page validate_map_page
parse_map_page-encode_map_page first rs hf v pos max =
    let head = page_header map_page_magic block_ref_size first in
    let body = append_blocks rs [] in
    let size : length body ≡ length rs * 48 = omega (arith, length-append_blocks rs [] v) in
    let counted : parse_page_header (append_blocks rs head) map_page_magic 48 first
        ≡ ok (length rs) =
      rw (append_blocks-append rs head) (
        parse_page_header-append map_page_magic body 48 first (length rs) refl (omega arith) hf
          (omega arith) (omega arith) (omega arith)) in
    ground (
      arith,
      counted,
      parse_blocks-append_blocks rs 0 head v
          (omega (arith, length-page_header map_page_magic 48 first refl)) (omega arith),
    )

parse_blocks-cons :
    (rounds index i : ℕ) (bytes : Bytes) (r' : BlockRef) (rest : List BlockRef) (r : BlockRef)
    → BlockRef.parse bytes (16 + index * 48) ≡ ok r'
    → parse_blocks rounds (index + 1) bytes ≡ ok rest
    → ((k : ℕ)
        → get_elem? rest k ≡ some r
        → BlockRef.parse bytes (16 + (index + 1 + k) * 48) ≡ ok r)
    → get_elem? (r' ∷ rest) i ≡ some r
    → BlockRef.parse bytes (16 + (index + i) * 48) ≡ ok r
parse_blocks-cons rounds index zero bytes r' rest r at more later g =
    let e : index + 0 ≡ index = omega arith in rw e (at ∙ cc)
parse_blocks-cons rounds index (suc i) bytes r' rest r at more later g =
    let e : index + suc i ≡ index + 1 + i = omega arith in rw e (later i g)

parse_blocks-at :
    (rounds index i : ℕ) (bytes : Bytes) (rs : List BlockRef) (r : BlockRef)
    → parse_blocks rounds index bytes ≡ ok rs
    → get_elem? rs i ≡ some r
    → BlockRef.parse bytes (16 + (index + i) * 48) ≡ ok r
unfolding parse_blocks
parse_blocks-at zero index i bytes rs r e g =
    let empty : [] ≡ rs = cc in let g' = rw (← empty) at g in absurd (cc)
parse_blocks-at (suc rounds) index i bytes rs r e g =
    let (r', at, e') = >>=-eq-ok (BlockRef.parse bytes (16 + index * 48)) _ e in
    let (rest, more, e'') = >>=-eq-ok (parse_blocks rounds (index + 1) bytes) _ e' in
    let split : r' ∷ rest ≡ rs = cc in
    parse_blocks-cons rounds index i bytes r' rest r at more
      (λ k. parse_blocks-at rounds (index + 1) k bytes rest r more) (rw (← split) at g)

-- Record `i` of a page that parses is what `map_page_record` decodes on its own.
pub map_page_record-parse_map_page :
    (bytes : Bytes) (first i : ℕ) (rs : List BlockRef) (r : BlockRef)
    → parse_map_page bytes first ≡ ok rs
    → get_elem? rs i ≡ some r
    → map_page_record bytes i ≡ ok r
unfolding parse_map_page map_page_record checked_mul checked_add
map_page_record-parse_map_page bytes first i rs r e g =
    let (count, valid, e') = >>=-eq-ok (validate_map_page bytes first) _ e in
    let at : BlockRef.parse bytes (16 + i * 48) ≡ ok r =
      rw (ap (λ (k : ℕ). BlockRef.parse bytes (16 + k * 48)) (zero-add' i)) at
        (parse_blocks-at count 0 i bytes rs r e' g) in
    ground (arith, at, BlockRef.RoundTrip.parse_bound_block_ref bytes (16 + i * 48) r at)
  where
    zero-add' : (k : ℕ) → 0 + k ≡ k
    zero-add' k = omega arith

-- `append_chunks` and `as_chunks`.
append_chunks-append :
    (rs : List Bytes) (out : Bytes) → append_chunks rs out ≡ out ++ append_chunks rs []
unfolding append_chunks
append_chunks-append [] out = sym (append-nil out)
append_chunks-append (r ∷ rs) out =
    append_chunks-append rs (out ++ r)
    ∙ rw append_assoc (ap (λ l. out ++ l) (sym (append_chunks-append rs r)))

length-append_chunks :
    (rs : List Bytes) (out : Bytes)
    → All (λ r. length r ≡ 32) rs
    → length (append_chunks rs out) ≡ length out + length rs * 32
unfolding append_chunks
length-append_chunks [] out v = omega arith
length-append_chunks (r ∷ rs) out (v, vs) =
    omega (arith, length-append_chunks rs (out ++ r) vs, length-append out r)

drop-append : (xs ys : Bytes) (n : ℕ) → length xs ≡ n → drop n (xs ++ ys) ≡ ys
drop-append [] ys zero h = refl
drop-append [] ys (suc n) h = absurd (omega arith)
drop-append (x ∷ xs) ys zero h = absurd (omega arith)
drop-append (x ∷ xs) ys (suc n) h = drop-append xs ys n (omega arith)

take-append : (xs ys : Bytes) (n : ℕ) → length xs ≡ n → take n (xs ++ ys) ≡ xs
take-append [] ys zero h = refl
take-append [] ys (suc n) h = absurd (omega arith)
take-append (x ∷ xs) ys zero h = absurd (omega arith)
take-append (x ∷ xs) ys (suc n) h = ap (λ l. x ∷ l) (take-append xs ys n (omega arith))

as_chunks-append_chunks :
    (n : ℕ) (rs : List Bytes) (rounds : ℕ)
    → 0 < n
    → All (λ r. length r ≡ n) rs
    → length rs ≤ rounds
    → as_chunks rounds n (append_chunks rs []) ≡ rs
unfolding as_chunks append_chunks
as_chunks-append_chunks n [] zero pos v h = refl
as_chunks-append_chunks n [] (suc rounds) pos v h = ground arith
as_chunks-append_chunks n (r ∷ rs) zero pos v h = absurd (omega arith)
as_chunks-append_chunks n (r ∷ rs) (suc rounds) pos (v, vs) h =
    let body = append_chunks rs [] in
    let long : ltb (length (r ++ body)) n ≡ false = ground (arith, length-append r body) in
    rw (
      append_chunks-append rs r,
      long,
      drop-append r body n v,
      take-append r body n v,
      as_chunks-append_chunks n rs rounds pos vs (omega arith),
    )

-- A list of one to 511 digests encodes into a reuse page, and the page parses back into them.
pub parse_reuse_page-encode_reuse_page :
    (first : ℕ) (rs : List Bytes)
    → first < 2 ^ 32
    → All (λ r. length r ≡ 32) rs
    → 0 < length rs
    → length rs ≤ reuse_per_page
    → (encode_reuse_page first rs >>= λ page. parse_reuse_page page first) ≡ ok rs
unfolding encode_reuse_page parse_reuse_page
parse_reuse_page-encode_reuse_page first rs hf v pos max =
    let head = page_header reuse_page_magic reuse_record_size first in
    let body = append_chunks rs [] in
    let size : length body ≡ length rs * 32 = omega (arith, length-append_chunks rs [] v) in
    let counted : parse_page_header (head ++ body) reuse_page_magic 32 first ≡ ok (length rs) =
      parse_page_header-append reuse_page_magic body 32 first (length rs) refl (omega arith) hf
        (omega arith) (omega arith) (omega arith) in
    rw (append_chunks-append rs head) (
      ground (
        arith,
        counted,
        drop-append head body 16 (length-page_header reuse_page_magic 32 first refl),
        length-append head body,
        as_chunks-append_chunks 32 rs (length (head ++ body)) (omega arith) v,
      ))
