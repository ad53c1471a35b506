-- ===== src/Wire/Fronts.antt =====
-- Reads that end within the front of a buffer do not look at what follows, and reads behind it do not
-- look at the front.
use hakutaku.Prelude.{
  ℕ, suc, ◌+◌, ◌-◌, ◌≤◌, ◌≡◌, refl, ap, ◌∙◌, some, [], ◌∷◌, ◌++◌, length, get_elem?, take, drop,
  arith, length-append, String,
}
use hakutaku.Wire.Buffers.{
  Bytes, get_range, checked_add, checked_slice, read_array, read_u16, read_u32, require_magic,
}
use hakutaku.Wire.Slices.{slice, slice-append_left, get_elem?-append}
use hakutaku.Wire.ReadBack.{get_range_lem}

module _ (xs ys : Bytes) where
  pub get_range-append :
      (start end : ℕ)
      → start ≤ end
      → end ≤ length xs
      → get_range (xs ++ ys) start end ≡ get_range xs start end
  get_range-append start end h h' = rw (
    get_range_lem (xs ++ ys) start end h (omega (arith, length-append xs ys)),
    get_range_lem xs start end h h',
    slice-append_left xs ys start (end - start) (omega arith),
  )

  pub read_array-append :
      (n o : ℕ) → o + n ≤ length xs → read_array n (xs ++ ys) o ≡ read_array n xs o
  unfolding read_array checked_slice checked_add
  read_array-append n o h = ground (arith, get_range-append o (o + n))

  pub read_u16-append : (o : ℕ) → o + 2 ≤ length xs → read_u16 (xs ++ ys) o ≡ read_u16 xs o
  unfolding read_u16
  read_u16-append o h = rw (read_array-append 2 o h)

  pub read_u32-append : (o : ℕ) → o + 4 ≤ length xs → read_u32 (xs ++ ys) o ≡ read_u32 xs o
  unfolding read_u32
  read_u32-append o h = rw (read_array-append 4 o h)

  pub require_magic-append :
      (magic : Bytes) (name : String)
      → 8 ≤ length xs
      → require_magic (xs ++ ys) magic name ≡ require_magic xs magic name
  unfolding require_magic
  require_magic-append magic name h = rw (get_range-append 0 8 (omega arith) h)

pub take_front : (xs ys : Bytes) → take (length xs) (xs ++ ys) ≡ xs
take_front [] ys = refl
take_front (x ∷ xs) ys = ap (λ l. x ∷ l) (take_front xs ys)

pub drop_front : (xs ys : Bytes) (n : ℕ) → drop (length xs + n) (xs ++ ys) ≡ drop n ys
drop_front [] ys n = let e : 0 + n ≡ n = omega arith in rw e refl
drop_front (x ∷ xs) ys n =
    let e : suc (length xs) + n ≡ suc (length xs + n) = omega arith in rw e (drop_front xs ys n)

module _ (xs ys : Bytes) where
  pub get_range-behind :
      (a b : ℕ)
      → a ≤ b
      → b ≤ length ys
      → get_range (xs ++ ys) (length xs + a) (length xs + b) ≡ some (slice ys a (b - a))
  get_range-behind a b h h' =
      let width : length xs + b - (length xs + a) ≡ b - a = omega arith in
      get_range_lem (xs ++ ys) (length xs + a) (length xs + b) (omega arith)
        (omega (arith, length-append xs ys))
      ∙ ap (λ (n : ℕ). some (slice (xs ++ ys) (length xs + a) n)) width
      ∙ ap (λ l. some (take (b - a) l)) (drop_front xs ys a)

  pub get_elem?-behind : (i : ℕ) → get_elem? (xs ++ ys) (length xs + i) ≡ get_elem? ys i
  get_elem?-behind i =
      let place : length xs + i - length xs ≡ i = omega arith in
      ground (arith, get_elem?-append xs ys (length xs + i), ap (get_elem? ys) place)

  pub get_range-front : get_range (xs ++ ys) 0 (length xs) ≡ some xs
  get_range-front =
      let width : length xs - 0 ≡ length xs = omega arith in
      get_range_lem (xs ++ ys) 0 (length xs) (omega arith) (omega (arith, length-append xs ys))
      ∙ ap (λ (n : ℕ). some (take n (xs ++ ys))) width
      ∙ ap some (take_front xs ys)

  pub get_range-back : get_range (xs ++ ys) (length xs) (length xs + length ys) ≡ some ys
  get_range-back =
      let start : length xs ≡ length xs + 0 = omega arith in
      let width : length ys - 0 ≡ length ys = omega arith in
      let behind = get_range-behind 0 (length ys) (omega arith) (omega arith) in
      ap (λ (k : ℕ). get_range (xs ++ ys) k (length xs + length ys)) start
      ∙ behind
      ∙ ap (λ (n : ℕ). some (take n ys)) width
      ∙ ap some (take_all ys)
    where
      take_all : (zs : Bytes) → take (length zs) zs ≡ zs
      take_all [] = refl
      take_all (z ∷ zs) = ap (λ l. z ∷ l) (take_all zs)
