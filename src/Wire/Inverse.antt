-- ===== src/Wire/Inverse.antt =====
-- What a successful read says of the bytes that it read.
use hakutaku.Prelude.{
  ℕ, zero, suc, ◌+◌, ◌-◌, ◌^◌, ◌≤◌, ◌<◌, ◌≡◌, refl, sym, ap, ◌∙◌, Option-cases, inl, inr, true,
  some, [], ◌∷◌, length, take, replicate, ◌++◌, All, arith, String,
}
use hakutaku.Wire.Errors.{ok, ◌>>=◌, >>=-eq-ok}
use hakutaku.Wire.Buffers.{
  Bytes, IsByte, get_range, checked_add, checked_slice, read_array, read_u16, read_u32, read_u64,
  byte_at, require_len, require_zero, require_magic, bytes_eq, all_zero, to_le_bytes, from_le_bytes,
}
use hakutaku.Wire.Slices.{slice, length-slice, take-append_slice}
use hakutaku.Wire.Words.{to_le_bytes-from_le_bytes, from_le_bytes-lt}

pub All-slice : (b : Bytes) (o n : ℕ) → All IsByte b → All IsByte (slice b o n)
All-slice b zero zero h = tt
All-slice [] zero (suc n) h = tt
All-slice (x ∷ b) zero (suc n) (hx, h) = (hx, All-slice b zero n h)
All-slice [] (suc o) zero h = tt
All-slice [] (suc o) (suc n) h = tt
All-slice (x ∷ b) (suc o) n (hx, h) = All-slice b o n h

pub get_range_inv :
    (b : Bytes) (start end : ℕ) {s : Bytes}
    → get_range b start end ≡ some s
    → (start ≤ end) × (end ≤ length b) × (slice b start (end - start) ≡ s)
unfolding get_range
get_range_inv b start end e = ground arith

pub checked_slice_inv :
    (b : Bytes) (o n : ℕ) {s : Bytes}
    → checked_slice b o n ≡ ok s
    → (o + n ≤ length b) × (slice b o n ≡ s)
unfolding checked_slice checked_add
checked_slice_inv b o n {s} e =
    let sub_add : o + n - o ≡ n = omega arith in
    ground (arith, get_range_inv b o (o + n) {s = s}, ap (λ (k : ℕ). slice b o k) sub_add)

pub read_array_inv :
    (n : ℕ) (b : Bytes) (o : ℕ) {s : Bytes}
    → read_array n b o ≡ ok s
    → (o + n ≤ length b) × (slice b o n ≡ s)
unfolding read_array
read_array_inv n b o e = checked_slice_inv b o n e

pub length-read_array :
    (n : ℕ) (b : Bytes) (o : ℕ) {s : Bytes} → read_array n b o ≡ ok s → length s ≡ n
length-read_array n b o e =
    let (fits, same) = read_array_inv n b o e in rw (← same) (length-slice b o n fits)

word_of_slice :
    (n : ℕ) (b : Bytes) (o : ℕ) (s : Bytes)
    → All IsByte b
    → read_array n b o ≡ ok s
    → (o + n ≤ length b)
      × (slice b o n ≡ to_le_bytes n (from_le_bytes s))
      × (from_le_bytes s < 256 ^ n)
word_of_slice n b o s h e =
    let (fits, same) = read_array_inv n b o e in
    let l : length s ≡ n = rw (← same) (length-slice b o n fits) in
    let bytes : All IsByte s = rw (← same) (All-slice b o n h) in
    (
      fits,
      same ∙ sym (rw l at (to_le_bytes-from_le_bytes s bytes)),
      (rw l at (from_le_bytes-lt s bytes)),
    )

abbrev pub WordAt : ℕ → Bytes → ℕ → ℕ → Type 0
WordAt n b o v = (o + n ≤ length b) × (slice b o n ≡ to_le_bytes n v) × (v < 256 ^ n)

word_inv :
    (n : ℕ) (b : Bytes) (o v : ℕ)
    → All IsByte b
    → (read_array n b o >>= λ a. ok (from_le_bytes a)) ≡ ok v
    → WordAt n b o v
word_inv n b o v h e =
    let (s, e', r) = >>=-eq-ok (read_array n b o) (λ a. ok (from_le_bytes a)) e in
    let q : from_le_bytes s ≡ v = cc in rw (← q) (word_of_slice n b o s h e')

module _ (b : Bytes) (o v : ℕ) (h : All IsByte b) where
  pub read_u16_inv : read_u16 b o ≡ ok v → WordAt 2 b o v
  unfolding read_u16
  read_u16_inv e = word_inv 2 b o v h e

  pub read_u32_inv : read_u32 b o ≡ ok v → WordAt 4 b o v
  unfolding read_u32
  read_u32_inv e = word_inv 4 b o v h e

  pub read_u64_inv : read_u64 b o ≡ ok v → WordAt 8 b o v
  unfolding read_u64
  read_u64_inv e = word_inv 8 b o v h e

pub bytes_eq-eq : (xs ys : Bytes) → bytes_eq xs ys ≡ true → xs ≡ ys
unfolding bytes_eq
bytes_eq-eq [] [] e = refl
bytes_eq-eq [] (y ∷ ys) e = absurd (cc)
bytes_eq-eq (x ∷ xs) [] e = absurd (cc)
bytes_eq-eq (x ∷ xs) (y ∷ ys) e = ground (arith, bytes_eq-eq xs ys)

pub bytes_eq_refl : (xs : Bytes) → bytes_eq xs xs ≡ true
unfolding bytes_eq
bytes_eq_refl [] = refl
bytes_eq_refl (x ∷ xs) = ground (arith, bytes_eq_refl xs)

pub require_magic_inv :
    (b magic : Bytes) (name : String) → require_magic b magic name ≡ ok tt → slice b 0 8 ≡ magic
unfolding require_magic
require_magic_inv b magic name e = elim (Option-cases (get_range b 0 8)) [
  | inl none_left ↦ absurd (ground arith)
  | inr (front, found) ↦ (get_range_inv b 0 8 found).2 ∙ bytes_eq-eq front magic (ground arith)
]

all_zero-eq : (xs : Bytes) → all_zero xs ≡ true → xs ≡ replicate (length xs) 0
unfolding all_zero
all_zero-eq [] e = refl
all_zero-eq (x ∷ xs) e = ground (arith, all_zero-eq xs)

pub require_zero_inv :
    (b : Bytes) (start end : ℕ) (name : String)
    → require_zero b start end name ≡ ok tt
    → (end ≤ length b) × (slice b start (end - start) ≡ replicate (end - start) 0)
unfolding require_zero
require_zero_inv b start end name e = elim (Option-cases (get_range b start end)) [
  | inl none_left ↦ absurd (ground arith)
  | inr (s, found) ↦
      let (lo, hi, same) = get_range_inv b start end found in
      let l : length s ≡ end - start =
        rw (← same) (length-slice b start (end - start) (omega arith)) in
      (hi, same ∙ rw (all_zero-eq s (ground arith)) (ap (λ n. replicate n 0) l))
]

pub require_len_inv :
    (b : Bytes) (n : ℕ) (name : String) → require_len b n name ≡ ok tt → n ≤ length b
unfolding require_len
require_len_inv b n name e = ground arith

pub slice-byte_at : (b : Bytes) (i : ℕ) → i < length b → slice b i 1 ≡ byte_at b i ∷ []
unfolding byte_at
slice-byte_at [] i h = elim h [ ]
slice-byte_at (x ∷ b) zero h = refl
slice-byte_at (x ∷ b) (suc i) h = slice-byte_at b i (omega arith)

pub slice_of_byte :
    (b : Bytes) (i : ℕ) {v : ℕ} → i < length b → v ≡ byte_at b i → slice b i 1 ≡ v ∷ []
slice_of_byte b i h e = rw e (slice-byte_at b i h)

-- What `checked_slice` found: its length, its bytes, and its place.
pub checked_slice_bytes :
    (b : Bytes) (o n : ℕ) {s : Bytes}
    → All IsByte b
    → checked_slice b o n ≡ ok s
    → (length s ≡ n) × All IsByte s × (take o b ++ take n s ≡ take (o + n) b)
checked_slice_bytes b o n h e =
    let (fits, same) = checked_slice_inv b o n e in
    (
      rw (← same) (length-slice b o n fits),
      rw (← same) (All-slice b o n h),
      rw (← same) (take-append_slice b o n),
    )
