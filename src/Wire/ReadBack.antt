-- ===== src/Wire/ReadBack.antt =====
-- Reading back what an encoder wrote into a buffer of zeros, by the readers of
-- crates/core/src/format.rs.
use hakutaku.Prelude.{
  ℕ, zero, suc, ◌+◌, ◌-◌, ◌^◌, ◌≤◌, ◌<◌, ◌≡◌, refl, sym, ap, ◌∙◌, true, some, List, [], ◌∷◌, length,
  get_elem?, drop, replicate, arith, length-replicate, length-append, ◌++◌,
}
use hakutaku.Wire.Errors.{ok}
use hakutaku.Wire.Buffers.{
  Bytes, get_range, checked_add, checked_slice, read_array, read_u16, read_u32, read_u64, byte_at,
  require_zero, all_zero, require_len, require_magic, usize_mod, to_le_bytes,
}
use hakutaku.Wire.Slices.{slice, slice-append}
use hakutaku.Wire.Words.{from_le_bytes-to_le_bytes, length-to_le_bytes}
use hakutaku.Wire.Inverse.{bytes_eq_refl}
use Prim.Native.String.{String}
use mathlib.Core.Path.{subst}
use hakutaku.Wire.Writes.{
  Write, write_all, Within, Spares, length-write_all, slice-write_all, slice-write_all_ne,
  slice-replicate,
}

pub get_range_lem :
    (b : Bytes) (start end : ℕ)
    → start ≤ end
    → end ≤ length b
    → get_range b start end ≡ some (slice b start (end - start))
unfolding get_range
get_range_lem b start end h h' = ground arith

pub checked_slice_lem :
    (b : Bytes) (o n : ℕ)
    → o + n ≤ length b
    → o + n < usize_mod
    → checked_slice b o n ≡ ok (slice b o n)
unfolding checked_slice checked_add
checked_slice_lem b o n h h' =
    ground (arith, get_range_lem b o (o + n), ap (λ (k : ℕ). slice b o k) (sub_add o n))
  where
    sub_add : (o n : ℕ) → o + n - o ≡ n
    sub_add o n = omega arith

pub all_zero-replicate : (n : ℕ) → all_zero (replicate n 0) ≡ true
unfolding all_zero
all_zero-replicate zero = refl
all_zero-replicate (suc n) = all_zero-replicate n

pub byte_at-slice : (b : Bytes) (i v : ℕ) → slice b i 1 ≡ v ∷ [] → byte_at b i ≡ v
unfolding byte_at
byte_at-slice [] zero v e = absurd (cc)
byte_at-slice [] (suc i) v e = absurd (cc)
byte_at-slice (x ∷ b) zero v e = cc
byte_at-slice (x ∷ b) (suc i) v e = byte_at-slice b i v e

-- The writes of an encoder lie in its buffer.
pub record IsLayout (size : ℕ) (ws : List Write) : Type 0 where
  pub within : Within size ws
  pub fits : size < usize_mod

abbrev pub encoded : ℕ → List Write → Bytes
encoded size ws = write_all ws (replicate size 0)

-- The `n` bytes at `o` lie in the buffer, and no write after the `k`-th touches them.
abbrev pub Kept : ℕ → List Write → ℕ → ℕ → ℕ → Type 0
Kept size ws k o n = (o + n ≤ size) × Spares o n (drop (suc k) ws)

-- Reading back what the writes of an encoder put into a buffer of zeros.
module _ {size : ℕ} {ws : List Write} (layout : IsLayout size ws) where
  zeros-Within : Within (length (replicate {A = ℕ} size 0)) ws
  zeros-Within = subst (λ n. Within n ws) (sym (length-replicate size 0)) layout.within

  pub length-encoded : length (encoded size ws) ≡ size
  length-encoded = length-write_all ws (replicate size 0) zeros-Within ∙ length-replicate size 0

  pub slice_back :
      (k o n : ℕ) {s : Bytes}
      → get_elem? ws k ≡ some (o, s)
      → length s ≡ n
      → Spares o n (drop (suc k) ws)
      → slice (encoded size ws) o n ≡ s
  slice_back k o n {s} e l a =
      rw (← l) (slice-write_all ws (replicate size 0) k o s e zeros-Within (rw l a))

  pub array_back :
      (k o n : ℕ) {s : Bytes}
      → get_elem? ws k ≡ some (o, s)
      → length s ≡ n
      → Kept size ws k o n
      → read_array n (encoded size ws) o ≡ ok s
  unfolding read_array
  array_back k o n e l (h, a) =
      checked_slice_lem (encoded size ws) o n (omega (arith, length-encoded))
        (omega (arith, layout.fits))
      ∙ ap ok (slice_back k o n e l a)

  pub word_back :
      (k o n v : ℕ)
      → get_elem? ws k ≡ some (o, to_le_bytes n v)
      → Spares o n (drop (suc k) ws)
      → slice (encoded size ws) o n ≡ to_le_bytes n v
  word_back k o n v e a = slice_back k o n e (length-to_le_bytes n v) a

  pub u16_back :
      (k o v : ℕ)
      → get_elem? ws k ≡ some (o, to_le_bytes 2 v)
      → v < 2 ^ 16
      → Kept size ws k o 2
      → read_u16 (encoded size ws) o ≡ ok v
  unfolding read_u16
  u16_back k o v e hv a =
      rw (array_back k o 2 e (length-to_le_bytes 2 v) a) (ap ok (from_le_bytes-to_le_bytes 2 v hv))

  pub u32_back :
      (k o v : ℕ)
      → get_elem? ws k ≡ some (o, to_le_bytes 4 v)
      → v < 2 ^ 32
      → Kept size ws k o 4
      → read_u32 (encoded size ws) o ≡ ok v
  unfolding read_u32
  u32_back k o v e hv a =
      rw (array_back k o 4 e (length-to_le_bytes 4 v) a) (ap ok (from_le_bytes-to_le_bytes 4 v hv))

  pub u64_back :
      (k o v : ℕ)
      → get_elem? ws k ≡ some (o, to_le_bytes 8 v)
      → v < 2 ^ 64
      → Kept size ws k o 8
      → read_u64 (encoded size ws) o ≡ ok v
  unfolding read_u64
  u64_back k o v e hv a =
      rw (array_back k o 8 e (length-to_le_bytes 8 v) a) (ap ok (from_le_bytes-to_le_bytes 8 v hv))

  pub byte_back :
      (k o v : ℕ)
      → get_elem? ws k ≡ some (o, v ∷ [])
      → Kept size ws k o 1
      → byte_at (encoded size ws) o ≡ v
  byte_back k o v e (h, a) = byte_at-slice (encoded size ws) o v (slice_back k o 1 e refl a)

  pub zeros_back :
      (o n : ℕ) → o + n ≤ size → Spares o n ws → slice (encoded size ws) o n ≡ replicate n 0
  zeros_back o n h a =
      slice-write_all_ne ws (replicate size 0) o n zeros-Within a ∙ slice-replicate size 0 o n h

  pub zero_byte_back : (o : ℕ) → (o + 1 ≤ size) × Spares o 1 ws → byte_at (encoded size ws) o ≡ 0
  zero_byte_back o (h, a) = byte_at-slice (encoded size ws) o 0 (zeros_back o 1 h a)

  pub require_zero_back :
      (start end : ℕ) (name : String)
      → (start ≤ end) × (end ≤ size) × Spares start (end - start) ws
      → require_zero (encoded size ws) start end name ≡ ok tt
  unfolding require_zero
  require_zero_back start end name (h, h', a) = rw (
    get_range_lem (encoded size ws) start end h (omega (arith, length-encoded)),
    zeros_back start (end - start) (omega arith) a,
    all_zero-replicate (end - start),
  )

  pub require_len_back :
      (n : ℕ) (name : String) → n ≤ size → require_len (encoded size ws) n name ≡ ok tt
  unfolding require_len
  require_len_back n name h = ground (arith, length-encoded)

  pub require_magic_back :
      (name : String) {magic : Bytes}
      → get_elem? ws 0 ≡ some (0, magic)
      → length magic ≡ 8
      → Kept size ws 0 0 8
      → require_magic (encoded size ws) magic name ≡ ok tt
  unfolding require_magic
  require_magic_back name {magic} e l (h, a) = rw (
    get_range_lem (encoded size ws) 0 8 (omega arith) (omega (arith, length-encoded)),
    slice_back 0 0 8 e l a,
    bytes_eq_refl magic,
  )

pub checked_slice-append :
    (out r post : Bytes) (n : ℕ)
    → length r ≡ n
    → length out + n < usize_mod
    → checked_slice (out ++ (r ++ post)) (length out) n ≡ ok r
checked_slice-append out r post n l h =
    checked_slice_lem (out ++ (r ++ post)) (length out) n
      (omega (arith, length-append out (r ++ post), length-append r post)) h
    ∙ ap ok (slice-append out r post n l)
