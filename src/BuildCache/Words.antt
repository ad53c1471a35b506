-- ===== src/BuildCache/Words.antt =====
-- What the readers of build_cache.rs find behind a buffer.
use hakutaku.Prelude.{
  ℕ, ◌+◌, ◌-◌, ◌*◌, lt→ltb, ◌^◌, ◌≤◌, ◌<◌, ◌≡◌, ap, ◌∙◌, some, ◌++◌, length, arith,
}
use hakutaku.Prelude.Options.{◌>>=◌}
use hakutaku.Wire.{Bytes, get_range, checked_add, checked_mul, to_le_bytes, from_le_bytes}
use hakutaku.Wire.Words.{from_le_bytes-to_le_bytes}
use hakutaku.Wire.Slices.{slice}
use hakutaku.Wire.Fronts.{get_range-behind}
use hakutaku.BuildCache.{read_u16, read_u32, read_u64}

pub checked_add_lem : (m a b : ℕ) → a + b < m → checked_add m a b ≡ some (a + b)
unfolding checked_add
checked_add_lem m a b h = ground arith

pub checked_mul_lem : (m a b : ℕ) → a * b < m → checked_mul m a b ≡ some (a * b)
unfolding checked_mul
checked_mul_lem m a b h = ground (arith, lt→ltb (a * b) m h)

module _ (front t : Bytes) where
  pub range_behind :
      (a n : ℕ) (s : Bytes)
      → a + n ≤ length t
      → slice t a n ≡ s
      → get_range (front ++ t) (length front + a) (length front + a + n) ≡ some s
  range_behind a n s h e =
      let end : length front + a + n ≡ length front + (a + n) = omega arith in
      let width : a + n - a ≡ n = omega arith in
      ap (get_range (front ++ t) (length front + a)) end
      ∙ get_range-behind front t a (a + n) (omega arith) h
      ∙ ap (λ (k : ℕ). some (slice t a k)) width
      ∙ ap some e

  word_behind :
      (a n v : ℕ)
      → a + n ≤ length t
      → v < 256 ^ n
      → slice t a n ≡ to_le_bytes n v
      → (get_range (front ++ t) (length front + a) (length front + a + n) >>= λ word.
          some (from_le_bytes word))
        ≡ some v
  word_behind a n v h hv e =
      rw (range_behind a n (to_le_bytes n v) h e) (ap some (from_le_bytes-to_le_bytes n v hv))

  pub u16_behind :
      (a v : ℕ)
      → a + 2 ≤ length t
      → v < 2 ^ 16
      → slice t a 2 ≡ to_le_bytes 2 v
      → read_u16 (front ++ t) (length front + a) ≡ some v
  unfolding read_u16
  u16_behind a v h hv e = word_behind a 2 v h hv e

  pub u32_behind :
      (a v : ℕ)
      → a + 4 ≤ length t
      → v < 2 ^ 32
      → slice t a 4 ≡ to_le_bytes 4 v
      → read_u32 (front ++ t) (length front + a) ≡ some v
  unfolding read_u32
  u32_behind a v h hv e = word_behind a 4 v h hv e

  pub u64_behind :
      (a v : ℕ)
      → a + 8 ≤ length t
      → v < 2 ^ 64
      → slice t a 8 ≡ to_le_bytes 8 v
      → read_u64 (front ++ t) (length front + a) ≡ some v
  unfolding read_u64
  u64_behind a v h hv e = word_behind a 8 v h hv e
