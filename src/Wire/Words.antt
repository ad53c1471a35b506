-- ===== src/Wire/Words.antt =====
-- Little-endian words: writing then reading gives the word back, and the other way round.
use hakutaku.Prelude.{ℕ, zero, suc, ◌^◌, ◌<◌, ◌/◌, ◌≡◌, refl, [], ◌∷◌, length, All, arith, ap}
use hakutaku.Wire.Buffers.{Bytes, IsByte, from_le_bytes, to_le_bytes}

pub length-to_le_bytes : (n v : ℕ) → length (to_le_bytes n v) ≡ n
unfolding to_le_bytes
length-to_le_bytes zero v = refl
length-to_le_bytes (suc n) v = ap suc (length-to_le_bytes n (v / 256))

pub from_le_bytes-to_le_bytes : (n v : ℕ) → v < 256 ^ n → from_le_bytes (to_le_bytes n v) ≡ v
unfolding from_le_bytes to_le_bytes
from_le_bytes-to_le_bytes zero v h = omega arith
from_le_bytes-to_le_bytes (suc n) v h =
    omega (arith, from_le_bytes-to_le_bytes n (v / 256) (omega arith))

pub to_le_bytes-from_le_bytes :
    (bs : Bytes) → All IsByte bs → to_le_bytes (length bs) (from_le_bytes bs) ≡ bs
unfolding from_le_bytes to_le_bytes
to_le_bytes-from_le_bytes [] h = refl
to_le_bytes-from_le_bytes (b ∷ bs) (hb, hbs) = grind (arith, to_le_bytes-from_le_bytes bs hbs)

from_le_bytes-lt_at :
    (n : ℕ) (bs : Bytes) → length bs ≡ n → All IsByte bs → from_le_bytes bs < 256 ^ n
unfolding from_le_bytes
from_le_bytes-lt_at zero [] e h = omega arith
from_le_bytes-lt_at (suc n) [] e h = absurd (omega arith)
from_le_bytes-lt_at zero (b ∷ bs) e h = absurd (omega arith)
from_le_bytes-lt_at (suc n) (b ∷ bs) e (hb, hbs) =
    omega (arith, from_le_bytes-lt_at n bs (omega arith) hbs)

pub from_le_bytes-lt : (bs : Bytes) → All IsByte bs → from_le_bytes bs < 256 ^ length bs
from_le_bytes-lt bs h = from_le_bytes-lt_at (length bs) bs refl h
