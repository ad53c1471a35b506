-- ===== src/Utf8.antt =====
-- `std::str::from_utf8`, as a test: crates/core/src/format.rs and crates/pack/src/build_cache.rs use
-- it on the paths that they read. A scalar is a lead byte and up to three continuation bytes.
use hakutaku.Prelude.{
  ℕ, zero, suc, Bool, true, false, ◌&&◌, Option, none, some, List, [], ◌∷◌, leb, ltb, ◌==◌,
  if◌then◌else◌,
}

-- How many bytes follow a lead byte, and the range of the first of them.
pub utf8_lead : ℕ → Option (ℕ × ℕ × ℕ)
utf8_lead x =
    if ltb x 0x80
    then some (0, 0, 0)
    else if ltb x 0xC2
    then none
    else if ltb x 0xE0
    then some (1, 0x80, 0xBF)
    else if x == 0xE0
    then some (2, 0xA0, 0xBF)
    else if x == 0xED
    then some (2, 0x80, 0x9F)
    else if ltb x 0xF0
    then some (2, 0x80, 0xBF)
    else if x == 0xF0
    then some (3, 0x90, 0xBF)
    else if ltb x 0xF4
    then some (3, 0x80, 0xBF)
    else if x == 0xF4
    then some (3, 0x80, 0x8F)
    else none

-- `more` bytes of a scalar are to come, the next of them between `low` and `high`.
pub utf8_from : ℕ → ℕ → ℕ → List ℕ → Bool
unfolding utf8_lead
utf8_from zero low high [] = true
utf8_from (suc more) low high [] = false
utf8_from zero low high (x ∷ xs) = elim (utf8_lead x) [
  | none ↦ false
  | some (more, low', high') ↦ utf8_from more low' high' xs
]
utf8_from (suc more) low high (x ∷ xs) =
    let rest = utf8_from more 0x80 0xBF xs in leb low x && leb x high && rest

unfoldable pub is_utf8 : List ℕ → Bool
unfolding utf8_from
is_utf8 bytes = utf8_from 0 0 0 bytes
