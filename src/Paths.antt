-- ===== src/Paths.antt =====
-- `validate_canonical_path` of crates/core/src/format.rs. A `str` is its UTF-8 bytes, so that a test
-- of an ASCII character is a test of a byte.
mod Devices
pub mod Canonical
mod Tests
use hakutaku.Prelude.{
  ℕ, zero, suc, ◌+◌, Bool, true, false, ◌&&◌, ◌||◌, not, List, [], ◌∷◌, length, get_elem?, take,
  drop, Option, none, some, ltb, leb, ◌==◌, if◌then◌else◌,
}
use hakutaku.Wire.{Bytes, Result, ok, err, invalid_path, guard, bytes_eq}

unfoldable pub contains : Bytes → ℕ → Bool
contains [] c = false
contains (x ∷ xs) c = x == c || contains xs c

unfoldable pub any : {A : Type 0} → (A → Bool) → List A → Bool
any test [] = false
any test (x ∷ xs) = test x || any test xs

unfoldable pub starts_with : ℕ → Bytes → Bool
starts_with c [] = false
starts_with c (x ∷ xs) = x == c

unfoldable pub ends_with : ℕ → Bytes → Bool
ends_with c [] = false
ends_with c (x ∷ []) = x == c
ends_with c (x ∷ y ∷ xs) = ends_with c (y ∷ xs)

unfoldable pub is_empty : Bytes → Bool
is_empty [] = true
is_empty (x ∷ xs) = false

abbrev pub push_front : ℕ → List Bytes → List Bytes
push_front x [] = (x ∷ []) ∷ []
push_front x (part ∷ parts) = (x ∷ part) ∷ parts

-- `str::split` at an ASCII character
unfoldable pub split : ℕ → Bytes → List Bytes
split c [] = [] ∷ []
split c (x ∷ xs) = let rest = split c xs in if x == c then [] ∷ rest else push_front x rest

abbrev pub first_part : List Bytes → Bytes → Bytes
first_part [] component = component
first_part (part ∷ parts) component = part

unfoldable pub to_ascii_lowercase : ℕ → ℕ
to_ascii_lowercase x = if leb 65 x && leb x 90 then x + 32 else x

unfoldable pub eq_ignore_ascii_case : Bytes → Bytes → Bool
unfolding to_ascii_lowercase
eq_ignore_ascii_case [] [] = true
eq_ignore_ascii_case [] (y ∷ ys) = false
eq_ignore_ascii_case (x ∷ xs) [] = false
eq_ignore_ascii_case (x ∷ xs) (y ∷ ys) =
    to_ascii_lowercase x == to_ascii_lowercase y && eq_ignore_ascii_case xs ys

-- `str::split_at_checked`: the place has to be the start of a character, or the end.
unfoldable pub split_at_checked : ℕ → Bytes → Option (Bytes × Bytes)
split_at_checked n xs = elim (get_elem? xs n) [
  | none ↦ if length xs == n then some (xs, []) else none
  | some x ↦ if leb 128 x && ltb x 192 then none else some (take n xs, drop n xs)
]

-- The digits 1 to 9, and the superscripts of 1, 2 and 3.
unfoldable pub is_port_number : Bytes → Bool
is_port_number [] = false
is_port_number (x ∷ []) = leb 49 x && leb x 57
is_port_number (x ∷ y ∷ []) = x == 194 && (y == 185 || y == 178 || y == 179)
is_port_number (x ∷ y ∷ z ∷ xs) = false

abbrev pub device_names : List Bytes
device_names =
    (67 ∷ 79 ∷ 78 ∷ []) ∷ (80 ∷ 82 ∷ 78 ∷ []) ∷ (65 ∷ 85 ∷ 88 ∷ []) ∷ (78 ∷ 85 ∷ 76 ∷ []) ∷ []

unfoldable pub is_windows_reserved_component : Bytes → Bool
unfolding split eq_ignore_ascii_case any split_at_checked is_port_number
is_windows_reserved_component component =
    let stem = first_part (split 46 component) component in
    if any (λ name. eq_ignore_ascii_case stem name) device_names
    then true
    else elim (split_at_checked 3 stem) [
      | none ↦ false
      | some (prefix, suffix) ↦
          (eq_ignore_ascii_case prefix (67 ∷ 79 ∷ 77 ∷ [])
            || eq_ignore_ascii_case prefix (76 ∷ 80 ∷ 84 ∷ []))
          && is_port_number suffix
    ]

-- A character below the space, or one of <>:"|?*
unfoldable pub is_forbidden : ℕ → Bool
unfolding contains
is_forbidden x = ltb x 32 || contains (60 ∷ 62 ∷ 58 ∷ 34 ∷ 124 ∷ 63 ∷ 42 ∷ []) x

-- The test of a part that stands between the slashes.
unfoldable pub is_bad_part : Bytes → Bool
unfolding is_empty starts_with ends_with any is_forbidden is_windows_reserved_component
is_bad_part part =
    is_empty part
    || bytes_eq part (46 ∷ [])
    || bytes_eq part (46 ∷ 46 ∷ [])
    || starts_with 32 part
    || (ends_with 32 part || ends_with 46 part)
    || any is_forbidden part
    || is_windows_reserved_component part

unfoldable pub validate_canonical_path : Bytes → Result (Unit {0})
unfolding is_empty starts_with ends_with contains any split is_bad_part
validate_canonical_path path =
    guard
      (not (
        is_empty path
        || starts_with 47 path
        || ends_with 47 path
        || contains path 92
        || contains path 0
        || any is_bad_part (split 47 path)))
      invalid_path
