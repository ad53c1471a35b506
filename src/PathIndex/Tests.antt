-- ===== src/PathIndex/Tests.antt =====
-- Runs of the path index, and its theorems at concrete paths.
use hakutaku.Prelude.{ℕ, ◌≡◌, refl, List, [], ◌∷◌, get_elem?, some, none, inr, arith}
use hakutaku.Wire.{Bytes, Result, ok, err, invalid_range, bytes_eq}
use hakutaku.Format.PathSlot.{PathSlot}
use hakutaku.Paths.{
  validate_canonical_path, contains, any, starts_with, ends_with, is_empty, split,
  to_ascii_lowercase, eq_ignore_ascii_case, split_at_checked, is_port_number,
  is_windows_reserved_component, is_forbidden, is_bad_part,
}
use hakutaku.Paths.Canonical.{IsCanonical}
use hakutaku.PathIndex.{
  build_path_slots, find_file, probe_at, place, place_all, desired_slots, empty_slot, find_from,
  next_power,
}
use hakutaku.PathIndex.Finding.{Serves, find_file-build_path_slots, path_at-find_file}

abbrev reader : {A : Type 0} → List A → ℕ → Result A
reader xs i = elim (get_elem? xs i) [ none ↦ err invalid_range | some a ↦ ok a ]

reader-Serves : {A : Type 0} (xs : List A) → Serves (reader xs) xs
reader-Serves xs i a at = rw (at, reader) refl

-- Two of the three paths, `b1`, `b2` and `c`, have the same hash.
abbrev colliding : Bytes → ℕ
colliding [] = 0
colliding (x ∷ xs) = x

abbrev some_paths : List Bytes
some_paths = (98 ∷ 49 ∷ []) ∷ (98 ∷ 50 ∷ []) ∷ (99 ∷ []) ∷ []

abbrev slot : ℕ → ℕ → PathSlot
slot hash file_index = record { hash = hash; file_index = file_index }

abbrev some_slots : List PathSlot
some_slots =
    empty_slot
    ∷ empty_slot
    ∷ slot 98 0
    ∷ slot 98 1
    ∷ slot 99 2
    ∷ empty_slot
    ∷ empty_slot
    ∷ empty_slot
    ∷ []

some_slots-build_path_slots : build_path_slots colliding some_paths 3 ≡ inr some_slots
unfolding build_path_slots place_all place probe_at desired_slots next_power
some_slots-build_path_slots = refl

find_file_third :
    find_file (reader some_slots) (reader some_paths) colliding 8 (99 ∷ []) ≡ ok (some 2)
unfolding find_file find_from probe_at bytes_eq validate_canonical_path contains any starts_with
    ends_with is_empty split to_ascii_lowercase eq_ignore_ascii_case split_at_checked is_port_number
    is_windows_reserved_component is_forbidden is_bad_part
find_file_third = refl

find_file_absent : find_file (reader some_slots) (reader some_paths) colliding 8 (98 ∷ []) ≡ ok none
unfolding find_file find_from probe_at bytes_eq validate_canonical_path contains any starts_with
    ends_with is_empty split to_ascii_lowercase eq_ignore_ascii_case split_at_checked is_port_number
    is_windows_reserved_component is_forbidden is_bad_part
find_file_absent = refl

second_valid : validate_canonical_path (98 ∷ 50 ∷ []) ≡ ok tt
unfolding bytes_eq validate_canonical_path contains any starts_with ends_with is_empty split
    to_ascii_lowercase eq_ignore_ascii_case split_at_checked is_port_number
    is_windows_reserved_component is_forbidden is_bad_part
second_valid = refl

find_file-build_path_slots_example :
    (j : ℕ) × (get_elem? some_paths j ≡ some (98 ∷ 50 ∷ []))
    × (find_file (reader some_slots) (reader some_paths) colliding 8 (98 ∷ 50 ∷ []) ≡ ok (some j))
find_file-build_path_slots_example =
    find_file-build_path_slots colliding some_paths 3 some_slots (reader some_slots)
      (reader some_paths) some_slots-build_path_slots (omega arith) (reader-Serves some_slots)
      (reader-Serves some_paths) 1 (98 ∷ 50 ∷ []) refl second_valid

path_at-find_file_example : (reader some_paths 2 ≡ ok (99 ∷ [])) × IsCanonical (99 ∷ [])
path_at-find_file_example =
    path_at-find_file colliding (reader some_slots) (reader some_paths) 8 (99 ∷ []) 2
      find_file_third
