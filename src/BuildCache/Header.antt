-- ===== src/BuildCache/Header.antt =====
-- What `parse` finds in the header of a build cache that `save` wrote.
use hakutaku.Prelude.{
  ℕ, ◌+◌, ◌^◌, ◌<◌, ◌≡◌, refl, ap, ap₂, ◌∙◌, some, [], ◌∷◌, ◌++◌, length, arith, append_assoc,
  length-append,
}
use hakutaku.Wire.{Bytes, get_range, to_le_bytes}
use hakutaku.Wire.Fronts.{take_front}
use hakutaku.BuildCache.{header, magic, read_u16, read_u32, read_u64}
use hakutaku.BuildCache.Words.{range_behind, u16_behind, u32_behind, u64_behind}

abbrev fixed_part : Bytes
fixed_part = magic ++ (2 ∷ 0 ∷ 48 ∷ 0 ∷ [])

-- A header with what follows it.
module _ (project_id : Bytes) (release_sequence entry_count : ℕ) (rest : Bytes) where
  abbrev numbers : Bytes
  numbers =
      to_le_bytes 8 release_sequence
      ++ (to_le_bytes 4 entry_count ++ (0 ∷ 0 ∷ 0 ∷ 0 ∷ 0 ∷ 0 ∷ 0 ∷ 0 ∷ rest))

  abbrev pub whole : Bytes
  whole = header project_id release_sequence entry_count ++ rest

  header-split : whole ≡ fixed_part ++ (project_id ++ numbers)
  unfolding header to_le_bytes
  header-split = simp (append_assoc) refl

  header-split_behind : whole ≡ (fixed_part ++ project_id) ++ numbers
  unfolding header to_le_bytes
  header-split_behind = simp (append_assoc) refl

  length-numbers : length numbers ≡ 20 + length rest
  unfolding to_le_bytes
  length-numbers = omega arith

  module _ (project_len : length project_id ≡ 16) where
    length-behind : length (fixed_part ++ project_id) ≡ 28
    length-behind = omega (arith, project_len)

    length-whole : length whole ≡ 48 + length rest
    length-whole =
        ap length header-split_behind
        ∙ omega
            (arith, length-append (fixed_part ++ project_id) numbers, length-numbers, length-behind)

    pub length-header : length (header project_id release_sequence entry_count) ≡ 48
    length-header =
        omega
          (arith, length-whole, length-append (header project_id release_sequence entry_count) rest)

    length-tail : length (project_id ++ numbers) ≡ 36 + length rest
    length-tail = omega (arith, length-append project_id numbers, length-numbers, project_len)

    pub magic_back : get_range whole 0 8 ≡ some magic
    magic_back = rw header-split (
        range_behind [] (fixed_part ++ (project_id ++ numbers)) 0 8 magic
          (omega (arith, length-tail)) refl)

    pub version_back : read_u16 whole 8 ≡ some 2
    unfolding to_le_bytes
    version_back = rw header-split (
        u16_behind [] (fixed_part ++ (project_id ++ numbers)) 8 2 (omega (arith, length-tail))
          (omega arith) refl)

    pub size_back : read_u16 whole 10 ≡ some 48
    unfolding to_le_bytes
    size_back = rw header-split (
        u16_behind [] (fixed_part ++ (project_id ++ numbers)) 10 48 (omega (arith, length-tail))
          (omega arith) refl)

    pub project_back : get_range whole 12 28 ≡ some project_id
    project_back = rw header-split (
        range_behind fixed_part (project_id ++ numbers) 0 16 project_id (omega (arith, length-tail))
          (rw (← project_len) (take_front project_id numbers)))

    pub release_back : release_sequence < 2 ^ 64 → read_u64 whole 28 ≡ some release_sequence
    unfolding to_le_bytes
    release_back h =
        let place : 28 ≡ length (fixed_part ++ project_id) + 0 = omega (arith, length-behind) in
        rw header-split_behind (
          ap (read_u64 ((fixed_part ++ project_id) ++ numbers)) place
          ∙ u64_behind (fixed_part ++ project_id) numbers 0 release_sequence
              (omega (arith, length-numbers)) h refl)

    pub count_back : entry_count < 2 ^ 32 → read_u32 whole 36 ≡ some entry_count
    unfolding to_le_bytes
    count_back h =
        let place : 36 ≡ length (fixed_part ++ project_id) + 8 = omega (arith, length-behind) in
        rw header-split_behind (
          ap (read_u32 ((fixed_part ++ project_id) ++ numbers)) place
          ∙ u32_behind (fixed_part ++ project_id) numbers 8 entry_count
              (omega (arith, length-numbers)) h refl)

    pub reserved_back : get_range whole 40 48 ≡ some (0 ∷ 0 ∷ 0 ∷ 0 ∷ 0 ∷ 0 ∷ 0 ∷ 0 ∷ [])
    unfolding to_le_bytes
    reserved_back =
        let start : 40 ≡ length (fixed_part ++ project_id) + 12 = omega (arith, length-behind) in
        let end : 48 ≡ length (fixed_part ++ project_id) + 12 + 8 = omega (arith, length-behind) in
        rw header-split_behind (
          ap₂ (get_range ((fixed_part ++ project_id) ++ numbers)) start end
          ∙ range_behind (fixed_part ++ project_id) numbers 12 8 _ (omega (arith, length-numbers))
              refl)
