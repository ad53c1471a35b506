-- ===== src/PathIndex.antt =====
-- The hash table from paths to files: `build_path_slots` of crates/pack/src/packer.rs, which writes
-- it, and `find_file` of crates/core/src/format.rs, which reads it.
-- `hash_of` is the 32-bit front of the keyed BLAKE3 hash of a path. A left value is the text of an
-- `Error::InvalidInput`.
pub mod Slots
pub mod Placing
pub mod Finding
mod Tests
use Prim.Native.Nat.{bit_and}
use hakutaku.Prelude.{
  ℕ, zero, suc, ◌+◌, ◌-◌, ◌*◌, ◌%◌, ◌^◌, Option, none, some, List, [], ◌∷◌, length, get_elem?, set,
  replicate, ltb, leb, not, ◌==◌, ◌||◌, if◌then◌else◌, String, ◌⊎◌, inl, inr, Bool, true, false,
}
use hakutaku.Wire.{
  Bytes, Result, ok, err, invalid_format, ◌>>=◌, ◌>>◌, u32_mod, u64_mod, usize_mod, bytes_eq, guard,
  table_offset,
}
use hakutaku.Paths.{validate_canonical_path}
use hakutaku.Format.Constants.{empty_path_slot, path_slot_size}
use hakutaku.Format.PathSlot
use hakutaku.Format.PathSlot.{PathSlot}

-- `hash.wrapping_add(probe) & mask`, where a table of `count` slots has the mask `count - 1`.
unfoldable pub probe_at : ℕ → ℕ → ℕ → ℕ
probe_at count hash probe = bit_and ((hash + probe) % u32_mod) (count - 1)

-- `usize::checked_next_power_of_two`: the first power from `power` on that is large enough.
unfoldable pub next_power : ℕ → ℕ → ℕ → Option ℕ
next_power zero power n = none
next_power (suc rounds) power n =
    let rest = next_power rounds (2 * power) n in if leb n power then some power else rest

abbrev pub next_power_of_two : ℕ → Option ℕ
unfolding next_power
next_power_of_two n = next_power 64 1 n

abbrev pub empty_slot : PathSlot
empty_slot = record { hash = 0; file_index = empty_path_slot }

-- The loop over the probes for one path. An index past the end would be a panic, and is the error
-- of a full table here.
unfoldable pub place : ℕ → ℕ → ℕ → ℕ → List PathSlot → String ⊎ List PathSlot
unfolding probe_at
place zero probe hash file_index slots = inl "path index is full"
place (suc rounds) probe hash file_index slots =
    let slot = probe_at (length slots) hash probe in
    let rest = place rounds (probe + 1) hash file_index slots in
    elim (get_elem? slots slot) [
      | none ↦ inl "path index is full"
      | some there ↦
          if there.file_index == empty_path_slot
          then (if ltb file_index u32_mod
              then inr (set slots slot (record { hash = hash; file_index = file_index }))
              else inl "too many files")
          else rest
    ]

-- `paths.len().saturating_mul(2).max(1)`
unfoldable pub desired_slots : ℕ → ℕ
desired_slots n = if n == 0 then 1 else (if ltb (n * 2) usize_mod then n * 2 else (usize_mod - 1))

module _ (hash_of : Bytes → ℕ) where
  -- The loop over the paths, from the file `file_index` on.
  unfoldable pub place_all : ℕ → List Bytes → List PathSlot → String ⊎ List PathSlot
  unfolding place
  place_all file_index [] slots = inr slots
  place_all file_index (path ∷ paths) slots =
      elim (place (length slots) 0 (hash_of path) file_index slots) [
        | inl failure ↦ inl failure
        | inr slots' ↦ place_all (suc file_index) paths slots'
      ]

  unfoldable pub build_path_slots : List Bytes → ℕ → String ⊎ List PathSlot
  unfolding place_all desired_slots
  build_path_slots paths files_len =
      if length paths == files_len
      then elim (next_power_of_two (desired_slots (length paths))) [
        | none ↦ inl "path index is too large"
        | some count ↦ place_all 0 paths (replicate count empty_slot)
      ]
      else inl "path/file count mismatch"

-- `Catalog::find_file`, with `slot_at` and `path_at` for the catalog's `path_slot`
-- and `path`.
module _ (slot_at : ℕ → Result PathSlot) (path_at : ℕ → Result Bytes) where
  unfoldable pub find_from : ℕ → ℕ → ℕ → ℕ → Bytes → Result (Option ℕ)
  unfolding probe_at
  find_from zero probe count hash path = err (invalid_format "path index has no empty slot")
  find_from (suc rounds) probe count hash path =
      let rest = find_from rounds (probe + 1) count hash path in
      slot_at (probe_at count hash probe) >>= λ slot.
      if slot.file_index == empty_path_slot
      then ok none
      else (if slot.hash == hash
          then (path_at slot.file_index >>= λ found.
              if bytes_eq found path then ok (some slot.file_index) else rest)
          else rest)

  unfoldable pub find_file : (Bytes → ℕ) → ℕ → Bytes → Result (Option ℕ)
  unfolding find_from
  find_file hash_of path_slot_count path = do
    validate_canonical_path path
    find_from path_slot_count 0 path_slot_count (hash_of path) path
