-- ===== src/PathIndex/Finding.antt =====
-- What the runtime's probing finds in a path index that the packer built.
use hakutaku.Prelude.{
  ℕ, suc, zero, ◌+◌, ◌<◌, ◌≤◌, ◌≡◌, ◌≢◌, List, length, get_elem?, get_elem?-lt, if◌then◌else◌, [],
  ◌∷◌, refl, some, Option, arith, inl, inr, ◌==◌, Bool-cases,
}
use hakutaku.Wire.{Bytes, Result, ok, ◌>>=◌, >>=-eq-ok, u32_mod, bytes_eq}
use hakutaku.Wire.Inverse.{bytes_eq-eq, bytes_eq_refl}
use hakutaku.Format.Constants.{empty_path_slot}
use hakutaku.Format.PathSlot.{PathSlot}
use hakutaku.Paths.{validate_canonical_path}
use hakutaku.Paths.Canonical.{IsCanonical, validate_canonical_path-IsCanonical}
use hakutaku.PathIndex.{probe_at, find_from, find_file, build_path_slots}
use hakutaku.PathIndex.Slots.{Taken, Placed, Names}
use hakutaku.PathIndex.Placing.{build_path_slots-IsBuilt}

-- A reader that gives the elements of a list.
abbrev pub Serves : {A : Type 0} → (ℕ → Result A) → List A → Type 0
Serves {A} reads elements = (i : ℕ) (a : A) → get_elem? elements i ≡ some a → reads i ≡ ok a

get_elem?_in :
    {A : Type 0} (xs : List A) (i : ℕ) → i < length xs → (a : A) × (get_elem? xs i ≡ some a)
get_elem?_in [] i h = elim h [ ]
get_elem?_in (x ∷ xs) zero h = (x, refl)
get_elem?_in (x ∷ xs) (suc i) h = get_elem?_in xs i (omega arith)

module _ (slot_at : ℕ → Result PathSlot) (path_at : ℕ → Result Bytes) (slots : List PathSlot)
    (paths : List Bytes) (serves_slots : Serves slot_at slots) (serves_paths : Serves path_at paths)
    (names : Names (length paths) slots) where
  -- The answer is a file with this path.
  pub Finds : Bytes → Result (Option ℕ) → Type 0
  Finds path answer = (j : ℕ) × (get_elem? paths j ≡ some path) × (answer ≡ ok (some j))

  -- A slot in use ends the search with the right file, or hands it on.
  find_from-Taken :
      (rounds probe hash : ℕ) (path : Bytes)
      → Taken slots (probe_at (length slots) hash probe)
      → Finds path (find_from slot_at path_at rounds (probe + 1) (length slots) hash path)
      → Finds path (find_from slot_at path_at (suc rounds) probe (length slots) hash path)
  unfolding find_from Finds
  find_from-Taken rounds probe hash path t (j, at, rest) =
      let s = t.slot in
      let (found, there) = get_elem?_in paths s.file_index (names _ s t.there t.in_use) in
      let reads = serves_slots _ s t.there in
      let names_path = serves_paths s.file_index found there in
      elim (Bool-cases (s.hash == hash)) [
        | inr ne ↦ (j, at, ground (arith, reads, rest))
        | inl eq ↦ elim (Bool-cases (bytes_eq found path)) [
          | inr differ ↦ (j, at, ground (arith, reads, names_path, rest))
          | inl same ↦ (
            s.file_index,
            rw (← bytes_eq-eq found path same) there,
            ground (arith, reads, names_path),
          )
        ]
      ]

  find_from_here :
      (rounds probe hash i : ℕ) (path : Bytes)
      → i ≢ empty_path_slot
      → get_elem? paths i ≡ some path
      → slot_at (probe_at (length slots) hash probe) ≡ ok (record { hash = hash; file_index = i })
      → Finds path (find_from slot_at path_at (suc rounds) probe (length slots) hash path)
  unfolding find_from Finds
  find_from_here rounds probe hash i path real at reads =
      (i, at, ground (arith, reads, serves_paths i path at, bytes_eq_refl path))

  find_from-Placed :
      (rounds probe hash i : ℕ) (path : Bytes) (p : Placed slots hash i)
      → i ≢ empty_path_slot
      → get_elem? paths i ≡ some path
      → probe ≤ p.probe
      → probe + rounds ≡ length slots
      → Finds path (find_from slot_at path_at rounds probe (length slots) hash path)
  find_from-Placed zero probe hash i path p real at le sum = absurd (omega (arith, p.in_table))
  find_from-Placed (suc rounds) probe hash i path p real at le sum =
      elim (Bool-cases (probe == p.probe)) [
        | inl eq ↦
            find_from_here rounds probe hash i path real at
              (serves_slots _ _ (let same : probe ≡ p.probe = ground arith in rw same p.there))
        | inr ne ↦ find_from-Taken rounds probe hash path (p.before probe (ground (arith))) (
            find_from-Placed rounds (probe + 1) hash i path p real at (ground arith)
              (omega (arith, sum)))
      ]

-- In the table that `build_path_slots` returned for fewer than 2^32 paths, read with its own number
-- of slots, `find_file` finds every one of these paths that is canonical, as a file that has it.
pub find_file-build_path_slots :
    (hash_of : Bytes → ℕ) (paths : List Bytes) (files_len : ℕ) (slots : List PathSlot)
    (slot_at : ℕ → Result PathSlot) (path_at : ℕ → Result Bytes)
    → build_path_slots hash_of paths files_len ≡ inr slots
    → length paths < u32_mod
    → Serves slot_at slots
    → Serves path_at paths
    → (i : ℕ) (path : Bytes) → get_elem? paths i ≡ some path
    → validate_canonical_path path ≡ ok tt
    → (j : ℕ) × (get_elem? paths j ≡ some path)
      × (find_file slot_at path_at hash_of (length slots) path ≡ ok (some j))
unfolding find_file Finds
find_file-build_path_slots hash_of paths files_len slots slot_at path_at built small ss sp i path at
      valid =
    let b = build_path_slots-IsBuilt hash_of paths files_len built small in
    rw valid (
      find_from-Placed slot_at path_at slots paths ss sp b.named (length slots) 0 (hash_of path) i
        path (b.placed i path at) (λ h. omega (arith, h, get_elem?-lt paths i path at)) at
        (omega arith) (omega arith))

path_at-find_from :
    (slot_at : ℕ → Result PathSlot) (path_at : ℕ → Result Bytes) (rounds probe count hash : ℕ)
    (path : Bytes) (j : ℕ)
    → find_from slot_at path_at rounds probe count hash path ≡ ok (some j)
    → path_at j ≡ ok path
unfolding find_from
path_at-find_from slot_at path_at zero probe count hash path j e = absurd (cc)
path_at-find_from slot_at path_at (suc rounds) probe count hash path j e =
    let (slot, _, e') = >>=-eq-ok (slot_at (probe_at count hash probe)) _ e in
    elim (Bool-cases (slot.file_index == empty_path_slot)) [
      | inl free ↦ absurd (ground (arith, e'))
      | inr used ↦ elim (Bool-cases (slot.hash == hash)) [
        | inr ne ↦
            path_at-find_from slot_at path_at rounds (probe + 1) count hash path j
              (ground (arith, e'))
        | inl eq ↦
            let e2 : (path_at slot.file_index >>= λ found.
            if bytes_eq found path
            then ok (some slot.file_index)
            else find_from slot_at path_at rounds (probe + 1) count hash path)
                ≡ ok (some j) =
              ground (arith, e') in
            let (found, reads, e3) = >>=-eq-ok (path_at slot.file_index) _ e2 in
            elim (Bool-cases (bytes_eq found path)) [
              | inl same ↦
                  let at_j : slot.file_index ≡ j = ground (arith, e3) in
                  rw (← at_j) (rw (← bytes_eq-eq found path same) reads)
              | inr differ ↦
                  path_at-find_from slot_at path_at rounds (probe + 1) count hash path j
                    (ground (arith, e3))
            ]
      ]
    ]

-- A file that `find_file` answers with has the path that was asked for, and this is canonical.
pub path_at-find_file :
    (hash_of : Bytes → ℕ) (slot_at : ℕ → Result PathSlot) (path_at : ℕ → Result Bytes) (count : ℕ)
    (path : Bytes) (j : ℕ)
    → find_file slot_at path_at hash_of count path ≡ ok (some j)
    → (path_at j ≡ ok path) × IsCanonical path
unfolding find_file
path_at-find_file hash_of slot_at path_at count path j e =
    let (_, valid, found) = >>=-eq-ok (validate_canonical_path path) _ e in
    (
      path_at-find_from slot_at path_at count 0 count (hash_of path) path j found,
      validate_canonical_path-IsCanonical path valid,
    )
