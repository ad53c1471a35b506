-- ===== src/Catalog/Lookup.antt =====
-- `Catalog::find_file` on an accepted catalog.
use Prim.Native.Nat.{bit_and, bit_and-bitwise, digits}
use hakutaku.Prelude.{
  ℕ, zero, suc, ◌+◌, ◌-◌, ◌/◌, ◌%◌, ◌≤◌, ◌<◌, ◌≡◌, ◌≢◌, ◌⊎◌, ap, min, true, false, Option, none,
  some, inl, inr, Bool-cases, ◌==◌, arith,
}
use hakutaku.Wire.{
  Bytes, Result, Error, ok, err, invalid_format, invalid_path, bytes_eq, u32_mod, Result-cases,
}
use hakutaku.Wire.Inverse.{bytes_eq-eq, bytes_eq_refl}
use hakutaku.Format.Constants.{empty_path_slot}
use hakutaku.Format.PathSlot.{PathSlot}
use hakutaku.Paths.{validate_canonical_path}
use hakutaku.PathIndex.{probe_at, find_from, find_file}
use hakutaku.Catalog.{Catalog, path_slot, path, parse, is_power_of_two, power_from}
use hakutaku.Catalog.Checked.{AreChecked, parse-IsLaidOut, parse-AreChecked}

digits_and-le : (n a b : ℕ) → digits (λ b. zero) min n a b ≤ b
digits_and-le zero a b = omega arith
digits_and-le (suc n) zero b = omega arith
digits_and-le (suc n) (suc a) b = omega (arith, digits_and-le n (suc a / 2) (b / 2))

bit_and-le : (a b : ℕ) → bit_and a b ≤ b
bit_and-le a b = rw (bit_and-bitwise a b) (digits_and-le a a b)

probe_at-lt : (count hash probe : ℕ) → 0 < count → probe_at count hash probe < count
unfolding probe_at
probe_at-lt count hash probe h = omega (arith, bit_and-le ((hash + probe) % u32_mod) (count - 1))

pub power_pos : (n : ℕ) → is_power_of_two n ≡ true → 0 < n
unfolding is_power_of_two power_from
power_pos zero e = absurd (cc)
power_pos (suc n) e = omega arith

bytes_eq-ne : (xs ys : Bytes) → bytes_eq xs ys ≡ false → xs ≢ ys
bytes_eq-ne xs ys h e = absurd (cc (h, bytes_eq_refl ys, ap (λ l. bytes_eq l ys) e))

-- The probes of one path in the table of a catalog.
module _ (c : Catalog) (hash : ℕ) (name : Bytes) where
  -- A probe reads a slot.
  abbrev pub Reads : ℕ → PathSlot → Type 0
  Reads probe slot = path_slot c (probe_at c.path_slot_count hash probe) ≡ ok slot

  -- A probe reads a slot in use, of another hash or of a file with another path.
  pub record Passed (probe : ℕ) : Type 0 where
    pub slot : PathSlot
    pub reads : Reads probe slot
    pub in_use : slot.file_index ≢ empty_path_slot
    pub other :
        (slot.hash ≢ hash)
        ⊎ ((found : Bytes) × (path c slot.file_index ≡ ok found) × (found ≢ name))

  -- All probes before one pass their slots.
  abbrev pub AllPassed : ℕ → Type 0
  AllPassed zero = Unit
  AllPassed (suc probe) = AllPassed probe × Passed probe

  -- What the search may answer, and after which probes.
  pub data Answer : Result (Option ℕ) → Type 0 where
    absent :
        (probe : ℕ)
        → probe < c.path_slot_count
        → AllPassed probe
        → (slot : PathSlot) → Reads probe slot
        → slot.file_index ≡ empty_path_slot
        → Answer (ok none)
    found :
        (probe : ℕ)
        → probe < c.path_slot_count
        → AllPassed probe
        → (slot : PathSlot) → Reads probe slot
        → slot.hash ≡ hash
        → slot.file_index < c.file_count
        → path c slot.file_index ≡ ok name
        → Answer (ok (some slot.file_index))
    full :
        AllPassed c.path_slot_count → Answer (err (invalid_format "path index has no empty slot"))

  find_from-Answer :
      (a : AreChecked c)
      → 0 < c.path_slot_count
      → (rounds probe : ℕ) → rounds + probe ≡ c.path_slot_count
      → AllPassed probe
      → Answer (find_from (path_slot c) (path c) rounds probe c.path_slot_count hash name)
  unfolding find_from
  find_from-Answer a pos zero probe sum passed =
      let all : probe ≡ c.path_slot_count = omega (arith, sum) in full (rw all at passed)
  find_from-Answer a pos (suc rounds) probe sum passed =
      let s =
        a.slots (probe_at c.path_slot_count hash probe)
          (probe_at-lt c.path_slot_count hash probe pos) in
      let rest = λ (p : Passed probe).
        find_from-Answer a pos rounds (suc probe) (omega (arith, sum)) (passed, p) in
      let next : probe + 1 ≡ suc probe = omega arith in
      let within : probe < c.path_slot_count = omega (arith, sum) in
      elim (Bool-cases (s.slot.file_index == empty_path_slot)) [
        | inl free ↦
            rw (s.decodes, free)
              (absent probe within passed s.slot s.decodes (ground (arith, free)))
        | inr used ↦
            let in_use : s.slot.file_index ≢ empty_path_slot = λ e. ground (arith, e, used) in
            let in_range : s.slot.file_index < c.file_count = elim s.empty_or_file [
              | inl free ↦ absurd (ground arith)
              | inr below ↦ below
            ] in
            let f = a.files s.slot.file_index in_range in
            elim (Bool-cases (s.slot.hash == hash)) [
              | inr differ ↦
                  rw (s.decodes, used, differ, next)
                    (rest record {
                      slot = s.slot;
                      reads = s.decodes;
                      in_use = in_use;
                      other = inl (λ e. ground (arith, e, differ));
                    })
              | inl same ↦ elim (Bool-cases (bytes_eq f.name name)) [
                | inr differ ↦
                    rw (s.decodes, used, same, f.named, differ, next)
                      (rest record {
                        slot = s.slot;
                        reads = s.decodes;
                        in_use = in_use;
                        other = inr (f.name, f.named, bytes_eq-ne f.name name differ);
                      })
                | inl equal ↦
                    rw (s.decodes, used, same, f.named, equal)
                      (found probe within passed s.slot s.decodes (ground (arith, same)) in_range
                        (rw (← bytes_eq-eq f.name name equal) f.named))
              ]
            ]
      ]

-- What `find_file` may answer.
pub data Outcome (c : Catalog) (hash : ℕ) (name : Bytes) : Result (Option ℕ) → Type 0 where
  refused : validate_canonical_path name ≢ ok tt → Outcome c hash name (err invalid_path)
  searched :
      (answer : Result (Option ℕ))
      → validate_canonical_path name ≡ ok tt
      → Answer c hash name answer
      → Outcome c hash name answer

refusal_lem :
    (name : Bytes) {failure : Error}
    → validate_canonical_path name ≡ err failure
    → failure ≡ invalid_path
unfolding validate_canonical_path
refusal_lem name e = ground arith

-- On an accepted catalog `find_file` refuses a path exactly if it is not canonical. Otherwise it
-- probes the table from the path's hash on, past slots in use that are of another hash or of a file
-- with another path. At the first other slot it stops: at an empty one it finds no file, and at one
-- of the path's hash it finds the file of the slot, which is within the count and has that path. It
-- fails only after as many such probes as the table has slots. No record on the way is malformed.
pub find_file-Outcome :
    (bytes : Bytes) (c : Catalog) (hash_of : Bytes → ℕ) (name : Bytes)
    → parse bytes ≡ ok c
    → Outcome c
        (hash_of name)
        name
        (find_file (path_slot c) (path c) hash_of c.path_slot_count name)
unfolding find_file
find_file-Outcome bytes c hash_of name e =
    let a = parse-AreChecked bytes c e in
    let pos = power_pos c.path_slot_count (parse-IsLaidOut bytes c e).slots_power in
    elim (Result-cases (validate_canonical_path name)) [
      | inl (_, canonical) ↦ rw canonical (
          searched _ canonical
            (find_from-Answer c (hash_of name) name a pos c.path_slot_count 0 (omega arith) tt))
      | inr (failure, refusal) ↦
          rw (refusal, refusal_lem name refusal)
            (refused (λ ok_name. absurd (cc (refusal, ok_name))))
    ]
