-- ===== src/PathIndex/Placing.antt =====
-- What the packer's loops leave in the path index.
use hakutaku.Prelude.{
  ℕ, suc, zero, ◌+◌, ◌<◌, ◌≡◌, ◌≢◌, List, [], ◌∷◌, length, get_elem?, set, replicate, some, arith,
  Option-cases, inl, inr, ◌==◌, Bool-cases, String, ◌⊎◌, get_elem?-set, get_elem?-lt, refl,
}
use hakutaku.Wire.{Bytes, u32_mod}
use hakutaku.Format.Constants.{empty_path_slot}
use hakutaku.Format.PathSlot.{PathSlot}
use hakutaku.PathIndex.{
  probe_at, place, place_all, build_path_slots, empty_slot, next_power_of_two, desired_slots,
}
use hakutaku.PathIndex.Slots.{
  Taken, Placed, Names, Extends, Extends-Taken, Extends-Placed, Extends-trans, set-Extends,
  set-Names, Names-replicate,
}

place-cases :
    (r : String ⊎ List PathSlot)
    → ((failure : String) × (r ≡ inl failure)) ⊎ ((slots : List PathSlot) × (r ≡ inr slots))
place-cases (inl failure) = inl (failure, refl)
place-cases (inr slots) = inr (slots, refl)

record IsPlaced (slots slots' : List PathSlot) (hash i : ℕ) : Type 0 where
  grown : Extends slots slots'
  placed : Placed slots' hash i
  named : Names (i + 1) slots'

-- The write to the first free slot on the way.
set-IsPlaced :
    (slots : List PathSlot) (probe hash i : ℕ) (free : PathSlot)
    → probe < length slots
    → i ≢ empty_path_slot
    → ((q : ℕ) → q < probe → Taken slots (probe_at (length slots) hash q))
    → Names i slots
    → get_elem? slots (probe_at (length slots) hash probe) ≡ some free
    → free.file_index ≡ empty_path_slot
    → IsPlaced slots
        (set slots (probe_at (length slots) hash probe) (record { hash = hash; file_index = i }))
        hash
        i
set-IsPlaced slots probe hash i free lt real before names there unused =
    let a = probe_at (length slots) hash probe in
    let new : PathSlot = record { hash = hash; file_index = i } in
    let x = set-Extends slots a free new there unused in
    record {
      grown = x;
      named = set-Names slots a free new there unused i names refl;
      placed = record {
        probe = probe;
        in_table = omega (arith, x.same_length);
        there =
            rw x.same_length
              (ground (arith, get_elem?-set slots a a new (get_elem?-lt slots a free there)));
        before = λ q q_lt. rw x.same_length (Extends-Taken slots _ _ x (before q q_lt));
      };
    }

place-IsPlaced :
    (rounds probe hash i : ℕ) (slots : List PathSlot) {slots' : List PathSlot}
    → place rounds probe hash i slots ≡ inr slots'
    → probe + rounds ≡ length slots
    → i ≢ empty_path_slot
    → ((q : ℕ) → q < probe → Taken slots (probe_at (length slots) hash q))
    → Names i slots
    → IsPlaced slots slots' hash i
unfolding place
place-IsPlaced zero probe hash i slots e sum real before names = absurd (cc)
place-IsPlaced (suc rounds) probe hash i slots {slots'} e sum real before names =
    let a = probe_at (length slots) hash probe in
    elim (Option-cases (get_elem? slots a)) [
      | inl out ↦ absurd (ground (arith, out))
      | inr (there, at) ↦ elim (Bool-cases (there.file_index == empty_path_slot)) [
        | inl free ↦
            let written : set slots a (record { hash = hash; file_index = i }) ≡ slots' =
              ground (arith, at) in
            rw (← written) (
              set-IsPlaced slots probe hash i there (omega (arith, sum)) real before names at
                (ground arith))
        | inr used ↦
            place-IsPlaced rounds (probe + 1) hash i slots (ground (arith, at)) (omega (arith, sum))
              real
              (λ q lt. elim (Bool-cases (q == probe)) [
                | inl eq ↦
                    let same : q ≡ probe = ground arith in
                    rw same (record { slot = there; there = at; in_use = ground arith })
                | inr ne ↦ before q (ground arith)
              ])
              names
      ]
    ]

module _ (hash_of : Bytes → ℕ) where
  record ArePlaced (i : ℕ) (paths : List Bytes) (slots slots' : List PathSlot) : Type 0 where
    grown : Extends slots slots'
    placed :
        (t : ℕ) (path : Bytes)
        → get_elem? paths t ≡ some path
        → Placed slots' (hash_of path) (i + t)
    named : Names (i + length paths) slots'

  Placed-cons :
      (i : ℕ) (path : Bytes) (paths : List Bytes) (slots : List PathSlot)
      → Placed slots (hash_of path) i
      → ((t : ℕ) (p : Bytes) → get_elem? paths t ≡ some p → Placed slots (hash_of p) (suc i + t))
      → (t : ℕ) (p : Bytes) → get_elem? (path ∷ paths) t ≡ some p
      → Placed slots (hash_of p) (i + t)
  Placed-cons i path paths slots first rest zero p at =
      let same : path ≡ p = ground arith in
      let here : i + 0 ≡ i = omega arith in rw here (rw (← same) first)
  Placed-cons i path paths slots first rest (suc t) p at =
      let here : i + suc t ≡ suc i + t = omega arith in rw here (rest t p at)

  place_all-ArePlaced :
      (i : ℕ) (paths : List Bytes) (slots : List PathSlot) {slots' : List PathSlot}
      → place_all hash_of i paths slots ≡ inr slots'
      → i + length paths < u32_mod
      → Names i slots
      → ArePlaced i paths slots slots'
  unfolding place_all
  place_all-ArePlaced i [] slots {slots'} e small names =
      let same : slots ≡ slots' = ground arith in
      rw (← same) (record {
        grown = record { same_length = refl; kept = λ a s at used. at };
        placed = λ t path none_left. absurd (cc);
        named = λ a s at used. omega (arith, names a s at used);
      })
  place_all-ArePlaced i (path ∷ paths) slots {slots'} e small names =
      elim (place-cases (place (length slots) 0 (hash_of path) i slots)) [
        | inl (failure, failed) ↦ absurd (ground (arith, failed))
        | inr (next, done) ↦
            let first =
              place-IsPlaced (length slots) 0 (hash_of path) i slots done (omega arith)
                (λ h. omega (arith, h)) (λ q lt. absurd (omega (arith, lt))) names in
            let rest =
              place_all-ArePlaced (suc i) paths next (ground (arith, done)) (omega arith)
                (λ a s at used. omega (arith, first.named a s at used)) in
            record {
              grown = Extends-trans slots next slots' first.grown rest.grown;
              placed =
                  Placed-cons i path paths slots'
                    (Extends-Placed next slots' (hash_of path) i rest.grown (λ h. omega (arith, h))
                      first.placed)
                    rest.placed;
              named = λ a s at used. omega (arith, rest.named a s at used);
            }
      ]

  -- The table that the packer builds: the slot of each path, and only the paths' files.
  pub record IsBuilt (paths : List Bytes) (slots : List PathSlot) : Type 0 where
    pub placed :
        (i : ℕ) (path : Bytes) → get_elem? paths i ≡ some path → Placed slots (hash_of path) i
    pub named : Names (length paths) slots

  pub build_path_slots-IsBuilt :
      (paths : List Bytes) (files_len : ℕ) {slots : List PathSlot}
      → build_path_slots hash_of paths files_len ≡ inr slots
      → length paths < u32_mod
      → IsBuilt paths slots
  unfolding build_path_slots
  build_path_slots-IsBuilt paths files_len {slots} e small =
      elim (Option-cases (next_power_of_two (desired_slots (length paths)))) [
        | inl none_left ↦ absurd (ground (arith, none_left))
        | inr (count, found) ↦
            let all =
              place_all-ArePlaced 0 paths (replicate count empty_slot) {slots' = slots}
                (ground (arith, found)) (omega arith) (Names-replicate count) in
            record {
              placed = λ i path at.
                  let same : 0 + i ≡ i = omega arith in rw (← same) (all.placed i path at);
              named = λ a s at used. omega (arith, all.named a s at used);
            }
      ]
