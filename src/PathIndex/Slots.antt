-- ===== src/PathIndex/Slots.antt =====
-- What the slots of the path index hold while the packer fills them.
use hakutaku.Prelude.{
  ℕ, ◌+◌, ◌<◌, ◌≡◌, ◌≢◌, List, length, get_elem?, set, replicate, some, zero, suc, arith,
  get_elem?-set, get_elem?-lt, ◌==◌, inl, inr, Bool-cases, length-set,
}
use hakutaku.Format.Constants.{empty_path_slot}
use hakutaku.Format.PathSlot.{PathSlot}
use hakutaku.PathIndex.{probe_at, empty_slot}

-- A slot of the table is in use.
pub record Taken (slots : List PathSlot) (a : ℕ) : Type 0 where
  pub slot : PathSlot
  pub there : get_elem? slots a ≡ some slot
  pub in_use : slot.file_index ≢ empty_path_slot

-- The slot of a file, at a probe that follows only slots in use.
pub record Placed (slots : List PathSlot) (hash file_index : ℕ) : Type 0 where
  pub probe : ℕ
  pub in_table : probe < length slots
  pub there :
      get_elem? slots (probe_at (length slots) hash probe)
      ≡ some (record { hash = hash; file_index = file_index })
  pub before : (q : ℕ) → q < probe → Taken slots (probe_at (length slots) hash q)

-- The files that the table names are the first `count` ones.
abbrev pub Names : ℕ → List PathSlot → Type 0
Names count slots =
    (a : ℕ) (s : PathSlot)
    → get_elem? slots a ≡ some s
    → s.file_index ≢ empty_path_slot
    → s.file_index < count

-- Slots in use stay as they are.
pub record Extends (slots slots' : List PathSlot) : Type 0 where
  pub same_length : length slots' ≡ length slots
  pub kept :
      (a : ℕ) (s : PathSlot)
      → get_elem? slots a ≡ some s
      → s.file_index ≢ empty_path_slot
      → get_elem? slots' a ≡ some s

pub Extends-Taken :
    (slots slots' : List PathSlot) (a : ℕ) → Extends slots slots' → Taken slots a → Taken slots' a
Extends-Taken slots slots' a x t = record {
  slot = t.slot;
  there = x.kept a t.slot t.there t.in_use;
  in_use = t.in_use;
}

pub Extends-Placed :
    (slots slots' : List PathSlot) (hash i : ℕ)
    → Extends slots slots'
    → i ≢ empty_path_slot
    → Placed slots hash i
    → Placed slots' hash i
Extends-Placed slots slots' hash i x real p = record {
  probe = p.probe;
  in_table = omega (arith, x.same_length, p.in_table);
  there = rw x.same_length (x.kept _ _ p.there real);
  before = λ q lt. rw x.same_length (Extends-Taken slots slots' _ x (p.before q lt));
}

pub Extends-trans : (xs ys zs : List PathSlot) → Extends xs ys → Extends ys zs → Extends xs zs
Extends-trans xs ys zs f g = record {
  same_length = omega (arith, f.same_length, g.same_length);
  kept = λ a s at used. g.kept a s (f.kept a s at used) used;
}

-- A write to a free slot.
module _ (slots : List PathSlot) (a : ℕ) (free new : PathSlot)
    (there : get_elem? slots a ≡ some free) (unused : free.file_index ≡ empty_path_slot) where
  pub set-Extends : Extends slots (set slots a new)
  set-Extends = record {
    same_length = length-set slots a new;
    kept = λ b s at used.
        let law = get_elem?-set slots a b new (get_elem?-lt slots a free there) in
        elim (Bool-cases (a == b)) [
          | inl eq ↦ absurd (ground (arith, law))
          | inr ne ↦ ground (arith, law)
        ];
  }

  pub set-Names :
      (count : ℕ) → Names count slots → new.file_index ≡ count → Names (count + 1) (set slots a new)
  set-Names count names is_new b s at used =
      let law = get_elem?-set slots a b new (get_elem?-lt slots a free there) in
      elim (Bool-cases (a == b)) [
        | inl eq ↦ ground (arith, law)
        | inr ne ↦ ground (arith, law, names b s)
      ]

pub Names-replicate : (n : ℕ) → Names 0 (replicate n empty_slot)
Names-replicate zero zero s at used = absurd (cc)
Names-replicate zero (suc a) s at used = absurd (cc)
Names-replicate (suc n) zero s at used = absurd (ground arith)
Names-replicate (suc n) (suc a) s at used = Names-replicate n a s at used
