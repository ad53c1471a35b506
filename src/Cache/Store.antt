-- ===== src/Cache/Store.antt =====
-- `insert`: the slot that it takes, and the write of the new entry.
use hakutaku.Prelude.{
  ℕ, zero, suc, ◌+◌, ◌-◌, ◌≤◌, ◌≡◌, refl, ap, sym, ◌∙◌, true, none, some, List, [], ◌∷◌, ◌++◌,
  length, get_elem?, set, arith, get_elem?-set, get_elem?-set_self, get_elem?-lt, ◌⊎◌, inl, inr,
  ◌==◌, Bool-cases, ltb,
}
use hakutaku.Prelude.Keys
use hakutaku.Prelude.Keys.{Eq}
use hakutaku.Wire.{Bytes}
use hakutaku.Wire.Slices.{get_elem?-append}
use hakutaku.Cache.{Entry, ClockCache, take_slot, store}
use hakutaku.Cache.Consistent.{
  total_size-set, total_size-append, HoldsKey, Fresh, AreVacant, IsConsistent, IsPart, IsPart-refl,
  AreVacant-set,
}

module _ {K : Type 0} ⦃e : Eq K⦄ where
  -- Slot `slot` is empty, and the rest of the bookkeeping stands.
  record IsSlot (c : ClockCache K) (slot : ℕ) (c' : ClockCache K) : Type 0 where
    consistent : IsConsistent c'
    empty : get_elem? c'.entries slot ≡ some none
    fresh : Fresh slot c'.vacant
    used : c'.used ≡ c.used
    budget : c'.budget ≡ c.budget
    index : c'.index ≡ c.index
    part : IsPart c'.entries c.entries

  grown :
      (c : ClockCache K) (i : ℕ) (x : Entry K)
      → get_elem? (c.entries ++ (none ∷ [])) i ≡ some (some x)
      → get_elem? c.entries i ≡ some (some x)
  grown c i x there = elim (Bool-cases (ltb i (length c.entries))) [
    | inl inside ↦ ground (arith, get_elem?-append c.entries (none ∷ []) i)
    | inr beyond ↦
        absurd
          (past (i - length c.entries) (ground (arith, get_elem?-append c.entries (none ∷ []) i)))
  ]
    where
      past : (j : ℕ) → get_elem? (none ∷ []) j ≡ some (some x) → ⊥
      past zero p = cc
      past (suc j) p = cc

  kept :
      (c : ClockCache K) (i : ℕ) (x : Entry K)
      → get_elem? c.entries i ≡ some (some x)
      → get_elem? (c.entries ++ (none ∷ [])) i ≡ some (some x)
  kept c i x there =
      ground
        (arith, get_elem?-append c.entries (none ∷ []) i, get_elem?-lt c.entries i (some x) there)

  take_slot-IsSlot :
      (vs : List ℕ) (c : ClockCache K)
      → c.vacant ≡ vs
      → IsConsistent c
      → IsSlot c (take_slot vs c).0 (take_slot vs c).1
  unfolding take_slot
  take_slot-IsSlot (slot ∷ vs) c same v =
      let a : AreVacant c.entries (slot ∷ vs) = rw same at v.are_vacant in
      record {
        consistent = record {
          found = v.found;
          indexed = v.indexed;
          counted = v.counted;
          bounded = v.bounded;
          are_vacant = a.2;
        };
        empty = a.0;
        fresh = a.1;
        used = refl;
        budget = refl;
        index = refl;
        part = IsPart-refl c.entries;
      }
  take_slot-IsSlot [] c same v = record {
    consistent = record {
      found = λ k i h. let (x, at, kx) = v.found k i h in (x, kept c i x at, kx);
      indexed = λ i x h. v.indexed i x (grown c i x h);
      counted = v.counted ∙ sym (total_size-append c.entries);
      bounded = v.bounded;
      are_vacant = rw same tt;
    };
    empty = ground (
      arith,
      get_elem?-append c.entries (none ∷ []) (length c.entries),
      zero_sub (length c.entries),
    );
    fresh = rw same tt;
    used = refl;
    budget = refl;
    index = refl;
    part = λ i y h. (y, grown c i y h, refl, refl);
  }
    where
      zero_sub : (n : ℕ) → n - n ≡ 0
      zero_sub n = omega arith

  store_found :
      (c : ClockCache K) (slot : ℕ) (x : Entry K)
      → IsConsistent c
      → get_elem? c.entries slot ≡ some none
      → (k : K) (i : ℕ) → Keys.lookup k (Keys.insert x.key slot c.index) ≡ some i
      → HoldsKey (set c.entries slot (some x)) k i
  store_found c slot x v empty k i there =
      let named = Keys.lookup-insert x.key k slot c.index in
      let law = get_elem?-set c.entries slot i (some x) (get_elem?-lt c.entries slot none empty) in
      elim (Bool-cases (e.beq x.key k)) [
        | inl same ↦ (x, ground (arith, named, law), (e.beq_iff x.key k).0 same)
        | inr other ↦
            let (z, at, kz) = v.found k i (ground (arith, named)) in (z, ground (arith, law), kz)
      ]

  store_indexed :
      (c : ClockCache K) (slot : ℕ) (x : Entry K)
      → IsConsistent c
      → get_elem? c.entries slot ≡ some none
      → Keys.lookup x.key c.index ≡ none
      → (i : ℕ) (z : Entry K) → get_elem? (set c.entries slot (some x)) i ≡ some (some z)
      → Keys.lookup z.key (Keys.insert x.key slot c.index) ≡ some i
  store_indexed c slot x v empty new i z there =
      let law = get_elem?-set c.entries slot i (some x) (get_elem?-lt c.entries slot none empty) in
      let named = Keys.lookup-insert x.key z.key slot c.index in
      elim (Bool-cases (slot == i)) [
        | inl here ↦
            let same : x ≡ z = ground (arith, law) in
            ground (arith, named, e.beq_iff x.key z.key, ap (λ (y : Entry K). y.key) same)
        | inr away ↦
            let old = v.indexed i z (ground (arith, law)) in
            ground (arith, named, old, e.beq_iff x.key z.key, key_lookup c x.key z.key)
      ]
    where
      key_lookup :
          (c : ClockCache K) (k j : K) → k ≡ j → Keys.lookup k c.index ≡ Keys.lookup j c.index
      key_lookup c k j p = ap (λ (l : K). Keys.lookup l c.index) p

  write_slot :
      (c : ClockCache K) (slot : ℕ) (x : Entry K)
      → IsConsistent c
      → get_elem? c.entries slot ≡ some none
      → Fresh slot c.vacant
      → Keys.lookup x.key c.index ≡ none
      → c.used + length x.value ≤ c.budget
      → IsConsistent (record c {
        used = c.used + length x.value;
        index = Keys.insert x.key slot c.index;
        entries = set c.entries slot (some x);
      })
  write_slot c slot x v empty fresh new fits = record {
    found = store_found c slot x v empty;
    indexed = store_indexed c slot x v empty new;
    counted = omega (arith, v.counted, total_size-set c.entries slot none (some x) empty);
    bounded = fits;
    are_vacant = AreVacant-set c.entries c.vacant slot (some x) fresh v.are_vacant;
  }

  -- The stored entry stands in a slot, and the other slots hold what they held.
  pub record IsStored (key : K) (value : Bytes) (c c' : ClockCache K) : Type 0 where
    pub consistent : IsConsistent c'
    pub budget : c'.budget ≡ c.budget
    pub slot : ℕ
    pub entry : Entry K
    pub at : get_elem? c'.entries slot ≡ some (some entry)
    pub at_key : entry.key ≡ key
    pub at_value : entry.value ≡ value
    pub others :
        (i : ℕ) (y : Entry K)
        → get_elem? c'.entries i ≡ some (some y)
        → (i ≡ slot)
          ⊎ ((x : Entry K) × (get_elem? c.entries i ≡ some (some x))
              × (x.key ≡ y.key)
              × (x.value ≡ y.value))

  pub store-IsStored :
      (key : K) (value : Bytes) (c : ClockCache K)
      → IsConsistent c
      → Keys.lookup key c.index ≡ none
      → c.used + length value ≤ c.budget
      → IsStored key value c (store key value c)
  unfolding store
  store-IsStored key value c v new fits =
      let s = take_slot-IsSlot c.vacant c refl v in
      let slot = (take_slot c.vacant c).0 in
      let c' = (take_slot c.vacant c).1 in
      let x : Entry K = record { key = key; value = value; referenced = true } in
      let inside = get_elem?-lt c'.entries slot none s.empty in
      record {
        consistent =
            write_slot c' slot x s.consistent s.empty s.fresh (rw s.index new)
              (omega (arith, s.used, s.budget));
        budget = s.budget;
        slot = slot;
        entry = x;
        at = get_elem?-set_self c'.entries slot (some x) inside;
        at_key = refl;
        at_value = refl;
        others = λ i y there. elim (Bool-cases (slot == i)) [
          | inl here ↦ inl (ground arith)
          | inr away ↦
              inr (s.part i y (ground (arith, get_elem?-set c'.entries slot i (some x) inside)))
        ];
      }
