-- ===== src/Cache/Marks.antt =====
-- The writes that `get` and `evict_one` make to a slot keep the bookkeeping.
use hakutaku.Prelude.{
  ℕ, ◌-◌, ◌≡◌, ap, none, some, length, get_elem?, set, arith, get_elem?-set, get_elem?-lt, inl, inr,
  ◌==◌, Bool-cases,
}
use hakutaku.Prelude.Keys
use hakutaku.Prelude.Keys.{Eq}
use hakutaku.Cache.{Entry, ClockCache}
use hakutaku.Cache.Consistent.{
  total_size-set, HoldsKey, IsConsistent, Fresh-occupied, AreVacant-set,
}

module _ {K : Type 0} ⦃e : Eq K⦄ where
  -- The reference mark of an entry may change.
  mark_found :
      (c : ClockCache K) (h : ℕ) (x y : Entry K)
      → IsConsistent c
      → get_elem? c.entries h ≡ some (some x)
      → x.key ≡ y.key
      → (k : K) (i : ℕ) → Keys.lookup k c.index ≡ some i
      → HoldsKey (set c.entries h (some y)) k i
  mark_found c h x y v at same k i there =
      let (z, at', kz) = v.found k i there in
      let law = get_elem?-set c.entries h i (some y) (get_elem?-lt c.entries h (some x) at) in
      elim (Bool-cases (h == i)) [
        | inl eq ↦ (y, ground (arith, law), ground (arith, law))
        | inr ne ↦ (z, ground (arith, law), kz)
      ]

  mark_indexed :
      (c : ClockCache K) (h : ℕ) (x y : Entry K)
      → IsConsistent c
      → get_elem? c.entries h ≡ some (some x)
      → x.key ≡ y.key
      → (i : ℕ) (z : Entry K) → get_elem? (set c.entries h (some y)) i ≡ some (some z)
      → Keys.lookup z.key c.index ≡ some i
  mark_indexed c h x y v at same i z there =
      let law = get_elem?-set c.entries h i (some y) (get_elem?-lt c.entries h (some x) at) in
      elim (Bool-cases (h == i)) [
        | inl eq ↦ ground (arith, law, v.indexed h x at, ap (λ (k : K). Keys.lookup k c.index) same)
        | inr ne ↦ v.indexed i z (ground (arith, law))
      ]

  pub mark-IsConsistent :
      (c : ClockCache K) (h : ℕ) (x y : Entry K)
      → IsConsistent c
      → get_elem? c.entries h ≡ some (some x)
      → x.key ≡ y.key
      → x.value ≡ y.value
      → IsConsistent (record c { entries = set c.entries h (some y) })
  mark-IsConsistent c h x y v at same value = record {
    found = mark_found c h x y v at same;
    indexed = mark_indexed c h x y v at same;
    counted =
        omega (arith, v.counted, total_size-set c.entries h (some x) (some y) at, ap length value);
    bounded = v.bounded;
    are_vacant =
        AreVacant-set c.entries c.vacant h (some y)
          (Fresh-occupied c.entries c.vacant h x at v.are_vacant) v.are_vacant;
  }

  -- The hand is no part of the bookkeeping.
  pub hand-IsConsistent :
      (c : ClockCache K) (h : ℕ) → IsConsistent c → IsConsistent (record c { hand = h })
  hand-IsConsistent c h v = record {
    found = v.found;
    indexed = v.indexed;
    counted = v.counted;
    bounded = v.bounded;
    are_vacant = v.are_vacant;
  }

  abbrev pub without : ClockCache K → ℕ → Entry K → ClockCache K
  without c h x = record c {
    entries = set c.entries h none;
    used = c.used - length x.value;
    index = Keys.remove x.key c.index;
  }

  without_found :
      (c : ClockCache K) (h : ℕ) (x : Entry K)
      → IsConsistent c
      → get_elem? c.entries h ≡ some (some x)
      → (k : K) (i : ℕ) → Keys.lookup k (Keys.remove x.key c.index) ≡ some i
      → HoldsKey (set c.entries h none) k i
  without_found c h x v at k i there =
      let cut = Keys.lookup-remove x.key k c.index in
      let law = get_elem?-set c.entries h i none (get_elem?-lt c.entries h (some x) at) in
      elim (Bool-cases (e.beq x.key k)) [
        | inl same ↦ absurd (ground (arith, cut))
        | inr other ↦
            let (z, at', kz) = v.found k i (ground (arith, cut)) in
            (z, ground (arith, law, e.beq_iff x.key k), kz)
      ]

  without_indexed :
      (c : ClockCache K) (h : ℕ) (x : Entry K)
      → IsConsistent c
      → get_elem? c.entries h ≡ some (some x)
      → (i : ℕ) (z : Entry K) → get_elem? (set c.entries h none) i ≡ some (some z)
      → Keys.lookup z.key (Keys.remove x.key c.index) ≡ some i
  without_indexed c h x v at i z there =
      let law = get_elem?-set c.entries h i none (get_elem?-lt c.entries h (some x) at) in
      let cut = Keys.lookup-remove x.key z.key c.index in
      let stays : get_elem? c.entries i ≡ some (some z) = ground (arith, law) in
      ground (
        arith,
        cut,
        law,
        v.indexed i z stays,
        v.indexed h x at,
        e.beq_iff x.key z.key,
        ap (λ (k : K). Keys.lookup k c.index),
      )

  pub without-IsConsistent :
      (c : ClockCache K) (h : ℕ) (x : Entry K)
      → IsConsistent c
      → get_elem? c.entries h ≡ some (some x)
      → IsConsistent (without c h x)
  without-IsConsistent c h x v at = record {
    found = without_found c h x v at;
    indexed = without_indexed c h x v at;
    counted = omega (arith, v.counted, total_size-set c.entries h (some x) none at);
    bounded = omega (arith, v.bounded);
    are_vacant =
        AreVacant-set c.entries c.vacant h none
          (Fresh-occupied c.entries c.vacant h x at v.are_vacant) v.are_vacant;
  }
