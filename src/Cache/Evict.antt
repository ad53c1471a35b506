-- ===== src/Cache/Evict.antt =====
-- `evict_one`: what one eviction does, and that a cache with an entry always evicts one.
use hakutaku.Prelude.{
  ℕ, zero, suc, ◌+◌, sym, ap, List, set, ◌%◌, ◌≤◌, ◌≡◌, refl, ◌∙◌, false, Option, none, some,
  length, get_elem?, arith, if◌then◌else◌, get_elem?-set_self, length-set, get_elem?-lt, inl, inr,
  Bool-cases, ◌||◌,
}
use hakutaku.Prelude.Keys
use hakutaku.Prelude.Keys.{Eq}
use hakutaku.Cache.{Entry, ClockCache, advance, visit, round, scan, evict_one, is_some, is_empty}
use hakutaku.Cache.Marks.{mark-IsConsistent, hand-IsConsistent, without-IsConsistent}
use hakutaku.Cache.Consistent.{
  IsPart-of_set_same, IsPart-put_back, IsPart-set_both, total_size-set, occupied, occupied-set,
  Fresh, IsConsistent, IsPart, IsPart-refl, IsPart-trans, IsPart-set_same, IsPart-set-none,
  Fresh-occupied,
}

module _ {K : Type 0} ⦃e : Eq K⦄ where
  -- An eviction of `slot` leaves it empty, unlisted, and one entry fewer; else none is lost.
  abbrev pub Evicted : ClockCache K → Option ℕ → ClockCache K → Type 0
  Evicted c none c' = occupied c'.entries ≡ occupied c.entries
  Evicted c (some slot) c' =
      (get_elem? c'.entries slot ≡ some none)
      × Fresh slot c'.vacant
      × (suc (occupied c'.entries) ≡ occupied c.entries)

  -- The slot that is returned held an entry `x`. Its key has left the index and its bytes the count,
  -- and with `x` back in its slot every entry is there again; with no slot returned every entry stays.
  abbrev pub Taken : ClockCache K → Option ℕ → ClockCache K → Type 0
  Taken c none c' = IsPart c.entries c'.entries × (c'.used ≡ c.used)
  Taken c (some slot) c' =
      (x : Entry K) × (get_elem? c.entries slot ≡ some (some x))
      × IsPart c.entries (set c'.entries slot (some x))
      × (Keys.lookup x.key c'.index ≡ none)
      × (c'.used + length x.value ≡ c.used)

  pub record IsOutcome (c : ClockCache K) (found : Option ℕ) (c' : ClockCache K) : Type 0 where
    pub consistent : IsConsistent c'
    pub budget : c'.budget ≡ c.budget
    pub slots : length c'.entries ≡ length c.entries
    pub used : c'.used ≤ c.used
    pub part : IsPart c'.entries c.entries
    pub evicted : Evicted c found c'
    pub taken : Taken c found c'

  removed_lookup : (k : K) (m : List (K × ℕ)) → Keys.lookup k (Keys.remove k m) ≡ none
  removed_lookup k m = ground (arith, Keys.lookup-remove k k m, e.beq_iff k k)

  visit-IsOutcome :
      (c : ClockCache K) (s : Option (Option (Entry K)))
      → IsConsistent c
      → get_elem? c.entries c.hand ≡ s
      → IsOutcome c (visit s c).0 (visit s c).1
  unfolding visit
  visit-IsOutcome c none v at = unchanged
    where
      unchanged : IsOutcome c none (advance c)
      unchanged = record {
        consistent = hand-IsConsistent c _ v;
        budget = refl;
        slots = refl;
        used = omega arith;
        part = IsPart-refl c.entries;
        evicted = refl;
        taken = (IsPart-refl c.entries, refl);
      }
  visit-IsOutcome c (some none) v at = record {
    consistent = hand-IsConsistent c _ v;
    budget = refl;
    slots = refl;
    used = omega arith;
    part = IsPart-refl c.entries;
    evicted = refl;
    taken = (IsPart-refl c.entries, refl);
  }
  visit-IsOutcome c (some (some x)) v at = elim (Bool-cases x.referenced) [
    | inl marked ↦ rw marked (record {
      consistent = hand-IsConsistent _ _ (mark-IsConsistent c c.hand x _ v at refl refl);
      budget = refl;
      slots = length-set c.entries c.hand _;
      used = omega arith;
      part = IsPart-set_same c.entries c.hand x _ at refl refl;
      evicted = omega (
        arith,
        occupied-set c.entries c.hand (some x) (some (record x { referenced = false })) at,
      );
      taken = (IsPart-of_set_same c.entries c.hand x _ at refl refl, refl);
    })
    | inr plain ↦ rw plain (record {
      consistent = hand-IsConsistent _ _ (without-IsConsistent c c.hand x v at);
      budget = refl;
      slots = length-set c.entries c.hand none;
      used = omega arith;
      part = IsPart-set-none c.entries c.hand x at;
      evicted = (
        get_elem?-set_self c.entries c.hand none (get_elem?-lt c.entries c.hand (some x) at),
        Fresh-occupied c.entries c.vacant c.hand x at v.are_vacant,
        omega (arith, occupied-set c.entries c.hand (some x) none at),
      );
      taken = (
        x,
        at,
        IsPart-put_back c.entries c.hand x at,
        removed_lookup x.key c.index,
        omega (arith, v.counted, total_size-set c.entries c.hand (some x) none at),
      );
    })
  ]

  round-IsOutcome : (c : ClockCache K) → IsConsistent c → IsOutcome c (round c).0 (round c).1
  unfolding round
  round-IsOutcome c v =
      let c' = record c { hand = c.hand % length c.entries } in
      let o = visit-IsOutcome c' (get_elem? c.entries c'.hand) (hand-IsConsistent c _ v) refl in
      record {
        consistent = o.consistent;
        budget = o.budget;
        slots = o.slots;
        used = o.used;
        part = o.part;
        evicted = Evicted-hand c c'.hand _ _ o.evicted;
        taken = Taken-hand c c'.hand _ _ o.taken;
      }
    where
      Evicted-hand :
          (c : ClockCache K) (h : ℕ) (found : Option ℕ) (d : ClockCache K)
          → Evicted (record c { hand = h }) found d
          → Evicted c found d
      Evicted-hand c h none d x = x
      Evicted-hand c h (some s) d x = x

      Taken-hand :
          (c : ClockCache K) (h : ℕ) (found : Option ℕ) (d : ClockCache K)
          → Taken (record c { hand = h }) found d
          → Taken c found d
      Taken-hand c h none d x = x
      Taken-hand c h (some s) d x = x

  Evicted-later :
      (c c' : ClockCache K) (found : Option ℕ) (d : ClockCache K)
      → occupied c'.entries ≡ occupied c.entries
      → Evicted c' found d
      → Evicted c found d
  Evicted-later c c' none d same x = x ∙ same
  Evicted-later c c' (some s) d same (a, b, n) = (a, b, n ∙ same)

  Taken-later :
      (c c' : ClockCache K) (found : Option ℕ) (d : ClockCache K)
      → IsOutcome c none c'
      → Evicted c' found d
      → Taken c' found d
      → Taken c found d
  Taken-later c c' none d o ev (stay, used) =
      (IsPart-trans c.entries c'.entries d.entries o.taken.0 stay, used ∙ o.taken.1)
  Taken-later c c' (some s) d o ev (x', at', stay, gone, used) =
      let (x, at, key, value) = o.part s x' at' in
      (
        x,
        at,
        IsPart-trans c.entries c'.entries _ o.taken.0 (
            IsPart-trans c'.entries (set d.entries s (some x')) _ stay (
              IsPart-set_both d.entries s x' x (get_elem?-lt d.entries s none ev.0) (sym key)
                (sym value))),
        ap (λ (k : K). Keys.lookup k d.index) key ∙ gone,
        omega (arith, used, o.taken.1, ap length value),
      )

  IsOutcome-later :
      (c c' : ClockCache K) (found : Option ℕ) (d : ClockCache K)
      → IsOutcome c none c'
      → IsOutcome c' found d
      → IsOutcome c found d
  IsOutcome-later c c' found d o p = record {
    consistent = p.consistent;
    budget = p.budget ∙ o.budget;
    slots = p.slots ∙ o.slots;
    used = omega (arith, o.used, p.used);
    part = IsPart-trans d.entries c'.entries c.entries p.part o.part;
    evicted = Evicted-later c c' found d o.evicted p.evicted;
    taken = Taken-later c c' found d o p.evicted p.taken;
  }

  scan-IsOutcome :
      (rounds : ℕ) (c : ClockCache K)
      → IsConsistent c
      → IsOutcome c (scan rounds c).0 (scan rounds c).1
  unfolding scan is_some
  scan-IsOutcome zero c v = record {
    consistent = v;
    budget = refl;
    slots = refl;
    used = omega arith;
    part = IsPart-refl c.entries;
    evicted = refl;
    taken = (IsPart-refl c.entries, refl);
  }
  scan-IsOutcome (suc rounds) c v =
      pick (round c).0 (round c).1 (round-IsOutcome c v) (λ d w. scan-IsOutcome rounds d w)
    where
      pick :
          (found : Option ℕ) (c' : ClockCache K)
          → IsOutcome c found c'
          → ((d : ClockCache K) → IsConsistent d → IsOutcome d (scan rounds d).0 (scan rounds d).1)
          → IsOutcome c
              (if is_some found then (found, c') else scan rounds c').0
              (if is_some found then (found, c') else scan rounds c').1
      pick none c' o later = IsOutcome-later c c' _ _ o (later c' o.consistent)
      pick (some s) c' o later = o

  -- An eviction keeps the bookkeeping. A slot that it returns held an entry: that entry is gone, with
  -- its key and its bytes, and every other one is still in its slot. With no slot returned, all are.
  pub evict_one-IsOutcome :
      (c : ClockCache K) → IsConsistent c → IsOutcome c (evict_one c).0 (evict_one c).1
  unfolding evict_one
  evict_one-IsOutcome c v = elim (Bool-cases (is_empty c.index || is_empty c.entries)) [
    | inl stop ↦ rw stop (record {
      consistent = v;
      budget = refl;
      slots = refl;
      used = omega arith;
      part = IsPart-refl c.entries;
      evicted = refl;
      taken = (IsPart-refl c.entries, refl);
    })
    | inr go ↦ rw go (scan-IsOutcome _ c v)
  ]
