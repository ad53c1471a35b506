-- ===== src/Cache/Liveness.antt =====
-- The clock scan ends: within two turns of the hand it finds an entry to evict.
use hakutaku.Prelude.{
  ℕ, zero, suc, ◌+◌, ◌-◌, ◌*◌, ◌%◌, ◌<◌, ◌≡◌, ◌≢◌, refl, ap, ◌∙◌, true, false, Option, none, some,
  List, [], ◌∷◌, length, get_elem?, arith, if◌then◌else◌, get_elem?-set_self, get_elem?-set_ne,
  length-set, get_elem?-lt, ◌⊎◌, inl, inr, Bool-cases, ltb,
}
use native.Mathlib.Nat.{mod-eq_of_lt, mod-lt}
use native.Mathlib.Decide.{dec_lt}
use hakutaku.Prelude.Keys
use hakutaku.Prelude.Keys.{Eq}
use hakutaku.Wire.{usize_mod}
use hakutaku.Cache.{Entry, ClockCache, visit, round, scan, evict_one, is_some, is_empty, saturating}
use hakutaku.Cache.Consistent.{IsConsistent}

-- The next round begins one slot further.
ahead_next :
    (n h h' d i : ℕ)
    → i < n
    → h < n
    → h' ≡ (h + 1) % n
    → suc d < n
    → (i ≡ h + suc d) ⊎ (i + n ≡ h + suc d)
    → (i ≡ h' % n + d) ⊎ (i + n ≡ h' % n + d)
ahead_next n h h' d i hi hh e hd a = elim (dec_lt (h + 1) n) [
  | yes p ↦
      let m : (h + 1) % n ≡ h + 1 = mod-eq_of_lt p in
      let m' : h' % n ≡ h + 1 = rw (e, m) (mod-eq_of_lt p) in omega arith
  | no p ↦
      let w : h + 1 ≡ n = omega arith in
      let m : (h + 1) % n ≡ 0 = rw w (grind arith) in
      let m' : h' % n ≡ 0 = rw (e, m) (grind arith) in omega arith
]

-- After slot `i` it takes all other rounds of a turn to come back to it.
ahead_turn :
    (n i h : ℕ) → i < n → h ≡ (i + 1) % n → (i ≡ h % n + (n - 1)) ⊎ (i + n ≡ h % n + (n - 1))
ahead_turn n i h hi e = elim (dec_lt (i + 1) n) [
  | yes p ↦
      let m : (i + 1) % n ≡ i + 1 = mod-eq_of_lt p in
      let m' : h % n ≡ i + 1 = rw (e, m) (mod-eq_of_lt p) in omega arith
  | no p ↦
      let w : i + 1 ≡ n = omega arith in
      let m : (i + 1) % n ≡ 0 = rw w (grind arith) in
      let m' : h % n ≡ 0 = rw (e, m) (grind arith) in omega arith
]

distance : (n h i : ℕ) → i < n → h < n → (d : ℕ) × ((d < n) × ((i ≡ h + d) ⊎ (i + n ≡ h + d)))
distance n h i hi hh = elim (dec_lt i h) [
  | yes p ↦ (i + n - h, (omega arith, inr (omega arith)))
  | no p ↦ (i - h, (omega arith, inl (omega arith)))
]

is_empty-lt : {A : Type 0} (xs : List A) (i : ℕ) → i < length xs → is_empty xs ≡ false
unfolding is_empty
is_empty-lt [] i h = absurd (omega arith)
is_empty-lt (x ∷ xs) i h = refl

module _ {K : Type 0} ⦃e : Eq K⦄ where
  first_indexed :
      (m : List (K × ℕ)) → is_empty m ≡ false → (k : K) × (i : ℕ) × (Keys.lookup k m ≡ some i)
  unfolding is_empty Keys.lookup
  first_indexed [] h = absurd (cc)
  first_indexed ((k, i) ∷ m) h = (k, i, rw ((e.beq_iff k k).1 refl) refl)

  occupied_slot :
      (c : ClockCache K)
      → IsConsistent c
      → is_empty c.index ≡ false
      → (i : ℕ) × (x : Entry K) × (get_elem? c.entries i ≡ some (some x))
  occupied_slot c v h =
      let (k, i, named) = first_indexed c.index h in
      let (x, at, _) = v.found k i named in (i, x, at)

  -- Slot `i` comes under the hand after `d` rounds, in this turn or in the next.
  abbrev Ahead : ClockCache K → ℕ → ℕ → Type 0
  Ahead c i d =
      (d < length c.entries)
      × ((i ≡ c.hand % length c.entries + d)
          ⊎ (i + length c.entries ≡ c.hand % length c.entries + d))

  -- A round that evicts nothing, seen from slot `i`.
  abbrev Passed : ClockCache K → ℕ → Entry K → Option ℕ → ClockCache K → Type 0
  Passed c i x found c' =
      (is_some found ≡ true)
      ⊎ ((get_elem? c'.entries i ≡ some (some x))
          × (length c'.entries ≡ length c.entries)
          × (c'.hand ≡ (c.hand + 1) % length c.entries))

  visit_passes :
      (c : ClockCache K) (s : Option (Option (Entry K))) (i : ℕ) (x : Entry K)
      → c.hand < length c.entries
      → get_elem? c.entries c.hand ≡ s
      → get_elem? c.entries i ≡ some (some x)
      → c.hand ≢ i
      → Passed c i x (visit s c).0 (visit s c).1
  unfolding visit is_some
  visit_passes c none i x lt at there ne = inr (there, refl, refl)
  visit_passes c (some none) i x lt at there ne = inr (there, refl, refl)
  visit_passes c (some (some y)) i x lt at there ne = elim (Bool-cases y.referenced) [
    | inl marked ↦ rw marked (
        inr (
          get_elem?-set_ne c.entries c.hand i _ ne ∙ there,
          length-set c.entries c.hand _,
          (ap (λ n. (c.hand + 1) % n) (length-set c.entries c.hand _)),
        ))
    | inr plain ↦ rw plain (inl refl)
  ]

  round_passes :
      (c : ClockCache K) (i : ℕ) (x : Entry K)
      → get_elem? c.entries i ≡ some (some x)
      → c.hand % length c.entries ≢ i
      → (is_some (round c).0 ≡ true)
        ⊎ ((get_elem? (round c).1.entries i ≡ some (some x))
            × (length (round c).1.entries ≡ length c.entries)
            × ((round c).1.hand ≡ (c.hand % length c.entries + 1) % length c.entries))
  unfolding round
  round_passes c i x there ne =
      let c' = record c { hand = c.hand % length c.entries } in
      visit_passes c' (get_elem? c.entries c'.hand) i x
        (mod-lt _ (omega (arith, get_elem?-lt c.entries i (some x) there))) refl there ne

  -- One round, with the rest of the scan behind it.
  scan_step :
      (rounds : ℕ) (c : ClockCache K)
      → (is_some (round c).0 ≡ true) ⊎ (is_some (scan rounds (round c).1).0 ≡ true)
      → is_some (scan (suc rounds) c).0 ≡ true
  unfolding scan
  scan_step rounds c (inl now) = rw now now
  scan_step rounds c (inr later) = elim (Bool-cases (is_some (round c).0)) [
    | inl now ↦ rw now now
    | inr nothing ↦ rw nothing later
  ]

  -- An unmarked entry under the hand is evicted.
  round_evicts :
      (c : ClockCache K) (x : Entry K)
      → get_elem? c.entries (c.hand % length c.entries) ≡ some (some x)
      → x.referenced ≡ false
      → is_some (round c).0 ≡ true
  unfolding round visit is_some
  round_evicts c x at plain = rw (at, plain) refl

  scan_unmarked :
      (d rounds : ℕ) (c : ClockCache K) (i : ℕ) (x : Entry K)
      → get_elem? c.entries i ≡ some (some x)
      → x.referenced ≡ false
      → Ahead c i d
      → d < rounds
      → is_some (scan rounds c).0 ≡ true
  scan_unmarked d zero c i x at plain a lt = absurd (omega arith)
  scan_unmarked zero (suc rounds) c i x at plain (dn, a) lt =
      let h : c.hand % length c.entries < length c.entries = mod-lt _ dn in
      let here : c.hand % length c.entries ≡ i =
        omega (arith, get_elem?-lt c.entries i (some x) at) in
      scan_step rounds c (inl (round_evicts c x (rw here at) plain))
  scan_unmarked (suc d) (suc rounds) c i x at plain (dn, a) lt =
      let lti = get_elem?-lt c.entries i (some x) at in
      let h : c.hand % length c.entries < length c.entries = mod-lt _ (omega arith) in
      elim (round_passes c i x at (λ same. omega arith)) [
        | inl now ↦ scan_step rounds c (inl now)
        | inr (there, len, hand) ↦ scan_step rounds c (
            inr (
              scan_unmarked d rounds (round c).1 i x there plain
                (omega arith, rw len (ahead_next (length c.entries) _ _ d i lti h hand dn a))
                (omega arith)))
      ]

  -- A marked entry under the hand loses its mark, and the hand goes on.
  round_unmarks :
      (c : ClockCache K) (i : ℕ) (x : Entry K)
      → c.hand % length c.entries ≡ i
      → get_elem? c.entries i ≡ some (some x)
      → x.referenced ≡ true
      → (get_elem? (round c).1.entries i ≡ some (some (record x { referenced = false })))
        × (length (round c).1.entries ≡ length c.entries)
        × ((round c).1.hand ≡ (i + 1) % length c.entries)
  unfolding round visit
  round_unmarks c i x here at marked =
      let y = record x { referenced = false } in
      rw (here, at, marked)
        (
          get_elem?-set_self c.entries i (some y) (get_elem?-lt c.entries i (some x) at),
          length-set c.entries i (some y),
          ap (λ n. (i + 1) % n) (length-set c.entries i (some y)),
        )

  scan_occupied :
      (d rounds : ℕ) (c : ClockCache K) (i : ℕ) (x : Entry K)
      → get_elem? c.entries i ≡ some (some x)
      → Ahead c i d
      → d + length c.entries < rounds
      → is_some (scan rounds c).0 ≡ true
  scan_occupied d zero c i x at (dn, a) lt = absurd (omega arith)
  scan_occupied zero (suc rounds) c i x at (dn, a) lt =
      let lti = get_elem?-lt c.entries i (some x) at in
      let h : c.hand % length c.entries < length c.entries = mod-lt _ dn in
      let here : c.hand % length c.entries ≡ i = omega arith in
      elim (Bool-cases x.referenced) [
        | inr plain ↦ scan_step rounds c (inl (round_evicts c x (rw here at) plain))
        | inl marked ↦
            let (there, len, hand) = round_unmarks c i x here at marked in
            scan_step rounds c (
              inr (
                scan_unmarked (length c.entries - 1) rounds (round c).1 i _ there refl
                  (omega arith, rw len (ahead_turn (length c.entries) i _ lti hand)) (omega arith)))
      ]
  scan_occupied (suc d) (suc rounds) c i x at (dn, a) lt =
      let lti = get_elem?-lt c.entries i (some x) at in
      let h : c.hand % length c.entries < length c.entries = mod-lt _ (omega arith) in
      elim (round_passes c i x at (λ same. omega arith)) [
        | inl now ↦ scan_step rounds c (inl now)
        | inr (there, len, hand) ↦ scan_step rounds c (
            inr (
              scan_occupied d rounds (round c).1 i x there
                (omega arith, rw len (ahead_next (length c.entries) _ _ d i lti h hand dn a))
                (omega arith)))
      ]

  -- A consistent cache with an indexed entry always evicts one, within its bounded scan.
  pub evict_one_finds :
      (c : ClockCache K)
      → IsConsistent c
      → is_empty c.index ≡ false
      → length c.entries * 2 < usize_mod
      → is_some (evict_one c).0 ≡ true
  unfolding evict_one
  evict_one_finds c v some_entry fits =
      let (i, x, at) = occupied_slot c v some_entry in
      let lti = get_elem?-lt c.entries i (some x) at in
      let h : c.hand % length c.entries < length c.entries = mod-lt _ (omega arith) in
      let (d, a) = distance (length c.entries) (c.hand % length c.entries) i lti h in
      let slots : is_empty c.entries ≡ false = is_empty-lt c.entries i lti in
      let limit : (if ltb (saturating (length c.entries * 2)) 1
            then 1
            else saturating (length c.entries * 2))
          ≡ length c.entries * 2 =
        ground arith in
      rw (some_entry, slots, limit)
        (scan_occupied d (length c.entries * 2) c i x at a (omega (arith, a.0)))
