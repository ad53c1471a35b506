-- ===== src/Cache/Laws.antt =====
-- What a client sees of the cache: `get` and `insert` against the map of what is stored.
use hakutaku.Prelude.{
  ℕ, ◌≡◌, refl, ap, ◌∙◌, true, Option, none, some, get_elem?, set, arith, inl, inr, Option-cases,
}
use hakutaku.Prelude.Keys
use hakutaku.Prelude.Keys.{Eq}
use hakutaku.Wire.{Bytes}
use hakutaku.Cache.{Entry, ClockCache, new, clear, touch, get_at, get}
use hakutaku.Cache.Marks.{mark-IsConsistent}
use hakutaku.Cache.Consistent
use hakutaku.Cache.Consistent.{
  IsConsistent, IsPart, IsPart-set_same, occupied-le-length, total_size,
}

module _ {K : Type 0} where
  pub new-IsConsistent : ⦃e : Eq K⦄ (budget : ℕ) → IsConsistent (new {K = K} budget)
  unfolding new Keys.lookup total_size
  new-IsConsistent budget = record {
    found = λ k i h. absurd (cc);
    indexed = λ i x h. absurd (cc);
    counted = refl;
    bounded = omega arith;
    are_vacant = tt;
  }

module _ {K : Type 0} ⦃e : Eq K⦄ where
  pub clear-IsConsistent : (c : ClockCache K) → IsConsistent (clear c)
  unfolding clear Keys.lookup total_size
  clear-IsConsistent c = record {
    found = λ k i h. absurd (cc);
    indexed = λ i x h. absurd (cc);
    counted = refl;
    bounded = omega arith;
    are_vacant = tt;
  }

  -- What `get` would return, with no regard to the marks that it sets.
  abbrev pub contents : ClockCache K → K → Option Bytes
  contents c k = (get k c).0

  get_hit :
      (k : K) (c : ClockCache K) (i : ℕ) (x : Entry K)
      → Keys.lookup k c.index ≡ some i
      → get_elem? c.entries i ≡ some (some x)
      → get k c ≡ (
        some x.value,
        record c { entries = set c.entries i (some (record x { referenced = true })) },
      )
  unfolding get
  get_hit k c i x named at =
      ap (λ (o : Option ℕ). get_at o c) named
      ∙ ap (λ (s : Option (Option (Entry K))). touch i s c) at

  get_miss : (k : K) (c : ClockCache K) → Keys.lookup k c.index ≡ none → get k c ≡ (none, c)
  unfolding get
  get_miss k c named = ap (λ (o : Option ℕ). get_at o c) named

  pub contents-of_slot :
      (c : ClockCache K) (i : ℕ) (x : Entry K)
      → IsConsistent c
      → get_elem? c.entries i ≡ some (some x)
      → contents c x.key ≡ some x.value
  contents-of_slot c i x v at =
      ap (λ (r : Option Bytes × ClockCache K). r.0) (get_hit x.key c i x (v.indexed i x at) at)

  pub slot-of_contents :
      (c : ClockCache K) (k : K) (w : Bytes)
      → IsConsistent c
      → contents c k ≡ some w
      → (i : ℕ) × (x : Entry K) × (get_elem? c.entries i ≡ some (some x))
        × (x.key ≡ k)
        × (x.value ≡ w)
  slot-of_contents c k w v h = elim (Option-cases (Keys.lookup k c.index)) [
    | inl missing ↦
        absurd (cc (h, ap (λ (r : Option Bytes × ClockCache K). r.0) (get_miss k c missing)))
    | inr (i, named) ↦
        let (x, at, key) = v.found k i named in
        (
          i,
          x,
          at,
          key,
          cc (h, ap (λ (r : Option Bytes × ClockCache K). r.0) (get_hit k c i x named at)),
        )
  ]

  -- If each entry of `c` stands in `d` too, `d` has the contents of `c` and perhaps more.
  pub contents-IsPart :
      (c d : ClockCache K) (k : K) (w : Bytes)
      → IsConsistent c
      → IsConsistent d
      → IsPart c.entries d.entries
      → contents c k ≡ some w
      → contents d k ≡ some w
  contents-IsPart c d k w v u p h =
      let (i, y, at, key, value) = slot-of_contents c k w v h in
      let (x, at', key', value') = p i y at in
      rw (← (key' ∙ key), ← (value' ∙ value)) (contents-of_slot d i x u at')

  -- `get` keeps the bookkeeping.
  pub get-IsConsistent : (k : K) (c : ClockCache K) → IsConsistent c → IsConsistent (get k c).1
  get-IsConsistent k c v = elim (Option-cases (Keys.lookup k c.index)) [
    | inl missing ↦ rw (get_miss k c missing) v
    | inr (i, named) ↦
        let (x, at, key) = v.found k i named in
        rw (get_hit k c i x named at) (mark-IsConsistent c i x _ v at refl refl)
  ]

  get-IsPart : (k : K) (c : ClockCache K) → IsConsistent c → IsPart (get k c).1.entries c.entries
  get-IsPart k c v = elim (Option-cases (Keys.lookup k c.index)) [
    | inl missing ↦ rw (get_miss k c missing) (Consistent.IsPart-refl c.entries)
    | inr (i, named) ↦
        let (x, at, key) = v.found k i named in
        rw (get_hit k c i x named at) (IsPart-set_same c.entries i x _ at refl refl)
  ]

  pub get_state_budget : (k : K) (c : ClockCache K) → IsConsistent c → (get k c).1.budget ≡ c.budget
  get_state_budget k c v = elim (Option-cases (Keys.lookup k c.index)) [
    | inl missing ↦ rw (get_miss k c missing) refl
    | inr (i, named) ↦ let (x, at, key) = v.found k i named in rw (get_hit k c i x named at) refl
  ]

  -- A `get` invents nothing: what is in the cache afterwards was there before.
  pub contents-get :
      (k j : K) (w : Bytes) (c : ClockCache K)
      → IsConsistent c
      → contents (get k c).1 j ≡ some w
      → contents c j ≡ some w
  contents-get k j w c v h =
      contents-IsPart (get k c).1 c j w (get-IsConsistent k c v) v (get-IsPart k c v) h

  pub lookup-IsPart :
      (c d : ClockCache K) (k : K)
      → IsConsistent c
      → IsConsistent d
      → IsPart c.entries d.entries
      → Keys.lookup k d.index ≡ none
      → Keys.lookup k c.index ≡ none
  lookup-IsPart c d k v u p new = elim (Option-cases (Keys.lookup k c.index)) [
    | inl missing ↦ missing
    | inr (i, named) ↦
        let (y, at, key) = v.found k i named in
        let (x, at', key', value') = p i y at in
        absurd (cc (new, u.indexed i x at', ap (λ (l : K). Keys.lookup l d.index) (key' ∙ key)))
  ]
