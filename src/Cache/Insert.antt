-- ===== src/Cache/Insert.antt =====
-- The loop of `insert` that makes room: it keeps the bookkeeping, and it ends with room.
use hakutaku.Prelude.{
  ℕ, zero, suc, ◌+◌, ◌*◌, ◌≤◌, ◌<◌, ◌≡◌, refl, ◌∙◌, Bool, true, false, Option, none, some, List, [],
  ◌∷◌, length, arith, inl, inr, Bool-cases, ltb,
}
use hakutaku.Prelude.Keys
use hakutaku.Prelude.Keys.{Eq}
use hakutaku.Wire.{usize_mod}
use hakutaku.Cache.{ClockCache, evict_one, make_room, is_some, is_empty, saturating}
use hakutaku.Cache.Evict.{IsOutcome, evict_one-IsOutcome}
use hakutaku.Cache.Liveness.{evict_one_finds}
use hakutaku.Cache.Consistent.{
  occupied, occupied-total_size, IsConsistent, IsPart, IsPart-refl, IsPart-trans,
}

module _ {K : Type 0} ⦃e : Eq K⦄ where
  pub record IsRoom (c : ClockCache K) (len : ℕ) (done : Bool) (c' : ClockCache K) : Type 0 where
    pub consistent : IsConsistent c'
    pub budget : c'.budget ≡ c.budget
    pub part : IsPart c'.entries c.entries
    pub room : done ≡ true → saturating (c'.used + len) ≤ c.budget

  -- `self.vacant.push(slot)` after an eviction.
  push_vacant :
      (c : ClockCache K) (slot : ℕ) (c' : ClockCache K)
      → IsOutcome c (some slot) c'
      → IsConsistent (record c' { vacant = slot ∷ c'.vacant })
  push_vacant c slot c' o = record {
    found = o.consistent.found;
    indexed = o.consistent.indexed;
    counted = o.consistent.counted;
    bounded = o.consistent.bounded;
    are_vacant = (o.evicted.0, o.evicted.1, o.consistent.are_vacant);
  }

  pub make_room-IsRoom :
      (fuel len : ℕ) (c : ClockCache K)
      → IsConsistent c
      → IsRoom c len (make_room fuel len c).0 (make_room fuel len c).1
  unfolding make_room
  make_room-IsRoom zero len c v = record {
    consistent = v;
    budget = refl;
    part = IsPart-refl c.entries;
    room = λ h. absurd (cc);
  }
  make_room-IsRoom (suc fuel) len c v =
      elim (Bool-cases (ltb c.budget (saturating (c.used + len)))) [
        | inr fits ↦ rw fits (record {
          consistent = v;
          budget = refl;
          part = IsPart-refl c.entries;
          room = λ h. ground arith;
        })
        | inl full ↦ rw full (
            pick (evict_one c).0 (evict_one c).1 (evict_one-IsOutcome c v)
              (λ d w. make_room-IsRoom fuel len d w))
      ]
    where
      pick :
          (found : Option ℕ) (c' : ClockCache K)
          → IsOutcome c found c'
          → ((d : ClockCache K)
              → IsConsistent d
              → IsRoom d len (make_room fuel len d).0 (make_room fuel len d).1)
          → (let r : Bool × ClockCache K = elim found [
            | none ↦ (false, c')
            | some slot ↦ make_room fuel len (record c' { vacant = slot ∷ c'.vacant })
          ] in
              IsRoom c len r.0 r.1)
      pick none c' o later = record {
        consistent = o.consistent;
        budget = o.budget;
        part = o.part;
        room = λ h. absurd (cc);
      }
      pick (some slot) c' o later =
          let r = later (record c' { vacant = slot ∷ c'.vacant }) (push_vacant c slot c' o) in
          record {
            consistent = r.consistent;
            budget = r.budget ∙ o.budget;
            part = IsPart-trans _ c'.entries c.entries r.part o.part;
            room = λ h. omega (arith, r.room h, o.budget);
          }

  is_empty-index : (c : ClockCache K) → IsConsistent c → 0 < c.used → is_empty c.index ≡ false
  unfolding is_empty Keys.lookup
  is_empty-index c v h =
      let (i, x, at) = occupied-total_size c.entries (omega (arith, v.counted)) in
      lookup_some x.key i c.index (v.indexed i x at)
    where
      lookup_some :
          (k : K) (i : ℕ) (m : List (K × ℕ)) → Keys.lookup k m ≡ some i → is_empty m ≡ false
      lookup_some k i [] p = absurd (cc)
      lookup_some k i (x ∷ m) p = refl

  -- With more fuel than entries, the loop ends with room for every value within the budget.
  pub make_room_total :
      (fuel len : ℕ) (c : ClockCache K)
      → IsConsistent c
      → len ≤ c.budget
      → c.budget + 1 < usize_mod
      → length c.entries * 2 < usize_mod
      → occupied c.entries < fuel
      → (make_room fuel len c).0 ≡ true
  unfolding make_room
  make_room_total zero len c v small big slots lt = absurd (omega arith)
  make_room_total (suc fuel) len c v small big slots lt =
      elim (Bool-cases (ltb c.budget (saturating (c.used + len)))) [
        | inr fits ↦ rw fits refl
        | inl full ↦ rw full (
            pick (evict_one c).0 (evict_one c).1 (evict_one-IsOutcome c v)
              (evict_one_finds c v (is_empty-index c v (unfold saturating in ground arith)) slots)
              (λ d w a b s l. make_room_total fuel len d w a b s l))
      ]
    where
      pick :
          (found : Option ℕ) (c' : ClockCache K)
          → IsOutcome c found c'
          → is_some found ≡ true
          → ((d : ClockCache K)
              → IsConsistent d
              → len ≤ d.budget
              → d.budget + 1 < usize_mod
              → length d.entries * 2 < usize_mod
              → occupied d.entries < fuel
              → (make_room fuel len d).0 ≡ true)
          → (let r : Bool × ClockCache K = elim found [
            | none ↦ (false, c')
            | some slot ↦ make_room fuel len (record c' { vacant = slot ∷ c'.vacant })
          ] in
              r.0 ≡ true)
      pick none c' o finds later = unfold is_some in absurd (cc)
      pick (some slot) c' o finds later =
          later (record c' { vacant = slot ∷ c'.vacant }) (push_vacant c slot c' o)
            (omega (arith, o.budget)) (omega (arith, o.budget)) (omega (arith, o.slots))
            (omega (arith, o.evicted.2))
