-- ===== src/Cache/Consistent.antt =====
-- What the bookkeeping of a cache has to satisfy, and what keeps it.
use hakutaku.Prelude.{
  ℕ, zero, suc, ◌+◌, ◌≤◌, ◌<◌, ◌≡◌, ◌≢◌, refl, ap, Option, none, some, List, [], ◌∷◌, ◌++◌, length,
  get_elem?, set, arith, if◌then◌else◌, get_elem?-set, get_elem?-set_ne, get_elem?-set_self,
  Bool-cases, inl, inr, ◌==◌, ◌∙◌, get_elem?-lt,
}
use hakutaku.Prelude.Keys
use hakutaku.Prelude.Keys.{Eq}
use hakutaku.Cache.{Entry, ClockCache}

module _ {K : Type 0} where
  abbrev pub slot_size : Option (Entry K) → ℕ
  slot_size none = 0
  slot_size (some entry) = length entry.value

  -- The bytes that the slots hold.
  unfoldable pub total_size : List (Option (Entry K)) → ℕ
  total_size [] = 0
  total_size (s ∷ slots) = slot_size s + total_size slots

  -- The slots that hold an entry.
  abbrev pub occupied_one : Option (Entry K) → ℕ
  occupied_one none = 0
  occupied_one (some entry) = 1

  pub occupied : List (Option (Entry K)) → ℕ
  occupied [] = 0
  occupied (s ∷ slots) = occupied_one s + occupied slots

  pub total_size-set :
      (slots : List (Option (Entry K))) (i : ℕ) (s s' : Option (Entry K))
      → get_elem? slots i ≡ some s
      → total_size (set slots i s') + slot_size s ≡ total_size slots + slot_size s'
  unfolding total_size
  total_size-set [] i s s' h = absurd (cc)
  total_size-set (x ∷ slots) zero s s' h = let e : x ≡ s = cc in rw e (omega arith)
  total_size-set (x ∷ slots) (suc i) s s' h = omega (arith, total_size-set slots i s s' h)

  pub occupied-set :
      (slots : List (Option (Entry K))) (i : ℕ) (s s' : Option (Entry K))
      → get_elem? slots i ≡ some s
      → occupied (set slots i s') + occupied_one s ≡ occupied slots + occupied_one s'
  unfolding occupied
  occupied-set [] i s s' h = absurd (cc)
  occupied-set (x ∷ slots) zero s s' h = let e : x ≡ s = cc in rw e (omega arith)
  occupied-set (x ∷ slots) (suc i) s s' h = omega (arith, occupied-set slots i s s' h)

  pub total_size-append :
      (slots : List (Option (Entry K))) → total_size (slots ++ (none ∷ [])) ≡ total_size slots
  unfolding total_size
  total_size-append [] = refl
  total_size-append (x ∷ slots) = omega (arith, total_size-append slots)

  pub occupied-le-length : (slots : List (Option (Entry K))) → occupied slots ≤ length slots
  unfolding occupied
  occupied-le-length [] = omega arith
  occupied-le-length (none ∷ slots) = omega (arith, occupied-le-length slots)
  occupied-le-length (some x ∷ slots) = omega (arith, occupied-le-length slots)

  pub occupied-total_size :
      (slots : List (Option (Entry K)))
      → 0 < total_size slots
      → (i : ℕ) × (x : Entry K) × (get_elem? slots i ≡ some (some x))
  unfolding total_size
  occupied-total_size [] h = absurd (omega arith)
  occupied-total_size (some x ∷ slots) h = (0, x, refl)
  occupied-total_size (none ∷ slots) h =
      let (i, x, at) = occupied-total_size slots (omega arith) in (suc i, x, at)

-- Slot `i` holds an entry under key `k`.
abbrev pub HoldsKey : {K : Type 0} → List (Option (Entry K)) → K → ℕ → Type 0
HoldsKey {K} slots k i =
    (entry : Entry K) × (get_elem? slots i ≡ some (some entry)) × (entry.key ≡ k)

abbrev pub Fresh : ℕ → List ℕ → Type 0
Fresh s [] = Unit
Fresh s (t ∷ slots) = (s ≢ t) × Fresh s slots

-- The listed slots are empty, and none is listed twice.
abbrev pub AreVacant : {K : Type 0} → List (Option (Entry K)) → List ℕ → Type 0
AreVacant entries [] = Unit
AreVacant entries (s ∷ slots) =
    (get_elem? entries s ≡ some none) × Fresh s slots × AreVacant entries slots

module _ {K : Type 0} ⦃e : Eq K⦄ where
  -- The index names exactly the occupied slots, under the keys of their entries; the bytes in use
  -- are those of the entries and within the budget; the vacant slots are empty.
  pub record IsConsistent (c : ClockCache K) : Type 0 where
    pub found : (k : K) (i : ℕ) → Keys.lookup k c.index ≡ some i → HoldsKey c.entries k i
    pub indexed :
        (i : ℕ) (entry : Entry K)
        → get_elem? c.entries i ≡ some (some entry)
        → Keys.lookup entry.key c.index ≡ some i
    pub counted : c.used ≡ total_size c.entries
    pub bounded : c.used ≤ c.budget
    pub are_vacant : AreVacant c.entries c.vacant

-- A slot of `after` holds what the same slot of `before` held, up to the reference mark.
abbrev pub IsPart : {K : Type 0} → List (Option (Entry K)) → List (Option (Entry K)) → Type 0
IsPart {K} after before =
    (i : ℕ) (y : Entry K)
    → get_elem? after i ≡ some (some y)
    → (x : Entry K) × (get_elem? before i ≡ some (some x)) × (x.key ≡ y.key) × (x.value ≡ y.value)

module _ {K : Type 0} where
  pub IsPart-refl : (slots : List (Option (Entry K))) → IsPart slots slots
  IsPart-refl slots i y h = (y, h, refl, refl)

  pub IsPart-trans : (a b c : List (Option (Entry K))) → IsPart a b → IsPart b c → IsPart a c
  IsPart-trans a b c p q i y h =
      let (x, at, k, v) = p i y h in let (w, at', k', v') = q i x at in (w, at', k' ∙ k, v' ∙ v)

  -- A write of the same key and value over an entry.
  pub IsPart-set_same :
      (slots : List (Option (Entry K))) (h : ℕ) (x y : Entry K)
      → get_elem? slots h ≡ some (some x)
      → x.key ≡ y.key
      → x.value ≡ y.value
      → IsPart (set slots h (some y)) slots
  IsPart-set_same slots h x y at k v i z there = elim (Bool-cases (h == i)) [
    | inl same ↦ (x, ground (arith, law), ground (arith, law), ground (arith, law))
    | inr other ↦ (z, ground (arith, law), refl, refl)
  ]
    where
      law :
          get_elem? (set slots h (some y)) i ≡ (if h == i then some (some y) else get_elem? slots i)
      law = get_elem?-set slots h i (some y) (get_elem?-lt slots h (some x) at)

  pub IsPart-set-none :
      (slots : List (Option (Entry K))) (h : ℕ) (x : Entry K)
      → get_elem? slots h ≡ some (some x)
      → IsPart (set slots h none) slots
  IsPart-set-none slots h x at i z there = (
    z,
    ground (arith, get_elem?-set slots h i none (get_elem?-lt slots h (some x) at)),
    refl,
    refl,
  )

  -- Every entry is still there after such a write, and after it is put back into an emptied slot.
  pub IsPart-of_set_same :
      (slots : List (Option (Entry K))) (h : ℕ) (x y : Entry K)
      → get_elem? slots h ≡ some (some x)
      → x.key ≡ y.key
      → x.value ≡ y.value
      → IsPart slots (set slots h (some y))
  IsPart-of_set_same slots h x y at k v i z there = elim (Bool-cases (h == i)) [
    | inl same ↦
        let here : some (some x) ≡ some (some z) = ground (arith, at, there, same) in
        let x_is_z : x ≡ z = cc in
        (y, ground (arith, law), ground (arith, x_is_z), ground (arith, x_is_z))
    | inr other ↦ (z, ground (arith, law), refl, refl)
  ]
    where
      law :
          get_elem? (set slots h (some y)) i ≡ (if h == i then some (some y) else get_elem? slots i)
      law = get_elem?-set slots h i (some y) (get_elem?-lt slots h (some x) at)

  set-set :
      (slots : List (Option (Entry K))) (h : ℕ) (s s' : Option (Entry K))
      → set (set slots h s) h s' ≡ set slots h s'
  set-set [] h s s' = refl
  set-set (x ∷ slots) zero s s' = refl
  set-set (x ∷ slots) (suc h) s s' = ap (λ l. x ∷ l) (set-set slots h s s')

  pub IsPart-put_back :
      (slots : List (Option (Entry K))) (h : ℕ) (x : Entry K)
      → get_elem? slots h ≡ some (some x)
      → IsPart slots (set (set slots h none) h (some x))
  IsPart-put_back slots h x at =
      rw (set-set slots h none (some x)) (IsPart-of_set_same slots h x x at refl refl)

  pub IsPart-set_both :
      (slots : List (Option (Entry K))) (h : ℕ) (x y : Entry K)
      → h < length slots
      → x.key ≡ y.key
      → x.value ≡ y.value
      → IsPart (set slots h (some x)) (set slots h (some y))
  IsPart-set_both slots h x y small k v =
      let at = get_elem?-set_self slots h (some x) small in
      rw (← set-set slots h (some x) (some y))
        (IsPart-of_set_same (set slots h (some x)) h x y at k v)

  -- An occupied slot is not among the vacant ones, and a write to it leaves them vacant.
  pub Fresh-occupied :
      (slots : List (Option (Entry K))) (vs : List ℕ) (h : ℕ) (x : Entry K)
      → get_elem? slots h ≡ some (some x)
      → AreVacant slots vs
      → Fresh h vs
  Fresh-occupied slots [] h x at a = tt
  Fresh-occupied slots (s ∷ vs) h x at (empty, f, a) =
      ((λ same. absurd (cc (ap (get_elem? slots) same))), Fresh-occupied slots vs h x at a)

  pub AreVacant-set :
      (slots : List (Option (Entry K))) (vs : List ℕ) (h : ℕ) (s : Option (Entry K))
      → Fresh h vs
      → AreVacant slots vs
      → AreVacant (set slots h s) vs
  AreVacant-set slots [] h s f a = tt
  AreVacant-set slots (t ∷ vs) h s (ne, f) (empty, fr, a) =
      (get_elem?-set_ne slots h t s ne ∙ empty, fr, AreVacant-set slots vs h s f a)
