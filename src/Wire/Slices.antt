-- ===== src/Wire/Slices.antt =====
-- Slices of byte buffers: what `checked_slice` and `copy_at` do, element by element.
use hakutaku.Prelude.{
  ℕ, zero, suc, ◌+◌, ◌-◌, ◌≤◌, ◌<◌, ◌≡◌, refl, sym, ap, ◌∙◌, ◌⊎◌, none, List, [], ◌∷◌, ◌++◌, length,
  get_elem?, take, drop, ltb, if◌then◌else◌, arith, length-append, length-take, length-drop,
}
use native.Mathlib.Decide.{dec_lt}
use hakutaku.Wire.Buffers.{Bytes, copy_at}

abbrev pub slice {ℓ} : {A : Type ℓ} → List A → ℕ → ℕ → List A
slice xs o n = take n (drop o xs)

module _ {ℓ} {A : Type ℓ} where
  pub ext : (xs ys : List A) → ((i : ℕ) → get_elem? xs i ≡ get_elem? ys i) → xs ≡ ys
  ext [] [] h = refl
  ext [] (y ∷ ys) h = absurd (cc (h 0))
  ext (x ∷ xs) [] h = absurd (cc (h 0))
  ext (x ∷ xs) (y ∷ ys) h = cc (h 0, ext xs ys (λ i. h (suc i)))

  pub get_elem?-take :
      (n : ℕ) (xs : List A) (i : ℕ)
      → get_elem? (take n xs) i ≡ (if ltb i n then get_elem? xs i else none)
  get_elem?-take zero xs i = ground arith
  get_elem?-take (suc n) [] i = ground arith
  get_elem?-take (suc n) (x ∷ xs) zero = ground arith
  get_elem?-take (suc n) (x ∷ xs) (suc i) = ground (arith, get_elem?-take n xs i)

  pub get_elem?-drop :
      (n : ℕ) (xs : List A) (i : ℕ) → get_elem? (drop n xs) i ≡ get_elem? xs (n + i)
  get_elem?-drop zero xs i = ap (get_elem? xs) (omega arith)
  get_elem?-drop (suc n) [] i = refl
  get_elem?-drop (suc n) (x ∷ xs) i = ground (arith, get_elem?-drop n xs i)

  pub get_elem?-append :
      (xs ys : List A) (i : ℕ)
      → get_elem? (xs ++ ys) i
        ≡ (if ltb i (length xs) then get_elem? xs i else get_elem? ys (i - length xs))
  get_elem?-append [] ys i = ground arith
  get_elem?-append (x ∷ xs) ys zero = ground arith
  get_elem?-append (x ∷ xs) ys (suc i) = ground (arith, get_elem?-append xs ys i)

  pub get_elem?-ge : (xs : List A) (i : ℕ) → length xs ≤ i → get_elem? xs i ≡ none
  get_elem?-ge [] i h = refl
  get_elem?-ge (x ∷ xs) zero h = absurd (omega arith)
  get_elem?-ge (x ∷ xs) (suc i) h = get_elem?-ge xs i (omega arith)

  pub get_elem?-slice :
      (xs : List A) (o n i : ℕ)
      → get_elem? (slice xs o n) i ≡ (if ltb i n then get_elem? xs (o + i) else none)
  get_elem?-slice xs o n i = ground (arith, get_elem?-take n (drop o xs) i, get_elem?-drop o xs i)

  pub length-slice : (xs : List A) (o n : ℕ) → o + n ≤ length xs → length (slice xs o n) ≡ n
  length-slice xs o n h = omega (arith, length-take n (drop o xs), length-drop o xs)

-- Pieces of two lists, of the sizes given and one after the other from `o` on, that agree.
abbrev pub SameFrom {ℓ} : {A : Type ℓ} → ℕ → List ℕ → List A → List A → Type ℓ
SameFrom o [] xs ys = Unit
SameFrom o (n ∷ sizes) xs ys = (slice xs o n ≡ slice ys o n) × SameFrom (o + n) sizes xs ys

abbrev pub total : List ℕ → ℕ
total [] = 0
total (n ∷ sizes) = n + total sizes

module _ {ℓ} {A : Type ℓ} where
  get_elem?-of_slice :
      (xs ys : List A) (o n i : ℕ)
      → slice xs o n ≡ slice ys o n
      → o ≤ i
      → i < o + n
      → get_elem? xs i ≡ get_elem? ys i
  get_elem?-of_slice xs ys o n i e lo hi =
      let j : o + (i - o) ≡ i = omega arith in
      ground (
        arith,
        ap (λ (l : List A). get_elem? l (i - o)) e,
        ap (get_elem? xs) j,
        ap (get_elem? ys) j,
        get_elem?-slice xs o n (i - o),
        get_elem?-slice ys o n (i - o),
      )

  get_elem?-SameFrom :
      (o : ℕ) (sizes : List ℕ) (xs ys : List A) (i : ℕ)
      → SameFrom o sizes xs ys
      → o ≤ i
      → i < o + total sizes
      → get_elem? xs i ≡ get_elem? ys i
  get_elem?-SameFrom o [] xs ys i same lo hi = absurd (omega arith)
  get_elem?-SameFrom o (n ∷ sizes) xs ys i (e, same) lo hi = elim (dec_lt i (o + n)) [
    | yes p ↦ get_elem?-of_slice xs ys o n i e lo p
    | no p ↦ get_elem?-SameFrom (o + n) sizes xs ys i same (omega arith) (omega arith)
  ]

  -- Lists of one length are equal if pieces that cover them are.
  pub eq_of_slices :
      (sizes : List ℕ) (xs ys : List A)
      → length xs ≡ total sizes
      → length ys ≡ total sizes
      → SameFrom 0 sizes xs ys
      → xs ≡ ys
  eq_of_slices sizes xs ys hx hy same = ext xs ys λ i. ground (
    arith,
    get_elem?-SameFrom 0 sizes xs ys i same,
    get_elem?-ge xs i,
    get_elem?-ge ys i,
    beyond i,
  )
    where
      beyond : (i : ℕ) → (i < total sizes) ⊎ (total sizes ≤ i)
      beyond i = grind arith

pub length-copy_at :
    (o : ℕ) (s b : Bytes) → o + length s ≤ length b → length (copy_at o s b) ≡ length b
unfolding copy_at
length-copy_at o s b h = omega (
  arith,
  length-append (take o b) (s ++ drop (o + length s) b),
  length-append s (drop (o + length s) b),
  length-take o b,
  length-drop (o + length s) b,
)

pub get_elem?-copy_at :
    (o : ℕ) (s b : Bytes) (i : ℕ)
    → o + length s ≤ length b
    → get_elem? (copy_at o s b) i ≡ (
        if ltb i o
        then get_elem? b i
        else if ltb i (o + length s)
        then get_elem? s (i - o)
        else get_elem? b i)
unfolding copy_at
get_elem?-copy_at o s b i h = ground (
  arith,
  get_elem?-append (take o b) (s ++ drop (o + length s) b) i,
  get_elem?-append s (drop (o + length s) b) (i - length (take o b)),
  get_elem?-take o b i,
  length-take o b,
  get_elem?-drop (o + length s) b (i - length (take o b) - length s),
)

pub slice-copy_at_self :
    (o : ℕ) (s b : Bytes) → o + length s ≤ length b → slice (copy_at o s b) o (length s) ≡ s
slice-copy_at_self o s b h = ext (slice (copy_at o s b) o (length s)) s λ i. ground (
  arith,
  get_elem?-slice (copy_at o s b) o (length s) i,
  get_elem?-copy_at o s b (o + i) h,
  get_elem?-ge s i,
  ap (get_elem? s) (let e : o + i - o ≡ i = omega arith in e),
)

pub slice-copy_at_ne :
    (o : ℕ) (s b : Bytes) (o' n : ℕ)
    → o + length s ≤ length b
    → (o' + n ≤ o) ⊎ (o + length s ≤ o')
    → slice (copy_at o s b) o' n ≡ slice b o' n
slice-copy_at_ne o s b o' n h apart = ext (slice (copy_at o s b) o' n) (slice b o' n) λ i. ground (
  arith,
  get_elem?-slice (copy_at o s b) o' n i,
  get_elem?-slice b o' n i,
  get_elem?-copy_at o s b (o' + i) h,
)

module _ {ℓ} {A : Type ℓ} where
  pub slice-take :
      (m : ℕ) (xs : List A) (o n : ℕ) → o + n ≤ m → slice (take m xs) o n ≡ slice xs o n
  slice-take m xs zero zero h = refl
  slice-take zero xs zero (suc n) h = absurd (omega arith)
  slice-take (suc m) [] zero (suc n) h = refl
  slice-take (suc m) (x ∷ xs) zero (suc n) h =
      ap (λ l. x ∷ l) (slice-take m xs zero n (omega arith))
  slice-take zero xs (suc o) n h = absurd (omega arith)
  slice-take (suc m) [] (suc o) n h = refl
  slice-take (suc m) (x ∷ xs) (suc o) n h = slice-take m xs o n (omega arith)

  SameFrom-take :
      (m o : ℕ) (sizes : List ℕ) (xs ys : List A)
      → o + total sizes ≤ m
      → SameFrom o sizes xs ys
      → SameFrom o sizes xs (take m ys)
  SameFrom-take m o [] xs ys h same = tt
  SameFrom-take m o (n ∷ sizes) xs ys h (e, same) = (
    e ∙ sym (slice-take m ys o n (omega arith)),
    SameFrom-take m (o + n) sizes xs ys (omega arith) same,
  )

  -- A list of the length of the pieces is the front of a list that agrees on them.
  pub take-of_slices :
      (sizes : List ℕ) (xs ys : List A)
      → length xs ≡ total sizes
      → total sizes ≤ length ys
      → SameFrom 0 sizes xs ys
      → xs ≡ take (total sizes) ys
  take-of_slices sizes xs ys hx hy same =
      eq_of_slices sizes xs (take (total sizes) ys) hx (omega (arith, length-take (total sizes) ys))
        (SameFrom-take (total sizes) 0 sizes xs ys (omega arith) same)

module _ {ℓ} {A : Type ℓ} where
  take-nil : (n : ℕ) → take {A = A} n [] ≡ []
  take-nil zero = refl
  take-nil (suc n) = refl

  take-take : (n : ℕ) (xs : List A) → take n (take n xs) ≡ take n xs
  take-take zero xs = refl
  take-take (suc n) [] = refl
  take-take (suc n) (x ∷ xs) = ap (λ l. x ∷ l) (take-take n xs)

  pub take-append_slice :
      (xs : List A) (o n : ℕ) → take o xs ++ take n (slice xs o n) ≡ take (o + n) xs
  take-append_slice xs zero n = let e : 0 + n ≡ n = omega arith in rw e (take-take n xs)
  take-append_slice [] (suc o) n = rw (take-nil n, take-nil n, take-nil (suc o + n))
  take-append_slice (x ∷ xs) (suc o) n =
      let e : suc o + n ≡ suc (o + n) = omega arith in
      rw e (ap (λ l. x ∷ l) (take-append_slice xs o n))

pub slice-append_left :
    (xs ys : Bytes) (o n : ℕ) → o + n ≤ length xs → slice (xs ++ ys) o n ≡ slice xs o n
slice-append_left xs ys zero zero h = refl
slice-append_left [] ys zero (suc n) h = absurd (omega arith)
slice-append_left (x ∷ xs) ys zero (suc n) h =
    ap (λ l. x ∷ l) (slice-append_left xs ys zero n (omega arith))
slice-append_left [] ys (suc o) n h = absurd (omega arith)
slice-append_left (x ∷ xs) ys (suc o) n h = slice-append_left xs ys o n (omega arith)

pub slice-append :
    (out r post : Bytes) (n : ℕ) → length r ≡ n → slice (out ++ (r ++ post)) (length out) n ≡ r
slice-append [] [] post zero l = refl
slice-append [] [] post (suc n) l = absurd (omega arith)
slice-append [] (x ∷ r) post zero l = absurd (omega arith)
slice-append [] (x ∷ r) post (suc n) l = ap (λ t. x ∷ t) (slice-append [] r post n (omega arith))
slice-append (x ∷ out) r post n l = slice-append out r post n l

-- The proofs for the pieces, one after the other.
infixr 1 ◌⨾◌
pub ◌⨾◌ {ℓ κ} : {A : Type ℓ} {B : Type κ} → A → B → A × B
a ⨾ b = (a, b)
