-- ===== src/Probation/Laws.antt =====
-- The queue of blocks that were accessed once.
use hakutaku.Prelude.{
  ℕ, ◌≤◌, ◌<◌, ◌≡◌, refl, true, false, not, List, [], ◌∷◌, ◌++◌, length, arith, inl, inr,
  Bool-cases, length-append, leb, ◌==◌, ◌||◌,
}
use hakutaku.Prelude.Keys.{Eq}
use hakutaku.Probation.{member, remove_first, pop_while_full, second_normal_access}

module _ {K : Type 0} ⦃e : Eq K⦄ where
  unfoldable pub AreDistinct : List K → Type 0
  AreDistinct [] = Unit {0}
  AreDistinct (x ∷ xs) = (member x xs ≡ false) × AreDistinct xs

  -- A queue of distinct keys within its capacity.
  pub record IsQueue (capacity : ℕ) (queue : List K) : Type 0 where
    pub distinct : AreDistinct queue
    pub within : length queue ≤ capacity

  member-append : (k : K) (xs ys : List K) → member k (xs ++ ys) ≡ (member k xs || member k ys)
  unfolding member
  member-append k [] ys = refl
  member-append k (x ∷ xs) ys = ground (arith, member-append k xs ys)

  member-remove_first :
      (k j : K) (xs : List K) → member j xs ≡ false → member j (remove_first k xs) ≡ false
  unfolding member remove_first
  member-remove_first k j [] h = refl
  member-remove_first k j (x ∷ xs) h = ground (arith, member-remove_first k j xs)

  member-remove_first_self :
      (k : K) (xs : List K) → AreDistinct xs → member k (remove_first k xs) ≡ false
  unfolding member remove_first AreDistinct
  member-remove_first_self k [] d = refl
  member-remove_first_self k (x ∷ xs) (new, d) = elim (Bool-cases (e.beq x k)) [
    | inl eq ↦ let same : x ≡ k = (e.beq_iff x k).0 eq in rw eq (rw same at new)
    | inr ne ↦ ground (arith, ne, member-remove_first_self k xs d)
  ]

  remove_first-AreDistinct :
      (k : K) (xs : List K) → AreDistinct xs → AreDistinct (remove_first k xs)
  unfolding remove_first AreDistinct
  remove_first-AreDistinct k [] d = tt
  remove_first-AreDistinct k (x ∷ xs) (new, d) = elim (Bool-cases (e.beq x k)) [
    | inl eq ↦ rw eq d
    | inr ne ↦ rw ne (member-remove_first k x xs new, remove_first-AreDistinct k xs d)
  ]

  length-remove_first : (k : K) (xs : List K) → length (remove_first k xs) ≤ length xs
  unfolding remove_first
  length-remove_first k [] = omega arith
  length-remove_first k (x ∷ xs) = ground (arith, length-remove_first k xs)

  member-pop_while_full :
      (capacity : ℕ) (j : K) (xs : List K)
      → member j xs ≡ false
      → member j (pop_while_full capacity xs) ≡ false
  unfolding member pop_while_full
  member-pop_while_full capacity j [] h = refl
  member-pop_while_full capacity j (x ∷ xs) h = ground (arith, member-pop_while_full capacity j xs)

  pop_while_full-AreDistinct :
      (capacity : ℕ) (xs : List K) → AreDistinct xs → AreDistinct (pop_while_full capacity xs)
  unfolding pop_while_full
  pop_while_full-AreDistinct capacity [] d = d
  pop_while_full-AreDistinct capacity (x ∷ xs) d =
      elim (Bool-cases (leb capacity (length (x ∷ xs)))) [
        | inl full ↦ rw full (pop_while_full-AreDistinct capacity xs (unfold AreDistinct in d.1))
        | inr room ↦ rw room d
      ]

  pop_while_full-lt :
      (capacity : ℕ) (xs : List K) → 0 < capacity → length (pop_while_full capacity xs) < capacity
  unfolding pop_while_full
  pop_while_full-lt capacity [] h = h
  pop_while_full-lt capacity (x ∷ xs) h = ground (arith, pop_while_full-lt capacity xs h)

  append-AreDistinct :
      (k : K) (xs : List K) → AreDistinct xs → member k xs ≡ false → AreDistinct (xs ++ (k ∷ []))
  unfolding AreDistinct member
  append-AreDistinct k [] d new = (refl, tt)
  append-AreDistinct k (x ∷ xs) (head, d) new = (
    ground (arith, member-append x xs (k ∷ []), e.beq_iff k x, e.beq_iff x k),
    append-AreDistinct k xs d (ground arith),
  )

  member-last : (k : K) (xs : List K) → member k (xs ++ (k ∷ [])) ≡ true
  unfolding member
  member-last k [] = ground (arith, e.beq_iff k k)
  member-last k (x ∷ xs) = ground (arith, member-last k xs)

  -- With a positive capacity and a queue of distinct blocks within it, an access is the second one
  -- exactly when the block is in the queue. The queue stays distinct and within its capacity, and
  -- the block is in it afterwards exactly when the access was the first one.
  pub second_normal_access-IsQueue :
      (capacity : ℕ) (key : K) (queue : List K)
      → 0 < capacity
      → IsQueue capacity queue
      → IsQueue capacity (second_normal_access capacity key queue).1
        × ((second_normal_access capacity key queue).0 ≡ member key queue)
        × (member key (second_normal_access capacity key queue).1 ≡ not (member key queue))
  unfolding second_normal_access
  second_normal_access-IsQueue capacity key queue positive q =
      let some_room : capacity == 0 ≡ false = ground arith in
      elim (Bool-cases (member key queue)) [
        | inl there ↦
            rw (some_room, there)
              (
                record {
                  distinct = remove_first-AreDistinct key queue q.distinct;
                  within = omega (arith, length-remove_first key queue, q.within);
                },
                refl,
                member-remove_first_self key queue q.distinct,
              )
        | inr new ↦
            let popped = pop_while_full capacity queue in
            rw (some_room, new)
              (
                record {
                  distinct =
                      append-AreDistinct key popped
                        (pop_while_full-AreDistinct capacity queue q.distinct)
                        (member-pop_while_full capacity key queue new);
                  within = omega (
                    arith,
                    length-append popped (key ∷ []),
                    pop_while_full-lt capacity queue positive,
                  );
                },
                refl,
                member-last key popped,
              )
      ]
