-- ===== src/Cache/Run.antt =====
-- Any sequence of operations on a fresh cache.
use hakutaku.Prelude.{
  ℕ, ◌+◌, ◌≤◌, ◌<◌, ◌≡◌, refl, ◌∙◌, none, some, List, [], ◌∷◌, arith, ◌⊎◌, inl, inr,
}
use hakutaku.Prelude.Keys.{Eq}
use hakutaku.Prelude.Keys
use hakutaku.Wire.{Bytes, usize_mod}
use hakutaku.Cache.{ClockCache, new, clear, get, insert}
use hakutaku.Cache.Consistent.{IsConsistent, total_size}
use hakutaku.Cache.Laws.{
  contents, new-IsConsistent, clear-IsConsistent, get-IsConsistent, contents-get, get_state_budget,
}
use hakutaku.Cache.Insertion.{
  insert-IsConsistent, contents-insert, Insertion, declined, gave_up, stored, insert-Insertion,
}

pub data Op (K : Type 0) : Type 0 where
  getting : K → Op K
  inserting : K → Bytes → Op K
  clearing : Op K

module _ {K : Type 0} ⦃e : Eq K⦄ where
  unfoldable pub apply : Op K → ClockCache K → ClockCache K
  apply (getting k) c = (get k c).1
  apply (inserting k v) c = insert k v c
  apply clearing c = clear c

  unfoldable pub run : List (Op K) → ClockCache K → ClockCache K
  unfolding apply
  run [] c = c
  run (op ∷ ops) c = run ops (apply op c)

  budget-insert :
      (k : K) (v : Bytes) (c c' : ClockCache K) → Insertion k v c c' → c'.budget ≡ c.budget
  budget-insert k v c c' (declined h) = refl
  budget-insert k v c c' (gave_up d r) = r.budget
  budget-insert k v c c' (stored d r n s) = s.budget ∙ r.budget

  budget-apply :
      (op : Op K) (c : ClockCache K)
      → IsConsistent c
      → c.budget + 1 < usize_mod
      → (apply op c).budget ≡ c.budget
  unfolding apply
  budget-apply (getting k) c v big = get_state_budget k c v
  budget-apply (inserting k w) c v big =
      budget-insert k w c (insert k w c) (insert-Insertion k w c v big)
  budget-apply clearing c v big = unfold clear in refl

  apply-IsConsistent :
      (op : Op K) (c : ClockCache K)
      → IsConsistent c
      → c.budget + 1 < usize_mod
      → IsConsistent (apply op c)
  unfolding apply
  apply-IsConsistent (getting k) c v big = get-IsConsistent k c v
  apply-IsConsistent (inserting k w) c v big = insert-IsConsistent k w c v big
  apply-IsConsistent clearing c v big = clear-IsConsistent c

  run-IsConsistent :
      (ops : List (Op K)) (c : ClockCache K)
      → IsConsistent c
      → c.budget + 1 < usize_mod
      → IsConsistent (run ops c) × ((run ops c).budget ≡ c.budget)
  unfolding run
  run-IsConsistent [] c v big = (v, refl)
  run-IsConsistent (op ∷ ops) c v big =
      let b = budget-apply op c v big in
      let (w, b') =
        run-IsConsistent ops (apply op c) (apply-IsConsistent op c v big) (omega (arith, b)) in
      (w, b' ∙ b)

  -- Some operation of the list inserts `w` under `j`, and no later one clears the cache.
  abbrev pub Clears : List (Op K) → Type 0
  Clears [] = ⊥
  Clears (getting k ∷ ops) = Clears ops
  Clears (inserting k v ∷ ops) = Clears ops
  Clears (clearing ∷ ops) = Unit

  abbrev pub Inserts : K → Bytes → List (Op K) → Type 0
  Inserts j w [] = ⊥
  Inserts j w (getting k ∷ ops) = Inserts j w ops
  Inserts j w (inserting k v ∷ ops) = (((j ≡ k) × (w ≡ v)) × ¬ Clears ops) ⊎ Inserts j w ops
  Inserts j w (clearing ∷ ops) = Inserts j w ops

  contents-clear : (c : ClockCache K) (j : K) → contents (clear c) j ≡ none
  unfolding clear get Keys.lookup
  contents-clear c j = refl

  run-contents :
      (ops : List (Op K)) (c : ClockCache K) (j : K) (w : Bytes)
      → IsConsistent c
      → c.budget + 1 < usize_mod
      → contents (run ops c) j ≡ some w
      → Inserts j w ops ⊎ ((contents c j ≡ some w) × ¬ Clears ops)
  unfolding run
  run-contents [] c j w v big h = inr (h, λ x. x)
  run-contents (op ∷ ops) c j w v big h = later op (
      run-contents ops (apply op c) j w (apply-IsConsistent op c v big)
        (omega (arith, budget-apply op c v big)) h)
    where
      later :
          (op : Op K)
          → Inserts j w ops ⊎ ((contents (apply op c) j ≡ some w) × ¬ Clears ops)
          → Inserts j w (op ∷ ops) ⊎ ((contents c j ≡ some w) × ¬ Clears (op ∷ ops))
      later (getting k) (inl x) = inl x
      later (getting k) (inr (x, q)) = inr (contents-get k j w c v x, q)
      later (inserting k u) (inl x) = inl (inr x)
      later (inserting k u) (inr (x, q)) = elim (contents-insert k j u w c v big x) [
        | inl same ↦ inl (inl (same, q))
        | inr old ↦ inr (old, q)
      ]
      later clearing (inl x) = inl x
      later clearing (inr (x, q)) = absurd (cc (contents-clear c j))

-- After any operations on a fresh cache, the bookkeeping holds: the index names exactly the
-- occupied slots, `used` counts the bytes of their values, and these are within the budget.
pub run-new-IsConsistent :
    {K : Type 0} ⦃e : Eq K⦄ (ops : List (Op K)) (budget : ℕ)
    → budget + 1 < usize_mod
    → IsConsistent (run ops (new budget)) × (total_size (run ops (new budget)).entries ≤ budget)
unfolding new
run-new-IsConsistent ops budget big =
    let n = new-IsConsistent budget in
    let (v, b) = run-IsConsistent ops (new budget) n big in
    (v, omega (arith, v.counted, v.bounded, b))

-- A value that `get` returns after any operations on a fresh cache was inserted under that key,
-- and the cache was not cleared since.
pub run-new-contents :
    {K : Type 0} ⦃e : Eq K⦄ (ops : List (Op K)) (budget : ℕ) (j : K) (w : Bytes)
    → budget + 1 < usize_mod
    → contents (run ops (new budget)) j ≡ some w
    → Inserts j w ops
unfolding new get Keys.lookup
run-new-contents ops budget j w big h =
    elim (run-contents ops (new budget) j w (new-IsConsistent budget) big h) [
      | inl x ↦ x
      | inr (x, q) ↦ absurd (cc)
    ]
