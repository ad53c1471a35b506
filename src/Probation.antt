-- ===== src/Probation.antt =====
-- `second_normal_access` of crates/core/src/package.rs: a block of an asset with normal access enters
-- the cache of plain blocks at its second access. The queue holds the blocks that were accessed once,
-- the oldest in front.
pub mod Laws
mod Tests
use hakutaku.Prelude.{
  ℕ, Bool, true, false, List, [], ◌∷◌, ◌++◌, length, leb, ◌==◌, ◌||◌, if◌then◌else◌,
}
use hakutaku.Prelude.Keys.{Eq}

module _ {K : Type 0} ⦃e : Eq K⦄ where
  unfoldable pub member : K → List K → Bool
  member key [] = false
  member key (candidate ∷ queue) = e.beq candidate key || member key queue

  -- The first place of the key is found and removed.
  unfoldable pub remove_first : K → List K → List K
  remove_first key [] = []
  remove_first key (candidate ∷ queue) =
      let rest = remove_first key queue in if e.beq candidate key then queue else candidate ∷ rest

  -- `while probation.len() >= capacity`
  unfoldable pub pop_while_full : ℕ → List K → List K
  pop_while_full capacity [] = []
  pop_while_full capacity (oldest ∷ queue) =
      let rest = pop_while_full capacity queue in
      if leb capacity (length (oldest ∷ queue)) then rest else oldest ∷ queue

  unfoldable pub second_normal_access : ℕ → K → List K → Bool × List K
  unfolding member remove_first pop_while_full
  second_normal_access capacity key probation =
      if capacity == 0
      then (false, probation)
      else (if member key probation
          then (true, remove_first key probation)
          else (false, pop_while_full capacity probation ++ (key ∷ [])))
