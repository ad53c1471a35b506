-- ===== src/Probation/Tests.antt =====
-- Runs of the probation queue, and its theorem at a concrete queue.
use hakutaku.Prelude.{ℕ, ◌≡◌, refl, true, false, List, [], ◌∷◌, arith}
use hakutaku.Prelude.Keys.{nat_keys}
use hakutaku.Probation.{member, pop_while_full, second_normal_access}
use hakutaku.Probation.Laws.{IsQueue, AreDistinct, second_normal_access-IsQueue}

abbrev two_blocks : List ℕ
two_blocks = 4 ∷ 9 ∷ []

two_blocks-IsQueue : IsQueue 2 two_blocks
unfolding AreDistinct member
two_blocks-IsQueue = record { distinct = (refl, (refl, tt)); within = omega arith }

-- A third block pushes out the oldest one.
second_normal_access_full : second_normal_access 2 7 two_blocks ≡ (false, 9 ∷ 7 ∷ [])
unfolding second_normal_access member pop_while_full
second_normal_access_full = refl

second_normal_access-IsQueue_example :
    IsQueue 2 (second_normal_access 2 9 two_blocks).1
    × ((second_normal_access 2 9 two_blocks).0 ≡ true)
    × (member 9 (second_normal_access 2 9 two_blocks).1 ≡ false)
unfolding member
second_normal_access-IsQueue_example =
    second_normal_access-IsQueue 2 9 two_blocks (omega arith) two_blocks-IsQueue
