-- ===== src/Cache/Tests.antt =====
-- Runs of the cache, after the unit tests of crates/core/src/cache.rs, and its theorems at inputs.
use hakutaku.Prelude.{
  ℕ, ◌≤◌, ◌≡◌, refl, true, false, some, none, List, [], ◌∷◌, length, replicate, arith,
}
use hakutaku.Prelude.Keys
use hakutaku.Prelude.Keys.{nat_keys}
use hakutaku.Cache.{ClockCache, new, get, insert, evict_one, is_some, is_empty}
use hakutaku.Cache.Consistent.{IsConsistent, total_size}
use hakutaku.Cache.Evict.{IsOutcome, evict_one-IsOutcome}
use hakutaku.Cache.Liveness.{evict_one_finds}
use hakutaku.Cache.Laws.{contents, new-IsConsistent}
use hakutaku.Cache.Insertion.{insert-IsConsistent, contents-insert_self}
use hakutaku.Cache.Run.{Op, inserting, run, Inserts, run-new-IsConsistent, run-new-contents}

abbrev mixed : List (Op ℕ)
mixed =
    inserting 0 (replicate 4 0)
    ∷ inserting 1 (replicate 4 1)
    ∷ inserting 2 (replicate 4 2)
    ∷ inserting 3 (replicate 9 3)
    ∷ inserting 4 (replicate 1 4)
    ∷ inserting 5 (replicate 2 5)
    ∷ []

-- `mixed_block_sizes_reuse_all_evicted_slots`
mixed_runs :
    ((run mixed (new 12)).used ≡ 12)
    × (length (run mixed (new 12)).entries ≡ 3)
    × (contents (run mixed (new 12)) 3 ≡ some (replicate 9 3))
    × (contents (run mixed (new 12)) 4 ≡ some (4 ∷ []))
    × (contents (run mixed (new 12)) 0 ≡ none)
unfolding run insert new get evict_one Keys.lookup Keys.insert Keys.remove
mixed_runs = (refl, refl, refl, refl, refl)

run-new-IsConsistent_example :
    IsConsistent (run mixed (new 12)) × (total_size (run mixed (new 12)).entries ≤ 12)
run-new-IsConsistent_example = run-new-IsConsistent mixed 12 (omega arith)

run-new-contents_example : Inserts 3 (replicate 9 3) mixed
run-new-contents_example = run-new-contents mixed 12 3 (replicate 9 3) (omega arith) mixed_runs.2

abbrev one_entry : ClockCache ℕ
one_entry = insert 1 (replicate 6 1) (new 8)

one_entry-IsConsistent : IsConsistent one_entry
one_entry-IsConsistent =
    insert-IsConsistent 1 (replicate 6 1) (new 8) (new-IsConsistent 8) (unfold new in omega arith)

one_entry_facts :
    (one_entry.budget ≡ 8)
    × (length one_entry.entries ≡ 1)
    × (contents one_entry 2 ≡ none)
    × (is_empty one_entry.index ≡ false)
unfolding insert new get evict_one is_empty Keys.lookup Keys.insert Keys.remove
one_entry_facts = (refl, refl, refl, refl)

contents-insert_self_example :
    contents (insert 2 (replicate 6 2) one_entry) 2 ≡ some (replicate 6 2)
contents-insert_self_example =
    contents-insert_self 2 (replicate 6 2) one_entry one_entry-IsConsistent
      (omega (arith, one_entry_facts.0)) (omega (arith, one_entry_facts.1))
      (omega (arith, one_entry_facts.0)) (omega (arith, one_entry_facts.0)) one_entry_facts.2

evict_one_finds_example : is_some (evict_one one_entry).0 ≡ true
evict_one_finds_example =
    evict_one_finds one_entry one_entry-IsConsistent one_entry_facts.3
      (omega (arith, one_entry_facts.1))

evict_one-IsOutcome_example : IsOutcome one_entry (evict_one one_entry).0 (evict_one one_entry).1
evict_one-IsOutcome_example = evict_one-IsOutcome one_entry one_entry-IsConsistent
