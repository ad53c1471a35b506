-- ===== src/Planner/Loop.antt =====
-- What the loop over the sources leaves for every path.
use hakutaku.Prelude.{
  Option-cases, ℕ, ◌+◌, ◌≡◌, refl, sym, ap, ◌∙◌, true, false, none, some, Option, List, [], ◌∷◌,
  arith, if◌then◌else◌, Bool-cases, inl, inr,
}
use mathlib.Core.Path.{subst}
use hakutaku.Prelude.Keys.{lookup, remove, lookup-remove}
use hakutaku.Wire.{Bytes, bytes_eq}
use hakutaku.Wire.Inverse.{bytes_eq-eq}
use hakutaku.PackErrors.{ok, PackResult, >>=-eq-ok, ok_inj}
use hakutaku.BuildCache.{path_keys}
use hakutaku.Source.{SourceFile, classify}
use hakutaku.Planner.{
  PlannedAsset, AssetInfo, AssetChange, added, modified, unchanged, removed, Progress, plan_source,
  plan_sources, change_of, add_changed, counts, availability, released_len_of,
}
use hakutaku.Planner.Sorted.{times, Once, remove-Once, find, Keyed, remove-Keyed}

abbrev pub find_source : Bytes → List SourceFile → Option SourceFile
find_source path [] = none
find_source path (source ∷ sources) =
    if bytes_eq source.logical_path path then some source else find_source path sources

-- How often a path is that of a source.
abbrev pub source_times : Bytes → List SourceFile → ℕ
source_times path [] = 0
source_times path (source ∷ sources) =
    (if bytes_eq source.logical_path path then 1 else 0) + source_times path sources

-- The asset that the plan has for a source.
abbrev pub planned : List Bytes → SourceFile → Option AssetInfo → AssetChange → PlannedAsset
planned deferred_prefixes source previous change = record {
  path = source.logical_path;
  source_len = some source.len;
  released_len = released_len_of previous;
  access = (classify source).access;
  availability = availability deferred_prefixes source.logical_path;
  change = change;
}

abbrev pub counted : PlannedAsset → ℕ
counted asset = elim asset.source_len [
  | none ↦ 0
  | some len ↦ if counts asset.change then len else 0
]

abbrev pub counted_total : List PlannedAsset → ℕ
counted_total [] = 0
counted_total (asset ∷ assets) = counted asset + counted_total assets

add_changed-counted :
    (change : AssetChange) (total len sum : ℕ)
    → add_changed change total len ≡ ok sum
    → sum ≡ total + (if counts change then len else 0)
unfolding add_changed counts
add_changed-counted added total len sum e = ground (arith, e)
add_changed-counted modified total len sum e = ground (arith, e)
add_changed-counted unchanged total len sum e = ground (arith, e)
add_changed-counted removed total len sum e = ground (arith, e)

some_inj : {A : Type 0} (a b : A) → some a ≡ some b → a ≡ b
some_inj a b e = cc

module _ (open_verified : SourceFile → PackResult Bytes)
    (validate_open_file : SourceFile → PackResult (Unit {0}))
    (open_asset : Bytes → PackResult Bytes) (deferred_prefixes : List Bytes) where
  -- The change of a source, against what was released under its path.
  abbrev pub HasChange : Option AssetInfo → SourceFile → AssetChange → Type 0
  HasChange previous source change =
      change_of open_verified validate_open_file open_asset previous source ≡ ok change

  -- What the loop over the sources leaves.
  pub record IsDone (sources : List SourceFile) (released : List (Bytes × AssetInfo)) (total : ℕ)
      (last : Progress) : Type 0 where
    pub source_planned :
        (path : Bytes) (source : SourceFile)
        → find_source path sources ≡ some source
        → (change : AssetChange) × HasChange (lookup path released) source change
          × (find path last.assets
              ≡ some (planned deferred_prefixes source (lookup path released) change))
    pub no_source : (path : Bytes) → find_source path sources ≡ none → find path last.assets ≡ none
    pub still_released :
        (path : Bytes)
        → find_source path sources ≡ none
        → lookup path last.released ≡ lookup path released
    pub keyed : Keyed released → Keyed last.released
    pub times_planned : (path : Bytes) → times path last.assets ≡ source_times path sources
    pub no_longer_released :
        (path : Bytes) (source : SourceFile)
        → find_source path sources ≡ some source
        → lookup path last.released ≡ none
    pub once : Once released → Once last.released
    pub counted_up : last.changed_source_bytes ≡ total + counted_total last.assets

  plan_source-planned :
      (source : SourceFile) (released : List (Bytes × AssetInfo)) (total : ℕ)
      (result : PlannedAsset × ℕ)
      → plan_source open_verified validate_open_file open_asset deferred_prefixes source released
          total
        ≡ ok result
      → (change : AssetChange) × HasChange (lookup source.logical_path released) source change
        × (result.0 ≡ planned deferred_prefixes source (lookup source.logical_path released) change)
        × (result.1 ≡ total + counted result.0)
  unfolding plan_source add_changed
  plan_source-planned source released total result e =
      let previous = lookup source.logical_path released in
      let (change, e1, r1) =
        >>=-eq-ok (change_of open_verified validate_open_file open_asset previous source) _ e in
      let (sum, e2, r2) = >>=-eq-ok (add_changed change total source.len) _ r1 in
      let same = ok_inj _ result r2 in
      let first = ap (λ (p : PlannedAsset × ℕ). p.0) (sym same) in
      (
        change,
        e1,
        first,
        ap (λ (p : PlannedAsset × ℕ). p.1) (sym same)
            ∙ add_changed-counted change total source.len sum e2
            ∙ ap (λ (a : PlannedAsset). total + counted a) (sym first),
      )

  -- One round more, in front.
  module _ (source : SourceFile) (sources : List SourceFile) (released : List (Bytes × AssetInfo))
      (total : ℕ) (p : PlannedAsset × ℕ) (rest : Progress) (change : AssetChange)
      (has : HasChange (lookup source.logical_path released) source change)
      (here : p.0 ≡ planned deferred_prefixes source (lookup source.logical_path released) change)
      (count : p.1 ≡ total + counted p.0)
      (done : IsDone sources (remove source.logical_path released) p.1 rest) where
    abbrev last : Progress
    last = record rest { assets = p.0 ∷ rest.assets }

    path_here : p.0.path ≡ source.logical_path
    path_here = ap (λ (a : PlannedAsset). a.path) here

    find_here :
        (path : Bytes) → bytes_eq source.logical_path path ≡ true → find path last.assets ≡ some p.0
    find_here path same = rw (path_here, same) refl

    find_further :
        (path : Bytes)
        → bytes_eq source.logical_path path ≡ false
        → find path last.assets ≡ find path rest.assets
    find_further path other = rw (path_here, other) refl

    kept :
        (path : Bytes)
        → bytes_eq source.logical_path path ≡ false
        → lookup path (remove source.logical_path released) ≡ lookup path released
    kept path other = lookup-remove source.logical_path path released ∙ rw other refl

    planned_here :
        (path : Bytes) (found : SourceFile)
        → bytes_eq source.logical_path path ≡ true
        → find_source path (source ∷ sources) ≡ some found
        → (c : AssetChange) × HasChange (lookup path released) found c
          × (find path last.assets
              ≡ some (planned deferred_prefixes found (lookup path released) c))
    planned_here path found same h =
        let at = find_here path same in
        let e = bytes_eq-eq source.logical_path path same in
        let f : source ≡ found = some_inj source found (rw same at h) in
        rw (← f, ← e) (change, has, (rw (← e) at at) ∙ ap some here)

    planned_further :
        (path : Bytes) (found : SourceFile)
        → bytes_eq source.logical_path path ≡ false
        → find_source path (source ∷ sources) ≡ some found
        → (c : AssetChange) × HasChange (lookup path released) found c
          × (find path last.assets
              ≡ some (planned deferred_prefixes found (lookup path released) c))
    planned_further path found other h =
        rw (find_further path other, ← kept path other)
          (done.source_planned path found (rw other at h))

    no_source_here :
        (path : Bytes)
        → find_source path (source ∷ sources) ≡ none
        → (bytes_eq source.logical_path path ≡ false) × (find_source path sources ≡ none)
    no_source_here path h = elim (Bool-cases (bytes_eq source.logical_path path)) [
      | inl same ↦ absurd (cc (rw same at h))
      | inr other ↦ (other, rw other at h)
    ]

    times_here : (path : Bytes) → times path last.assets ≡ source_times path (source ∷ sources)
    times_here path = rw path_here (
        ap (λ (n : ℕ). (if bytes_eq source.logical_path path then 1 else 0) + n)
          (done.times_planned path))

    -- Its path is no longer in the map, whether another source has it or not.
    gone_here :
        (path : Bytes) → bytes_eq source.logical_path path ≡ true → lookup path rest.released ≡ none
    gone_here path same = elim (Option-cases (find_source path sources)) [
      | inl no_more ↦
          done.still_released path no_more
          ∙ lookup-remove source.logical_path path released
          ∙ rw same refl
      | inr (other, more) ↦ done.no_longer_released path other more
    ]

    gone :
        (path : Bytes) (found : SourceFile)
        → find_source path (source ∷ sources) ≡ some found
        → lookup path last.released ≡ none
    gone path found h = elim (Bool-cases (bytes_eq source.logical_path path)) [
      | inl same ↦ gone_here path same
      | inr other ↦ done.no_longer_released path found (rw other at h)
    ]

    IsDone-cons : IsDone (source ∷ sources) released total last
    IsDone-cons = record {
      source_planned = λ path found h. elim (Bool-cases (bytes_eq source.logical_path path)) [
        | inl same ↦ planned_here path found same h
        | inr other ↦ planned_further path found other h
      ];
      no_source = λ path h.
          let (other, further) = no_source_here path h in
          find_further path other ∙ done.no_source path further;
      still_released = λ path h.
          let (other, further) = no_source_here path h in
          done.still_released path further ∙ kept path other;
      keyed = λ k. done.keyed (remove-Keyed source.logical_path released k);
      times_planned = times_here;
      no_longer_released = gone;
      once = λ o. done.once (remove-Once source.logical_path released o);
      counted_up = omega (arith, done.counted_up, count);
    }

  pub plan_sources-IsDone :
      (sources : List SourceFile) (released : List (Bytes × AssetInfo)) (total : ℕ)
      (last : Progress)
      → plan_sources open_verified validate_open_file open_asset deferred_prefixes sources released
          total
        ≡ ok last
      → IsDone sources released total last
  unfolding plan_sources
  plan_sources-IsDone [] released total last e =
      let same = ok_inj _ last e in
      record {
        source_planned = λ path source h. absurd (cc);
        no_source = λ path h. ap (λ (l : Progress). find path l.assets) (sym same);
        still_released = λ path h. ap (λ (l : Progress). lookup path l.released) (sym same);
        keyed = λ k. rw (← same) k;
        times_planned = λ path. ap (λ (l : Progress). times path l.assets) (sym same);
        no_longer_released = λ path source h. absurd (cc);
        once = λ o. rw (← same) o;
        counted_up = rw (← same) (omega arith);
      }
  plan_sources-IsDone (source ∷ sources) released total last e =
      let (p, e1, r1) =
        >>=-eq-ok
          (plan_source open_verified validate_open_file open_asset deferred_prefixes source released
            total)
          _ e in
      let (rest, e2, r2) =
        >>=-eq-ok
          (plan_sources open_verified validate_open_file open_asset deferred_prefixes sources
            (remove source.logical_path released) p.1)
          _ r1 in
      let (change, has, here, count) = plan_source-planned source released total p e1 in
      subst (IsDone (source ∷ sources) released total) (ok_inj _ last r2) (
        IsDone-cons source sources released total p rest change has here count
          (plan_sources-IsDone sources (remove source.logical_path released) p.1 rest e2))
