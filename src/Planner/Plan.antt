-- ===== src/Planner/Plan.antt =====
-- What a plan says of every path.
use hakutaku.Prelude.{
  Option-cases, ap₂, ℕ, ◌+◌, ◌≡◌, refl, sym, ap, ◌∙◌, none, some, Option, List, [], ◌∷◌, ◌++◌, map,
  arith, ltb, Bool-cases, inl, inr,
}
use mathlib.Core.Path.{subst}
use hakutaku.Prelude.Keys.{lookup, remove, insert, lookup-remove}
use hakutaku.Wire.{Bytes, bytes_eq, u64_mod}
use hakutaku.PackErrors.{PackResult, ok, >>=-eq-ok, ok_inj}
use hakutaku.BuildCache.{path_keys}
use hakutaku.Source.{SourceFile}
use hakutaku.Wire.Inverse.{bytes_eq_refl}
use hakutaku.Planner.{
  Progress, PlannedAsset, AssetInfo, AssetChange, ReleasePlan, Release, plan_sources,
  plan_directory, released_of, collect, sum_lens, removed_asset, into_values, sort_by_path,
  insert_by_path, path_le, check_project,
}
use hakutaku.Planner.Sorted.{
  times, times-sort_by_path, times-append, times-into_values, Once, remove-Once, listed, find,
  find-sort_by_path, IsSorted, sort_by_path-IsSorted, find-append, Keyed, removed_of,
  find-into_values, remove-Keyed,
}
use hakutaku.Planner.Loop.{
  IsDone, source_times, find_source, planned, counted, counted_total, HasChange,
  plan_sources-IsDone,
}

abbrev pub source_total : List SourceFile → ℕ
source_total [] = 0
source_total (source ∷ sources) = source.len + source_total sources

sum_lens-total :
    (sources : List SourceFile) (start sum : ℕ)
    → sum_lens sources start ≡ ok sum
    → sum ≡ start + source_total sources
unfolding sum_lens
sum_lens-total [] start sum e = let same = ok_inj start sum e in omega (arith, same)
sum_lens-total (source ∷ sources) start sum e =
    elim (Bool-cases (ltb (start + source.len) u64_mod)) [
      | inl fits ↦
          let rest = sum_lens-total sources (start + source.len) sum (rw fits at e) in
          omega (arith, rest)
      | inr over ↦ absurd (cc (rw over at e))
    ]

counted_total-append :
    (xs ys : List PlannedAsset) → counted_total (xs ++ ys) ≡ counted_total xs + counted_total ys
counted_total-append [] ys = omega arith
counted_total-append (x ∷ xs) ys = omega (arith, counted_total-append xs ys)

counted_total-removed :
    (deferred_prefixes : List Bytes) (assets : List AssetInfo)
    → counted_total (map (removed_asset deferred_prefixes) assets) ≡ 0
unfolding removed_asset
counted_total-removed deferred_prefixes [] = refl
counted_total-removed deferred_prefixes (asset ∷ assets) =
    omega (arith, counted_total-removed deferred_prefixes assets)

counted_total-insert :
    (asset : PlannedAsset) (assets : List PlannedAsset)
    → counted_total (insert_by_path asset assets) ≡ counted asset + counted_total assets
unfolding insert_by_path
counted_total-insert asset [] = refl
counted_total-insert asset (next ∷ assets) = elim (Bool-cases (path_le asset.path next.path)) [
  | inl le ↦ rw le refl
  | inr gt ↦ rw gt (let rest = counted_total-insert asset assets in omega (arith, rest))
]

counted_total-sort :
    (assets : List PlannedAsset) → counted_total (sort_by_path assets) ≡ counted_total assets
unfolding sort_by_path
counted_total-sort [] = refl
counted_total-sort (asset ∷ assets) =
    counted_total-insert asset (sort_by_path assets)
    ∙ ap (λ (n : ℕ). counted asset + n) (counted_total-sort assets)

collect-Keyed :
    (assets : List AssetInfo) (released : List (Bytes × AssetInfo))
    → Keyed released
    → Keyed (collect assets released)
unfolding collect insert
collect-Keyed [] released k = k
collect-Keyed (asset ∷ assets) released k =
    collect-Keyed assets ((asset.path, asset) ∷ remove asset.path released)
      (refl, remove-Keyed asset.path released k)

collect-Once :
    (assets : List AssetInfo) (released : List (Bytes × AssetInfo))
    → Once released
    → Once (collect assets released)
unfolding collect insert
collect-Once [] released o = o
collect-Once (asset ∷ assets) released o =
    collect-Once assets ((asset.path, asset) ∷ remove asset.path released)
      (gone asset.path released, remove-Once asset.path released o)
  where
    gone : (path : Bytes) (m : List (Bytes × AssetInfo)) → lookup path (remove path m) ≡ none
    gone path m = lookup-remove path path m ∙ rw (bytes_eq_refl path) refl

released_of-Once : (opened : Option Release) → Once (released_of opened)
unfolding released_of
released_of-Once none = tt
released_of-Once (some opened) = collect-Once opened.assets [] tt

-- How often a plan lists a path: once for each of its sources, or once if it was only released.
abbrev pub chosen : Option SourceFile → ℕ → Option AssetInfo → ℕ
chosen none count previous = listed previous
chosen (some source) count previous = count

abbrev pub listings : Bytes → List SourceFile → Option AssetInfo → ℕ
listings path sources previous =
    chosen (find_source path sources) (source_times path sources) previous

no_source_times :
    (path : Bytes) (sources : List SourceFile)
    → find_source path sources ≡ none
    → source_times path sources ≡ 0
no_source_times path [] h = refl
no_source_times path (source ∷ sources) h = elim (Bool-cases (bytes_eq source.logical_path path)) [
  | inl same ↦ absurd (cc (rw same at h))
  | inr other ↦
      let rest = no_source_times path sources (rw other at h) in rw other (omega (arith, rest))
]

released_of-Keyed : (opened : Option Release) → Keyed (released_of opened)
unfolding released_of
released_of-Keyed none = tt
released_of-Keyed (some opened) = collect-Keyed opened.assets [] tt

module _ (open_verified : SourceFile → PackResult Bytes)
    (validate_open_file : SourceFile → PackResult (Unit {0}))
    (open_asset : Bytes → PackResult Bytes) (deferred_prefixes : List Bytes) where
  -- A plan in the order of the paths. For the path of a source it has the source, with the change
  -- against what was released there, and nothing else; for any other path it has what was released,
  -- once and as removed. Its totals are those of the sources, and of the sources that were added or modified.
  pub record IsPlan (sources : List SourceFile) (opened : Option Release) (plan : ReleasePlan)
      : Type 0 where
    pub sorted : IsSorted plan.assets
    pub source_planned :
        (path : Bytes) (source : SourceFile)
        → find_source path sources ≡ some source
        → (change : AssetChange) × HasChange open_verified validate_open_file open_asset
            deferred_prefixes
            (lookup path (released_of opened))
            source
            change
          × (find path plan.assets
              ≡ some (planned deferred_prefixes source (lookup path (released_of opened)) change))
    pub others_removed :
        (path : Bytes)
        → find_source path sources ≡ none
        → find path plan.assets ≡ removed_of deferred_prefixes (lookup path (released_of opened))
    pub all_listed :
        (path : Bytes)
        → times path plan.assets ≡ listings path sources (lookup path (released_of opened))
    pub source_bytes_total : plan.source_bytes ≡ source_total sources
    pub changed_total : plan.changed_source_bytes ≡ counted_total plan.assets

  -- How often the sorted plan of a finished loop lists a path.
  times_done :
      (path : Bytes) (sources : List SourceFile) (opened : Option Release) (last : Progress)
      → IsDone open_verified validate_open_file open_asset deferred_prefixes sources
          (released_of opened)
          0
          last
      → times path (
          sort_by_path
            (last.assets ++ map (removed_asset deferred_prefixes) (into_values last.released)))
        ≡ listings path sources (lookup path (released_of opened))
  times_done path sources opened last done =
      times-sort_by_path path _
      ∙ times-append path last.assets _
      ∙ ap₂ (λ (n m : ℕ). n + m) (done.times_planned path)
          (times-into_values deferred_prefixes path last.released
            (done.keyed (released_of-Keyed opened)) (done.once (released_of-Once opened)))
      ∙ elim (Option-cases (find_source path sources)) [
        | inl no_more ↦
            let nothing = no_source_times path sources no_more in
            let kept = ap listed (done.still_released path no_more) in
            omega (arith, nothing, kept)
            ∙ sym (
                ap (λ o. chosen o (source_times path sources) (lookup path (released_of opened)))
                  no_more)
        | inr (source, found) ↦
            let gone = ap listed (done.no_longer_released path source found) in
            omega (arith, gone)
            ∙ sym (
                ap (λ o. chosen o (source_times path sources) (lookup path (released_of opened)))
                  found)
      ]

  -- A plan that `plan_directory` returns is sorted by path. For the path of a source it has the first
  -- such source, with the change that the comparison with the released asset gave, and as many
  -- entries as there are such sources; for any other path it has the released asset, once and as
  -- removed, or nothing. Its totals are the lengths of all sources, and of those that were added or
  -- modified.
  pub plan_directory-IsPlan :
      (project_id : Bytes) (sources : List SourceFile) (opened : Option Release)
      (plan : ReleasePlan)
      → plan_directory open_verified validate_open_file open_asset deferred_prefixes project_id
          sources opened
        ≡ ok plan
      → IsPlan sources opened plan
  unfolding plan_directory
  plan_directory-IsPlan project_id sources opened plan e =
      let (sum, e1, r1) = >>=-eq-ok (sum_lens sources 0) _ e in
      let (d, e2, r2) = >>=-eq-ok (check_project project_id opened) _ r1 in
      let (last, e3, r3) =
        >>=-eq-ok
          (plan_sources open_verified validate_open_file open_asset deferred_prefixes sources
            (released_of opened) 0)
          _ r2 in
      let done =
        plan_sources-IsDone open_verified validate_open_file open_asset deferred_prefixes sources
          (released_of opened) 0 last e3 in
      let gone = map (removed_asset deferred_prefixes) (into_values last.released) in
      let all = last.assets ++ gone in
      subst (IsPlan sources opened) (ok_inj _ plan r3) (record {
        sorted = sort_by_path-IsSorted all;
        source_planned = λ path source h.
            let (change, has, at) = done.source_planned path source h in
            (
              change,
              has,
              find-sort_by_path path all ∙ find-append path last.assets gone ∙ rw at refl,
            );
        others_removed = λ path h.
            find-sort_by_path path all
            ∙ find-append path last.assets gone
            ∙ rw (done.no_source path h) (
                find-into_values deferred_prefixes path last.released
                  (done.keyed (released_of-Keyed opened))
                ∙ ap (removed_of deferred_prefixes) (done.still_released path h));
        all_listed = λ path. times_done path sources opened last done;
        source_bytes_total = sum_lens-total sources 0 sum e1 ∙ omega arith;
        changed_total =
            done.counted_up
            ∙ sym (
                counted_total-sort all
                ∙ counted_total-append last.assets gone
                ∙ omega
                    (arith, counted_total-removed deferred_prefixes (into_values last.released)));
      })
