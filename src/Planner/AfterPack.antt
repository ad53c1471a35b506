-- ===== src/Planner/AfterPack.antt =====
-- The plan right after a build: every source was released as it is, and nothing else was.
use hakutaku.Prelude.{
  ◌≡◌, refl, sym, ap, ◌∙◌, true, false, ◌&&◌, none, some, Option, List, [], ◌∷◌, arith, ◌==◌,
  Bool-cases, inl, inr,
}
use mathlib.Core.Path.{subst}
use hakutaku.Prelude.Keys.{lookup, remove, lookup-remove}
use hakutaku.Wire.{Bytes, bytes_eq}
use hakutaku.Wire.Inverse.{bytes_eq-eq}
use hakutaku.Format.Enums.{access_code}
use hakutaku.PackErrors.{ok, guard, invalid_input, >>=-eq-ok, guard-eq-ok, ok_inj}
use hakutaku.BuildCache.{path_keys}
use hakutaku.Source.{SourceFile, classify}
use hakutaku.Planner.{
  PlannedAsset, AssetInfo, unchanged, ReleasePlan, Release, check_sources, previous_of, none_stale,
  into_values, plan_directory_after_pack, collect, sum_lens, check_project, released_len_of,
}
use hakutaku.Planner.Sorted.{find}
use hakutaku.Planner.Loop.{find_source, planned}

-- A source that was released with its length, and is planned as unchanged.
abbrev pub IsReleased : List Bytes → Option AssetInfo → SourceFile → Option PlannedAsset → Type 0
IsReleased deferred_prefixes previous source entry =
    (asset : AssetInfo) × (previous ≡ some asset)
    × (asset.len ≡ source.len)
    × (entry ≡ some (planned deferred_prefixes source (some asset) unchanged))

abbrev pub IsCurrent :
    List Bytes
    → List SourceFile
    → List (Bytes × AssetInfo)
    → List PlannedAsset × List (Bytes × AssetInfo)
    → Bytes
    → Type 0
IsCurrent deferred_prefixes sources released last path =
    ((source : SourceFile)
      → find_source path sources ≡ some source
      → IsReleased deferred_prefixes (lookup path released) source (find path last.0))
    × (find_source path sources ≡ none → lookup path last.1 ≡ lookup path released)

some_inj : {A : Type 0} (a b : A) → some a ≡ some b → a ≡ b
some_inj a b e = cc

module _ (deferred_prefixes : List Bytes) (source : SourceFile) (sources : List SourceFile)
    (released : List (Bytes × AssetInfo)) (asset : AssetInfo)
    (was : lookup source.logical_path released ≡ some asset) (same_len : asset.len ≡ source.len)
    (rest : List PlannedAsset × List (Bytes × AssetInfo)) (path : Bytes)
    (tail : IsCurrent deferred_prefixes sources
      (remove source.logical_path released)
      rest
      path) where
  abbrev last : List PlannedAsset × List (Bytes × AssetInfo)
  last = (planned deferred_prefixes source (some asset) unchanged ∷ rest.0, rest.1)

  IsCurrent-here :
      bytes_eq source.logical_path path ≡ true
      → IsCurrent deferred_prefixes (source ∷ sources) released last path
  IsCurrent-here same =
      let e = bytes_eq-eq source.logical_path path same in
      (
        λ s h.
            let f : source ≡ s = some_inj source s (rw same at h) in
            rw (← f) (asset, (ap (λ p. lookup p released) (sym e) ∙ was), same_len, rw same refl),
        λ h. absurd (cc (rw same at h)),
      )

  IsCurrent-further :
      bytes_eq source.logical_path path ≡ false
      → IsCurrent deferred_prefixes (source ∷ sources) released last path
  IsCurrent-further other =
      let kept : lookup path (remove source.logical_path released) ≡ lookup path released =
        lookup-remove source.logical_path path released ∙ rw other refl in
      (λ s h. rw (other, ← kept) (tail.0 s (rw other at h)), λ h. tail.1 (rw other at h) ∙ kept)

  IsCurrent-cons : IsCurrent deferred_prefixes (source ∷ sources) released last path
  IsCurrent-cons = elim (Bool-cases (bytes_eq source.logical_path path)) [
    | inl same ↦ IsCurrent-here same
    | inr other ↦ IsCurrent-further other
  ]

found_lem : (o : Option AssetInfo) (asset : AssetInfo) → previous_of o ≡ ok asset → o ≡ some asset
unfolding previous_of
found_lem none asset e = absurd (cc)
found_lem (some a) asset e = cc

pub check_sources-IsCurrent :
    (deferred_prefixes : List Bytes) (sources : List SourceFile)
    (released : List (Bytes × AssetInfo)) (last : List PlannedAsset × List (Bytes × AssetInfo))
    → check_sources deferred_prefixes sources released ≡ ok last
    → (path : Bytes) → IsCurrent deferred_prefixes sources released last path
unfolding check_sources released_len_of
check_sources-IsCurrent deferred_prefixes [] released last e path = (
  λ source h. absurd (cc),
  λ h.
      ap (λ (l : List PlannedAsset × List (Bytes × AssetInfo)). lookup path l.1)
        (sym (ok_inj _ last e)),
)
check_sources-IsCurrent deferred_prefixes (source ∷ sources) released last e path =
    let (asset, e1, r1) = >>=-eq-ok (previous_of (lookup source.logical_path released)) _ e in
    let test =
      (asset.len == source.len
        && access_code asset.access == access_code (classify source).access) in
    let (d, e2, r2) = >>=-eq-ok (guard test (invalid_input "source changed after pack")) _ r1 in
    let (rest, e3, r3) =
      >>=-eq-ok (check_sources deferred_prefixes sources (remove source.logical_path released)) _
        r2 in
    let holds = guard-eq-ok test (invalid_input "source changed after pack") e2 in
    let same_len : asset.len ≡ source.len = ground (arith, holds) in
    subst (λ l. IsCurrent deferred_prefixes (source ∷ sources) released l path) (ok_inj _ last r3)
      (IsCurrent-cons deferred_prefixes source sources released asset
        (found_lem (lookup source.logical_path released) asset e1) same_len rest path
        (check_sources-IsCurrent deferred_prefixes sources (remove source.logical_path released)
          rest e3 path))

none_stale-empty :
    (released : List (Bytes × AssetInfo))
    → none_stale (into_values released) ≡ ok tt
    → released ≡ []
unfolding none_stale into_values
none_stale-empty [] e = refl
none_stale-empty ((key, asset) ∷ released) e = absurd (cc)

-- In a plan that `plan_directory_after_pack` returns, every source was released with its length and is
-- unchanged, and what has no source was not released.
pub plan_directory_after_pack-IsCurrent :
    (deferred_prefixes : List Bytes) (project_id : Bytes) (sources : List SourceFile)
    (opened : Release) (plan : ReleasePlan)
    → plan_directory_after_pack deferred_prefixes project_id sources opened ≡ ok plan
    → (path : Bytes)
    → IsCurrent deferred_prefixes sources (collect opened.assets []) (plan.assets, []) path
unfolding plan_directory_after_pack
plan_directory_after_pack-IsCurrent deferred_prefixes project_id sources opened plan e path =
    let (sum, e1, r1) = >>=-eq-ok (sum_lens sources 0) _ e in
    let (d, e2, r2) = >>=-eq-ok (check_project project_id (some opened)) _ r1 in
    let (last, e3, r3) =
      >>=-eq-ok (check_sources deferred_prefixes sources (collect opened.assets [])) _ r2 in
    let (d', e4, r4) = >>=-eq-ok (none_stale (into_values last.1)) _ r3 in
    let current =
      check_sources-IsCurrent deferred_prefixes sources (collect opened.assets []) last e3 path in
    let listed = ap (λ (p : ReleasePlan). p.assets) (ok_inj _ plan r4) in
    let nothing = none_stale-empty last.1 e4 in
    (
      λ source h. rw (← listed) (current.0 source h),
      λ h. ap (λ l. lookup path l) (sym nothing) ∙ current.1 h,
    )
