-- ===== src/Planner/Sorted.antt =====
-- The order of a plan: it is sorted by path, and the sort keeps the first asset of every path.
use hakutaku.Prelude.{
  ℕ, ◌+◌, ◌≡◌, refl, sym, ap, ◌∙◌, true, false, none, some, Option, List, [], ◌∷◌, ◌++◌, map, arith,
  if◌then◌else◌, Bool-cases, inl, inr,
}
use hakutaku.Prelude.Keys.{lookup, remove, lookup-remove}
use hakutaku.Wire.{Bytes, bytes_eq}
use hakutaku.Wire.Inverse.{bytes_eq-eq, bytes_eq_refl}
use hakutaku.BuildCache.{path_keys}
use hakutaku.Planner.{
  PlannedAsset, AssetInfo, path_le, insert_by_path, sort_by_path, removed_asset, into_values,
}

-- The first asset of a path.
abbrev pub find : Bytes → List PlannedAsset → Option PlannedAsset
find path [] = none
find path (asset ∷ assets) = if bytes_eq asset.path path then some asset else find path assets

path_le_refl : (xs : Bytes) → path_le xs xs ≡ true
unfolding path_le
path_le_refl [] = refl
path_le_refl (x ∷ xs) = ground (arith, path_le_refl xs)

path_le_total : (xs ys : Bytes) → path_le xs ys ≡ false → path_le ys xs ≡ true
unfolding path_le
path_le_total [] ys h = absurd (cc)
path_le_total (x ∷ xs) [] h = refl
path_le_total (x ∷ xs) (y ∷ ys) h = ground (arith, path_le_total xs ys)

-- An asset that goes behind another has another path.
behind_ne : (a b : Bytes) → path_le a b ≡ false → bytes_eq b a ≡ false
behind_ne a b h = elim (Bool-cases (bytes_eq b a)) [
  | inl same ↦
      let e = bytes_eq-eq b a same in absurd (cc (ap (λ l. path_le l b) (sym e) ∙ path_le_refl b))
  | inr other ↦ other
]

find-insert_by_path :
    (path : Bytes) (asset : PlannedAsset) (assets : List PlannedAsset)
    → find path (insert_by_path asset assets)
      ≡ (if bytes_eq asset.path path then some asset else find path assets)
unfolding insert_by_path
find-insert_by_path path asset [] = refl
find-insert_by_path path asset (next ∷ assets) = elim (Bool-cases (path_le asset.path next.path)) [
  | inl le ↦ rw le refl
  | inr gt ↦
      let rest = find-insert_by_path path asset assets in
      rw gt (elim (Bool-cases (bytes_eq next.path path)) [
        | inl same ↦
            let e = bytes_eq-eq next.path path same in
            let other : bytes_eq asset.path path ≡ false = apart asset.path next.path path gt e in
            rw (same, other) refl
        | inr other ↦ rw (other, rest) refl
      ])
]
  where
    apart : (a b p : Bytes) → path_le a b ≡ false → b ≡ p → bytes_eq a p ≡ false
    apart a b p gt e = elim (Bool-cases (bytes_eq a p)) [
      | inl same ↦
          let f = bytes_eq-eq a p same in absurd (cc (gt, behind_ne a b gt, bytes_eq_refl p, e, f))
      | inr other ↦ other
    ]

pub find-sort_by_path :
    (path : Bytes) (assets : List PlannedAsset) → find path (sort_by_path assets) ≡ find path assets
unfolding sort_by_path
find-sort_by_path path [] = refl
find-sort_by_path path (asset ∷ assets) =
    find-insert_by_path path asset (sort_by_path assets) ∙ rw (find-sort_by_path path assets) refl

-- No asset stands before one with a smaller path.
abbrev pub IsSorted : List PlannedAsset → Type 0
IsSorted [] = Unit {0}
IsSorted (a ∷ []) = Unit {0}
IsSorted (a ∷ b ∷ assets) = (path_le a.path b.path ≡ true) × IsSorted (b ∷ assets)

insert_by_path-IsSorted :
    (asset : PlannedAsset) (assets : List PlannedAsset)
    → IsSorted assets
    → IsSorted (insert_by_path asset assets)
unfolding insert_by_path
insert_by_path-IsSorted asset [] h = tt
insert_by_path-IsSorted asset (a ∷ []) h = elim (Bool-cases (path_le asset.path a.path)) [
  | inl le ↦ rw le (le, tt)
  | inr gt ↦ rw gt (path_le_total asset.path a.path gt, tt)
]
insert_by_path-IsSorted asset (a ∷ b ∷ assets) (ab, h) =
    elim (Bool-cases (path_le asset.path a.path)) [
      | inl le ↦ rw le (le, (ab, h))
      | inr gt ↦
          let rest = insert_by_path-IsSorted asset (b ∷ assets) h in
          elim (Bool-cases (path_le asset.path b.path)) [
            | inl le ↦ rw (gt, le) (path_le_total asset.path a.path gt, rw le at rest)
            | inr gt' ↦ rw (gt, gt') (ab, rw gt' at rest)
          ]
    ]

pub sort_by_path-IsSorted : (assets : List PlannedAsset) → IsSorted (sort_by_path assets)
unfolding sort_by_path
sort_by_path-IsSorted [] = tt
sort_by_path-IsSorted (asset ∷ assets) =
    insert_by_path-IsSorted asset (sort_by_path assets) (sort_by_path-IsSorted assets)

pub find-append :
    (path : Bytes) (xs ys : List PlannedAsset)
    → find path (xs ++ ys) ≡ elim (find path xs) [ none ↦ find path ys | some asset ↦ some asset ]
find-append path [] ys = refl
find-append path (x ∷ xs) ys = elim (Bool-cases (bytes_eq x.path path)) [
  | inl same ↦ rw same refl
  | inr other ↦ rw other (find-append path xs ys)
]

-- A map whose assets stand under their paths.
abbrev pub Keyed : List (Bytes × AssetInfo) → Type 0
Keyed [] = Unit {0}
Keyed ((path, asset) ∷ released) = (path ≡ asset.path) × Keyed released

abbrev pub removed_of : List Bytes → Option AssetInfo → Option PlannedAsset
removed_of deferred_prefixes none = none
removed_of deferred_prefixes (some asset) = some (removed_asset deferred_prefixes asset)

pub find-into_values :
    (deferred_prefixes : List Bytes) (path : Bytes) (released : List (Bytes × AssetInfo))
    → Keyed released
    → find path (map (removed_asset deferred_prefixes) (into_values released))
      ≡ removed_of deferred_prefixes (lookup path released)
unfolding into_values lookup removed_asset
find-into_values deferred_prefixes path [] k = refl
find-into_values deferred_prefixes path ((key, asset) ∷ released) (e, k) =
    elim (Bool-cases (bytes_eq key path)) [
      | inl same ↦ rw (← e, same) refl
      | inr other ↦ rw (← e, other) (find-into_values deferred_prefixes path released k)
    ]

pub remove-Keyed :
    (path : Bytes) (released : List (Bytes × AssetInfo))
    → Keyed released
    → Keyed (remove path released)
unfolding remove
remove-Keyed path [] k = tt
remove-Keyed path ((key, asset) ∷ released) (e, k) =
    let rest = remove-Keyed path released k in
    elim (Bool-cases (bytes_eq key path)) [
      | inl same ↦ rw same rest
      | inr other ↦ rw other (e, rest)
    ]

-- How often a path is listed.
abbrev pub times : Bytes → List PlannedAsset → ℕ
times path [] = 0
times path (asset ∷ assets) = (if bytes_eq asset.path path then 1 else 0) + times path assets

times-insert_by_path :
    (path : Bytes) (asset : PlannedAsset) (assets : List PlannedAsset)
    → times path (insert_by_path asset assets) ≡ times path (asset ∷ assets)
unfolding insert_by_path
times-insert_by_path path asset [] = refl
times-insert_by_path path asset (next ∷ assets) =
    let rest = times-insert_by_path path asset assets in
    elim (Bool-cases (path_le asset.path next.path)) [
      | inl le ↦ rw le refl
      | inr gt ↦ rw gt (omega (arith, rest))
    ]

pub times-sort_by_path :
    (path : Bytes) (assets : List PlannedAsset)
    → times path (sort_by_path assets) ≡ times path assets
unfolding sort_by_path
times-sort_by_path path [] = refl
times-sort_by_path path (asset ∷ assets) =
    times-insert_by_path path asset (sort_by_path assets)
    ∙ ap (λ (n : ℕ). (if bytes_eq asset.path path then 1 else 0) + n)
        (times-sort_by_path path assets)

pub times-append :
    (path : Bytes) (xs ys : List PlannedAsset)
    → times path (xs ++ ys) ≡ times path xs + times path ys
times-append path [] ys = omega arith
times-append path (x ∷ xs) ys = omega (arith, times-append path xs ys)

-- A map with every key once.
abbrev pub Once : List (Bytes × AssetInfo) → Type 0
Once [] = Unit {0}
Once ((path, asset) ∷ released) = (lookup path released ≡ none) × Once released

pub remove-Once :
    (path : Bytes) (released : List (Bytes × AssetInfo))
    → Once released
    → Once (remove path released)
unfolding remove
remove-Once path [] o = tt
remove-Once path ((key, asset) ∷ released) (fresh, o) =
    let rest = remove-Once path released o in
    elim (Bool-cases (bytes_eq key path)) [
      | inl same ↦ rw same rest
      | inr other ↦ rw other (still key path released fresh, rest)
    ]
  where
    still :
        (key path : Bytes) (released : List (Bytes × AssetInfo))
        → lookup key released ≡ none
        → lookup key (remove path released) ≡ none
    still key path released fresh = elim (Bool-cases (bytes_eq path key)) [
      | inl same ↦ lookup-remove path key released ∙ rw same refl
      | inr other ↦ lookup-remove path key released ∙ rw other fresh
    ]

abbrev pub listed : Option AssetInfo → ℕ
listed none = 0
listed (some asset) = 1

pub times-into_values :
    (deferred_prefixes : List Bytes) (path : Bytes) (released : List (Bytes × AssetInfo))
    → Keyed released
    → Once released
    → times path (map (removed_asset deferred_prefixes) (into_values released))
      ≡ listed (lookup path released)
unfolding into_values lookup removed_asset
times-into_values deferred_prefixes path [] k o = refl
times-into_values deferred_prefixes path ((key, asset) ∷ released) (e, k) (fresh, o) =
    let rest = times-into_values deferred_prefixes path released k o in
    elim (Bool-cases (bytes_eq key path)) [
      | inl same ↦
          let gone : lookup path released ≡ none =
            ap (λ l. lookup l released) (sym (bytes_eq-eq key path same)) ∙ fresh in
          rw (← e, same, rest, gone) refl
      | inr other ↦ rw (← e, other, rest) (omega arith)
    ]
