-- ===== src/Planner.antt =====
-- crates/pack/src/planner.rs: the preview of a build, which compares the sources with the released
-- assets. What it opens and reads is handed in: the inventories, and for each file the bytes that its
-- reader yields. A `BTreeMap` is an association list, since the plan is sorted afterwards.
pub mod Compare
pub mod Sorted
pub mod Loop
pub mod Plan
pub mod AfterPack
mod Tests
use hakutaku.Prelude.{
  ℕ, zero, suc, ◌+◌, ◌-◌, ◌^◌, Bool, true, false, ◌&&◌, ◌||◌, Option, none, some, List, [], ◌∷◌,
  ◌++◌, map, length, take, drop, ltb, leb, ◌==◌, if◌then◌else◌, min,
}
use hakutaku.Prelude.Keys.{lookup, insert, remove}
use hakutaku.Wire.{Bytes, bytes_eq, u64_mod, unexpected_eof, project_mismatch}
use hakutaku.Format.Enums.{AccessClass, access_code, Availability, required, deferred}
use hakutaku.Paths.{any, starts_with}
use hakutaku.PackErrors.{PackResult, ok, err, io, core, invalid_input, ◌>>=◌, ◌>>◌, guard}
use hakutaku.BuildCache.{path_keys}
use hakutaku.Source.{SourceFile, SourceClass, classify}

abbrev pub compare_buffer_bytes : ℕ
compare_buffer_bytes = 1048576

pub data AssetChange : Type 0 where
  added modified unchanged removed : AssetChange

pub record AssetInfo : Type 0 where
  pub path : Bytes
  pub len : ℕ
  pub access : AccessClass

pub record PlannedAsset : Type 0 where
  pub path : Bytes
  pub source_len : Option ℕ
  pub released_len : Option ℕ
  pub access : AccessClass
  pub availability : Availability
  pub change : AssetChange

pub record ReleasePlan : Type 0 where
  pub previous_release : Option ℕ
  pub assets : List PlannedAsset
  pub source_bytes : ℕ
  pub changed_source_bytes : ℕ

-- The package that was opened: its project, its sequence, and its assets.
pub record Release : Type 0 where
  pub project_id : Bytes
  pub release_sequence : ℕ
  pub assets : List AssetInfo

-- `str::strip_prefix`
unfoldable pub strip_prefix : Bytes → Bytes → Option Bytes
strip_prefix [] path = some path
strip_prefix (x ∷ prefix) [] = none
strip_prefix (x ∷ prefix) (y ∷ path) =
    let rest = strip_prefix prefix path in if x == y then rest else none

unfoldable pub is_below : Option Bytes → Bool
unfolding starts_with
is_below none = false
is_below (some suffix) = starts_with b'/' suffix

-- `PackOptions::availability`
unfoldable pub availability : List Bytes → Bytes → Availability
unfolding any bytes_eq strip_prefix is_below
availability deferred_prefixes path =
    if any (λ prefix. bytes_eq path prefix || is_below (strip_prefix prefix path)) deferred_prefixes
    then deferred
    else required

-- `read_exact` from a reader that has these bytes left
unfoldable pub read_exact : ℕ → Bytes → PackResult (Bytes × Bytes)
read_exact n bytes =
    if leb n (length bytes) then ok (take n bytes, drop n bytes) else err (io unexpected_eof)

-- The loop of `asset_matches_source`: the fuel bounds the rounds, the next numbers are the length of
-- the buffers and what remains, then what the two readers have left.
unfoldable pub compare : ℕ → ℕ → ℕ → Bytes → Bytes → PackResult Bool
unfolding read_exact bytes_eq
compare zero buffer remaining source released = ok true
compare (suc rounds) buffer remaining source released = if remaining == 0 then ok true else do
  let chunk = min remaining buffer
  front ← read_exact chunk source
  back ← read_exact chunk released
  let rest = compare rounds buffer (remaining - chunk) front.1 back.1
  if bytes_eq front.0 back.0 then rest else ok false

unfoldable pub counts : AssetChange → Bool
counts added = true
counts modified = true
counts unchanged = false
counts removed = false

unfoldable pub add_changed : AssetChange → ℕ → ℕ → PackResult ℕ
unfolding counts
add_changed change total len =
    if counts change
    then if ltb (total + len) u64_mod
      then ok (total + len)
      else err (invalid_input "changed size overflow")
    else ok total

unfoldable pub released_len_of : Option AssetInfo → Option ℕ
released_len_of none = none
released_len_of (some asset) = some asset.len

-- What the loop over the sources carries on.
pub record Progress : Type 0 where
  pub assets : List PlannedAsset
  pub released : List (Bytes × AssetInfo)
  pub changed_source_bytes : ℕ

module _ (open_verified : SourceFile → PackResult Bytes)
    (validate_open_file : SourceFile → PackResult (Unit {0}))
    (open_asset : Bytes → PackResult Bytes) where
  unfoldable pub asset_matches_source : SourceFile → PackResult Bool
  unfolding compare
  asset_matches_source source = do
    source_file ← open_verified source
    released ← open_asset source.logical_path
    same ← compare source.len compare_buffer_bytes source.len source_file released
    let finish = do validate_open_file source; ok true
    if same then finish else ok false

  -- `package` is `Some` where there is a previous asset, which was listed from it.
  unfoldable pub change_of : Option AssetInfo → SourceFile → PackResult AssetChange
  unfolding asset_matches_source
  change_of none source = ok added
  change_of (some previous) source =
      let compared =
        asset_matches_source source >>= λ same. ok (if same then unchanged else modified) in
      if previous.len == source.len then compared else ok modified

  unfoldable pub plan_source :
      List Bytes → SourceFile → List (Bytes × AssetInfo) → ℕ → PackResult (PlannedAsset × ℕ)
  unfolding change_of add_changed availability classify released_len_of
  plan_source deferred_prefixes source released changed_source_bytes = do
    let previous = lookup source.logical_path released
    change ← change_of previous source
    total ← add_changed change changed_source_bytes source.len
    ok (
      record {
        path = source.logical_path;
        source_len = some source.len;
        released_len = released_len_of previous;
        access = (classify source).access;
        availability = availability deferred_prefixes source.logical_path;
        change = change;
      },
      total,
    )

  unfoldable pub plan_sources :
      List Bytes → List SourceFile → List (Bytes × AssetInfo) → ℕ → PackResult Progress
  unfolding plan_source
  plan_sources deferred_prefixes [] released changed_source_bytes =
      ok record { assets = []; released = released; changed_source_bytes = changed_source_bytes }
  plan_sources deferred_prefixes (source ∷ sources) released changed_source_bytes = do
    planned ← plan_source deferred_prefixes source released changed_source_bytes
    rest ← plan_sources deferred_prefixes sources (remove source.logical_path released) planned.1
    ok (record rest { assets = planned.0 ∷ rest.assets })

-- `left.path.cmp(&right.path)` is not `Greater`.
unfoldable pub path_le : Bytes → Bytes → Bool
path_le [] ys = true
path_le (x ∷ xs) [] = false
path_le (x ∷ xs) (y ∷ ys) = let rest = path_le xs ys in if x == y then rest else ltb x y

unfoldable pub insert_by_path : PlannedAsset → List PlannedAsset → List PlannedAsset
unfolding path_le
insert_by_path asset [] = asset ∷ []
insert_by_path asset (next ∷ assets) =
    let rest = insert_by_path asset assets in
    if path_le asset.path next.path then asset ∷ next ∷ assets else next ∷ rest

-- `sort_by`, which is stable
unfoldable pub sort_by_path : List PlannedAsset → List PlannedAsset
unfolding insert_by_path
sort_by_path [] = []
sort_by_path (asset ∷ assets) = insert_by_path asset (sort_by_path assets)

unfoldable pub sum_lens : List SourceFile → ℕ → PackResult ℕ
sum_lens [] total = ok total
sum_lens (source ∷ sources) total =
    let rest = sum_lens sources (total + source.len) in
    if ltb (total + source.len) u64_mod then rest else err (invalid_input "input size overflow")

-- The collection of the assets into a map.
unfoldable pub collect : List AssetInfo → List (Bytes × AssetInfo) → List (Bytes × AssetInfo)
collect [] released = released
collect (asset ∷ assets) released = collect assets (insert asset.path asset released)

unfoldable pub released_of : Option Release → List (Bytes × AssetInfo)
unfolding collect
released_of none = []
released_of (some opened) = collect opened.assets []

unfoldable pub sequence_of : Option Release → Option ℕ
sequence_of none = none
sequence_of (some opened) = some opened.release_sequence

unfoldable pub check_project : Bytes → Option Release → PackResult (Unit {0})
unfolding bytes_eq
check_project project_id none = ok tt
check_project project_id (some opened) =
    guard (bytes_eq opened.project_id project_id) (core project_mismatch)

unfoldable pub removed_asset : List Bytes → AssetInfo → PlannedAsset
unfolding availability
removed_asset deferred_prefixes asset = record {
  path = asset.path;
  source_len = none;
  released_len = some asset.len;
  access = asset.access;
  availability = availability deferred_prefixes asset.path;
  change = removed;
}

unfoldable pub into_values : List (Bytes × AssetInfo) → List AssetInfo
into_values [] = []
into_values ((path, asset) ∷ released) = asset ∷ into_values released

unfoldable pub plan_directory :
    (SourceFile → PackResult Bytes)
    → (SourceFile → PackResult (Unit {0}))
    → (Bytes → PackResult Bytes)
    → List Bytes
    → Bytes
    → List SourceFile
    → Option Release
    → PackResult ReleasePlan
unfolding plan_sources sort_by_path sum_lens released_of sequence_of check_project removed_asset
    into_values
plan_directory open_verified validate_open_file open_asset deferred_prefixes project_id sources
      opened =
    do
      source_bytes ← sum_lens sources 0
      check_project project_id opened
      last ←
          plan_sources open_verified validate_open_file open_asset deferred_prefixes sources
            (released_of opened) 0
      ok record {
        previous_release = sequence_of opened;
        assets =
            sort_by_path
              (last.assets ++ map (removed_asset deferred_prefixes) (into_values last.released));
        source_bytes = source_bytes;
        changed_source_bytes = last.changed_source_bytes;
      }

unfoldable pub previous_of : Option AssetInfo → PackResult AssetInfo
previous_of none = err (invalid_input "built release is missing source asset")
previous_of (some asset) = ok asset

-- The loop of `plan_directory_after_pack`.
unfoldable pub check_sources :
    List Bytes
    → List SourceFile
    → List (Bytes × AssetInfo)
    → PackResult (List PlannedAsset × List (Bytes × AssetInfo))
unfolding classify availability previous_of
check_sources deferred_prefixes [] released = ok ([], released)
check_sources deferred_prefixes (source ∷ sources) released = do
  previous ← previous_of (lookup source.logical_path released)
  let access = (classify source).access
  guard (previous.len == source.len && access_code previous.access == access_code access)
      (invalid_input "source changed after pack")
  rest ← check_sources deferred_prefixes sources (remove source.logical_path released)
  ok (
    record {
      path = source.logical_path;
      source_len = some source.len;
      released_len = some previous.len;
      access = access;
      availability = availability deferred_prefixes source.logical_path;
      change = unchanged;
    }
        ∷ rest.0,
    rest.1,
  )

unfoldable pub none_stale : List AssetInfo → PackResult (Unit {0})
none_stale [] = ok tt
none_stale (asset ∷ assets) = err (invalid_input "built release contains stale asset")

-- The texts of its errors end in the path, which is left out.
unfoldable pub plan_directory_after_pack :
    List Bytes → Bytes → List SourceFile → Release → PackResult ReleasePlan
unfolding check_sources none_stale sum_lens check_project collect into_values
plan_directory_after_pack deferred_prefixes project_id sources opened = do
  source_bytes ← sum_lens sources 0
  check_project project_id (some opened)
  last ← check_sources deferred_prefixes sources (collect opened.assets [])
  none_stale (into_values last.1)
  ok record {
    previous_release = some opened.release_sequence;
    assets = last.0;
    source_bytes = source_bytes;
    changed_source_bytes = 0;
  }
