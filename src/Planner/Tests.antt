-- ===== src/Planner/Tests.antt =====
-- A plan of three sources against a release of three assets.
use hakutaku.Prelude.{◌≡◌, refl, none, some, List, [], ◌∷◌, ◌++◌, if◌then◌else◌}
use hakutaku.Prelude.Keys.{lookup, insert, remove}
use hakutaku.Wire.{Bytes, bytes_eq}
use hakutaku.Format.Enums.{hot, required, deferred, access_code}
use hakutaku.PackErrors.{PackResult, ok}
use hakutaku.Source.{
  SourceFile, classify, extension_of, is_audio, is_video, is_compressed, hot_block_len,
}
use hakutaku.Planner.{
  AssetInfo, PlannedAsset, Release, ReleasePlan, added, modified, unchanged, removed,
  plan_directory, plan_sources, plan_source, change_of, asset_matches_source, compare, read_exact,
  add_changed, counts, availability, strip_prefix, is_below, released_len_of, released_of, collect,
  sequence_of, check_project, sum_lens, sort_by_path, insert_by_path, path_le, removed_asset,
  into_values, plan_directory_after_pack, check_sources, previous_of, none_stale,
}
use hakutaku.Planner.Compare.{asset_matches_source-eq}
use hakutaku.Planner.AfterPack.{IsCurrent, plan_directory_after_pack-IsCurrent}
use hakutaku.Planner.Plan.{IsPlan, plan_directory-IsPlan}

abbrev a_source : Bytes → SourceFile
a_source path = record {
  host_path = path;
  logical_path = path;
  len = 2;
  stamp = record { len = 2; modified = none; device = 1; inode = 2 };
}

-- Each source has its own name as its content, and a zero.
abbrev open_source : SourceFile → PackResult Bytes
open_source source = ok (source.logical_path ++ (0 ∷ []))

abbrev never_changes : SourceFile → PackResult (Unit {0})
never_changes source = ok tt

-- What was released as "b" has another content.
abbrev open_released : Bytes → PackResult Bytes
open_released path = if bytes_eq path (98 ∷ []) then ok (98 ∷ 1 ∷ []) else ok (path ++ (0 ∷ []))

abbrev an_asset : Bytes → AssetInfo
an_asset path = record { path = path; len = 2; access = hot }

abbrev a_release : Release
a_release = record {
  project_id = 9 ∷ [];
  release_sequence = 4;
  assets = an_asset (97 ∷ []) ∷ an_asset (98 ∷ []) ∷ an_asset (99 ∷ []) ∷ [];
}

abbrev three_sources : List SourceFile
three_sources = a_source (97 ∷ []) ∷ a_source (98 ∷ []) ∷ a_source (100 ∷ []) ∷ []

abbrev a_plan : ReleasePlan
a_plan = record {
  previous_release = some 4;
  assets =
      record {
        path = 97 ∷ [];
        source_len = some 2;
        released_len = some 2;
        access = hot;
        availability = required;
        change = unchanged;
      }
      ∷ record {
        path = 98 ∷ [];
        source_len = some 2;
        released_len = some 2;
        access = hot;
        availability = required;
        change = modified;
      }
      ∷ record {
        path = 99 ∷ [];
        source_len = none;
        released_len = some 2;
        access = hot;
        availability = required;
        change = removed;
      }
      ∷ record {
        path = 100 ∷ [];
        source_len = some 2;
        released_len = none;
        access = hot;
        availability = deferred;
        change = added;
      }
      ∷ [];
  source_bytes = 6;
  changed_source_bytes = 4;
}

a_plan_is_made :
    plan_directory open_source never_changes open_released
      ((100 ∷ []) ∷ [])
      (9 ∷ [])
      three_sources
      (some a_release)
    ≡ ok a_plan
unfolding plan_directory plan_sources plan_source change_of asset_matches_source compare read_exact
    add_changed counts availability strip_prefix is_below released_len_of released_of collect
    sequence_of check_project sum_lens sort_by_path insert_by_path path_le removed_asset into_values
    classify extension_of is_audio is_video is_compressed hot_block_len lookup insert remove
    bytes_eq
a_plan_is_made = refl

plan_directory-IsPlan_example :
    IsPlan open_source never_changes open_released
      ((100 ∷ []) ∷ [])
      three_sources
      (some a_release)
      a_plan
plan_directory-IsPlan_example =
    plan_directory-IsPlan open_source never_changes open_released ((100 ∷ []) ∷ []) (9 ∷ [])
      three_sources (some a_release) a_plan a_plan_is_made

open_b : open_released (98 ∷ []) ≡ ok (98 ∷ 1 ∷ [])
unfolding bytes_eq
open_b = refl

asset_matches_source-eq_example :
    asset_matches_source open_source never_changes open_released (a_source (98 ∷ []))
    ≡ ok (bytes_eq (98 ∷ 0 ∷ []) (98 ∷ 1 ∷ []))
asset_matches_source-eq_example =
    asset_matches_source-eq open_source never_changes open_released (a_source (98 ∷ []))
      (98 ∷ 0 ∷ []) (98 ∷ 1 ∷ []) refl open_b refl refl refl

abbrev two_sources : List SourceFile
two_sources = a_source (97 ∷ []) ∷ a_source (98 ∷ []) ∷ []

abbrev two_assets : Release
two_assets = record {
  project_id = 9 ∷ [];
  release_sequence = 5;
  assets = an_asset (97 ∷ []) ∷ an_asset (98 ∷ []) ∷ [];
}

abbrev a_kept : Bytes → PlannedAsset
a_kept path = record {
  path = path;
  source_len = some 2;
  released_len = some 2;
  access = hot;
  availability = required;
  change = unchanged;
}

abbrev a_current_plan : ReleasePlan
a_current_plan = record {
  previous_release = some 5;
  assets = a_kept (97 ∷ []) ∷ a_kept (98 ∷ []) ∷ [];
  source_bytes = 4;
  changed_source_bytes = 0;
}

a_current_plan_is_made :
    plan_directory_after_pack [] (9 ∷ []) two_sources two_assets ≡ ok a_current_plan
unfolding plan_directory_after_pack check_sources previous_of none_stale availability collect
    check_project sum_lens into_values classify extension_of is_audio is_video is_compressed
    hot_block_len lookup insert remove bytes_eq access_code
a_current_plan_is_made = refl

plan_directory_after_pack-IsCurrent_example :
    IsCurrent [] two_sources (collect two_assets.assets []) (a_current_plan.assets, []) (98 ∷ [])
plan_directory_after_pack-IsCurrent_example =
    plan_directory_after_pack-IsCurrent [] (9 ∷ []) two_sources two_assets a_current_plan
      a_current_plan_is_made (98 ∷ [])
