-- ===== src/Paths/Tests.antt =====
-- Runs of the path rules, and their theorem at a concrete path.
use hakutaku.Prelude.{◌≡◌, refl, true, [], ◌∷◌}
use hakutaku.Wire.{Bytes, ok, err, invalid_path, bytes_eq}
use hakutaku.Paths.{
  contains, any, starts_with, ends_with, is_empty, split, to_ascii_lowercase, eq_ignore_ascii_case,
  split_at_checked, is_port_number, is_windows_reserved_component, is_forbidden, is_bad_part,
  validate_canonical_path,
}
use hakutaku.Paths.Canonical.{IsCanonical, validate_canonical_path-IsCanonical}

-- bg/a.png
abbrev asset_path : Bytes
asset_path = 98 ∷ 103 ∷ 47 ∷ 97 ∷ 46 ∷ 112 ∷ 110 ∷ 103 ∷ []

asset_path_valid : validate_canonical_path asset_path ≡ ok tt
unfolding validate_canonical_path contains any starts_with ends_with is_empty split
    to_ascii_lowercase eq_ignore_ascii_case split_at_checked is_port_number
    is_windows_reserved_component is_forbidden is_bad_part bytes_eq
asset_path_valid = refl

-- ../a
parent_path_refused : validate_canonical_path (46 ∷ 46 ∷ 47 ∷ 97 ∷ []) ≡ err invalid_path
unfolding validate_canonical_path contains any starts_with ends_with is_empty split is_bad_part
    bytes_eq
parent_path_refused = refl

-- The control character DEL, which is above the space.
delete_accepted : validate_canonical_path (127 ∷ []) ≡ ok tt
unfolding validate_canonical_path contains any starts_with ends_with is_empty split
    to_ascii_lowercase eq_ignore_ascii_case split_at_checked is_port_number
    is_windows_reserved_component is_forbidden is_bad_part bytes_eq
delete_accepted = refl

-- Com1.t, and lpt with a superscript two
reserved_device : is_windows_reserved_component (67 ∷ 111 ∷ 109 ∷ 49 ∷ 46 ∷ 116 ∷ []) ≡ true
unfolding any split to_ascii_lowercase eq_ignore_ascii_case split_at_checked is_port_number
    is_windows_reserved_component
reserved_device = refl

reserved_superscript : is_windows_reserved_component (108 ∷ 112 ∷ 116 ∷ 194 ∷ 178 ∷ []) ≡ true
unfolding any split to_ascii_lowercase eq_ignore_ascii_case split_at_checked is_port_number
    is_windows_reserved_component
reserved_superscript = refl

validate_canonical_path-IsCanonical_example : IsCanonical asset_path
validate_canonical_path-IsCanonical_example =
    validate_canonical_path-IsCanonical asset_path asset_path_valid
