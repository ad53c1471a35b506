-- ===== src/Paths/Canonical.antt =====
-- The paths that `validate_canonical_path` accepts, described by their components.
use hakutaku.Prelude.{
  ℕ, ◌≡◌, ◌≢◌, ◌≤◌, refl, ap, ◌∙◌, sym, List, [], ◌∷◌, ◌++◌, map, All, arith, false, true, Bool,
  ◌==◌, inl, inr, Bool-cases,
}
use hakutaku.Wire.{Bytes, ok, bytes_eq}
use hakutaku.Paths.Devices.{before_dot, reserved_names, split-cons, not_reserved_lem}
use hakutaku.Paths.{
  to_ascii_lowercase, contains, any, starts_with, ends_with, is_empty, push_front, split,
  is_forbidden, is_bad_part, validate_canonical_path,
}

-- The parts with a separator between them.
abbrev pub join : ℕ → List Bytes → Bytes
join c [] = []
join c (part ∷ []) = part
join c (part ∷ next ∷ parts) = part ++ c ∷ join c (next ∷ parts)

-- No byte below 32, no slash or backslash, and none of <>:"|?*
pub record IsAllowed (x : ℕ) : Type 0 where
  pub printable : 32 ≤ x
  pub not_slash : x ≢ b'/'
  pub not_backslash : x ≢ 92
  pub not_less : x ≢ b'<'
  pub not_greater : x ≢ b'>'
  pub not_colon : x ≢ b':'
  pub not_quote : x ≢ 34
  pub not_bar : x ≢ b'|'
  pub not_question : x ≢ b'?'
  pub not_star : x ≢ b'*'

-- A name that every supported file system can hold, and that is no way out of a directory.
pub record IsPortable (part : Bytes) : Type 0 where
  pub not_empty : part ≢ []
  pub not_here : part ≢ 46 ∷ []
  pub not_parent : part ≢ 46 ∷ 46 ∷ []
  pub no_space_first : starts_with 32 part ≡ false
  pub no_space_last : ends_with 32 part ≡ false
  pub no_dot_last : ends_with 46 part ≡ false
  pub allowed : All IsAllowed part
  pub not_reserved : All (λ name. map to_ascii_lowercase (before_dot part) ≢ name) reserved_names

pub record IsCanonical (path : Bytes) : Type 0 where
  pub parts : List Bytes
  pub not_empty : parts ≢ []
  pub joined : path ≡ join 47 parts
  pub portable : All IsPortable parts

join-push_front :
    (c x : ℕ) (p : Bytes) (ps : List Bytes) → join c (push_front x (p ∷ ps)) ≡ x ∷ join c (p ∷ ps)
join-push_front c x p [] = refl
join-push_front c x p (q ∷ ps) = refl

pub join-split : (c : ℕ) (xs : Bytes) → join c (split c xs) ≡ xs
unfolding split
join-split c [] = refl
join-split c (x ∷ xs) =
    let (p, ps, e) = split-cons c xs in
    let ih : join c (p ∷ ps) ≡ xs = rw (← e) (join-split c xs) in
    elim (Bool-cases (x == c)) [
      | inl eq ↦ ground (arith, e, ih)
      | inr ne ↦ ground (arith, e, ih, join-push_front c x p ps)
    ]

-- What holds of every byte holds in the parts, which have no separator.
All-split :
    (P : ℕ → Type 0) (c : ℕ) (xs : Bytes) → All P xs → All (All (λ x. P x × (x ≢ c))) (split c xs)
unfolding split
All-split P c [] h = (tt, tt)
All-split P c (x ∷ xs) (hx, h) =
    let (p, ps, e) = split-cons c xs in
    let whole = All-split P c xs h in
    let (hp, hps) : All (All (λ x. P x × (x ≢ c))) (p ∷ ps) = rw e at whole in
    elim (Bool-cases (x == c)) [
      | inl eq ↦ rw (eq, e) (tt, (hp, hps))
      | inr ne ↦ rw (ne, e) (((hx, λ same. absurd (ground (arith, same))), hp), hps)
    ]

contains-ne : (xs : Bytes) (c : ℕ) → contains xs c ≡ false → All (λ x. x ≢ c) xs
unfolding contains
contains-ne [] c h = tt
contains-ne (x ∷ xs) c h = (λ same. absurd (ground (arith, same)), contains-ne xs c (ground arith))

any-false :
    {A : Type 0} (test : A → Bool) (xs : List A)
    → any test xs ≡ false
    → All (λ x. test x ≡ false) xs
unfolding any
any-false test [] h = tt
any-false test (x ∷ xs) h = (ground arith, any-false test xs (ground arith))

is_forbidden-IsAllowed : (x : ℕ) → x ≢ 92 → x ≢ 47 → is_forbidden x ≡ false → IsAllowed x
unfolding is_forbidden contains
is_forbidden-IsAllowed x back slash ok_x = record {
  printable = ground arith;
  not_slash = slash;
  not_backslash = back;
  not_less = λ e. ground (arith, e, ok_x);
  not_greater = λ e. ground (arith, e, ok_x);
  not_colon = λ e. ground (arith, e, ok_x);
  not_quote = λ e. ground (arith, e, ok_x);
  not_bar = λ e. ground (arith, e, ok_x);
  not_question = λ e. ground (arith, e, ok_x);
  not_star = λ e. ground (arith, e, ok_x);
}

All-IsAllowed :
    (part : Bytes)
    → All (λ x. (x ≢ 92) × (x ≢ 47)) part
    → All (λ x. is_forbidden x ≡ false) part
    → All IsAllowed part
All-IsAllowed [] h g = tt
All-IsAllowed (x ∷ part) ((back, slash), h) (ok_x, g) =
    (is_forbidden-IsAllowed x back slash ok_x, All-IsAllowed part h g)

not_good : true ≢ false
not_good e = cc

is_bad_part-IsPortable :
    (part : Bytes)
    → All (λ x. (x ≢ 92) × (x ≢ 47)) part
    → is_bad_part part ≡ false
    → IsPortable part
unfolding is_bad_part is_empty bytes_eq
is_bad_part-IsPortable part h good = record {
  not_empty = λ same. not_good (ap is_bad_part (sym same) ∙ good);
  not_here = λ same. not_good (ap is_bad_part (sym same) ∙ good);
  not_parent = λ same. not_good (ap is_bad_part (sym same) ∙ good);
  no_space_first = ground arith;
  no_space_last = ground arith;
  no_dot_last = ground arith;
  allowed = All-IsAllowed part h (any-false is_forbidden part (ground arith));
  not_reserved = not_reserved_lem part (ground arith);
}

All-IsPortable :
    (parts : List Bytes)
    → All (All (λ x. (x ≢ 92) × (x ≢ 47))) parts
    → All (λ part. is_bad_part part ≡ false) parts
    → All IsPortable parts
All-IsPortable [] h g = tt
All-IsPortable (part ∷ parts) (h, hs) (g, gs) =
    (is_bad_part-IsPortable part h g, All-IsPortable parts hs gs)

-- A path that `validate_canonical_path` accepts is a list of components, at least one, joined by
-- slashes. No component is empty, `.` or `..`, and none has a space at an end, a dot at its end, a
-- byte below 32, a slash, a backslash or one of <>:"|?*, or before its first dot the name of a
-- Windows device, in any letter case.
pub validate_canonical_path-IsCanonical :
    (path : Bytes) → validate_canonical_path path ≡ ok tt → IsCanonical path
unfolding validate_canonical_path
validate_canonical_path-IsCanonical path e = record {
  parts = split 47 path;
  not_empty = λ none_left. let (p, ps, e) = split-cons 47 path in absurd (cc);
  joined = sym (join-split 47 path);
  portable =
      All-IsPortable (split 47 path)
        (All-split (λ x. x ≢ 92) 47 path (contains-ne path 92 (ground arith)))
        (any-false is_bad_part (split 47 path) (ground arith));
}
