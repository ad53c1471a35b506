-- ===== src/BuildCache/Maps.antt =====
-- Maps that are filled with entries of different paths.
use hakutaku.Prelude.{
  ◌≡◌, refl, sym, ap, ◌∙◌, none, some, Option, List, [], ◌∷◌, arith, ◌⊎◌, inl, inr, Bool-cases,
  if◌then◌else◌,
}
use hakutaku.Prelude.Keys.{lookup, insert, lookup-insert}
use hakutaku.Wire.Inverse.{bytes_eq_refl, bytes_eq-eq}
use hakutaku.Wire.{Bytes, bytes_eq}
use hakutaku.BuildCache.{path_keys, CachedEntry, is_some}

-- No path stands twice.
abbrev pub Distinct : List (Bytes × CachedEntry) → Type 0
Distinct [] = Unit {0}
Distinct ((path, e) ∷ es) = (lookup path es ≡ none) × Distinct es

abbrev pub insert_all :
    List (Bytes × CachedEntry) → List (Bytes × CachedEntry) → List (Bytes × CachedEntry)
insert_all [] m = m
insert_all ((path, e) ∷ es) m = insert_all es (insert path e m)

-- No path of the list is in the map.
abbrev pub Apart : List (Bytes × CachedEntry) → List (Bytes × CachedEntry) → Type 0
Apart es m = (k : Bytes) → (lookup k es ≡ none) ⊎ (lookup k m ≡ none)

pub Apart-new :
    (path : Bytes) (e : CachedEntry) (es m : List (Bytes × CachedEntry))
    → Apart ((path, e) ∷ es) m
    → lookup path m ≡ none
unfolding lookup
Apart-new path e es m a = elim (a path) [ inl h ↦ ground (arith, bytes_eq_refl path) | inr h ↦ h ]

pub Apart-insert :
    (path : Bytes) (e : CachedEntry) (es m : List (Bytes × CachedEntry))
    → Distinct ((path, e) ∷ es)
    → Apart ((path, e) ∷ es) m
    → Apart es (insert path e m)
unfolding lookup
Apart-insert path e es m (d, ds) a k = elim (Bool-cases (bytes_eq path k)) [
  | inl same ↦ inl (ap (λ j. lookup j es) (sym (bytes_eq-eq path k same)) ∙ d)
  | inr other ↦ elim (a k) [
    | inl h ↦ inl (ground (arith, other))
    | inr h ↦ inr (lookup-insert path k e m ∙ ground (arith, other))
  ]
]

pub lookup-insert_all :
    (es m : List (Bytes × CachedEntry)) (k : Bytes)
    → Distinct es
    → Apart es m
    → lookup k (insert_all es m) ≡ (if is_some (lookup k es) then lookup k es else lookup k m)
unfolding lookup is_some
lookup-insert_all [] m k d a = refl
lookup-insert_all ((path, e) ∷ es) m k d a =
    lookup-insert_all es (insert path e m) k d.1 (Apart-insert path e es m d a)
    ∙ elim (Bool-cases (bytes_eq path k)) [
      | inl same ↦
          let gone = ap (λ j. lookup j es) (sym (bytes_eq-eq path k same)) ∙ d.0 in
          rw (lookup-insert path k e m, gone, same) refl
      | inr other ↦ rw (lookup-insert path k e m, other) refl
    ]

or_none : (o : Option CachedEntry) → (if is_some o then o else none) ≡ o
unfolding is_some
or_none none = refl
or_none (some e) = refl

-- The map has what the list has.
pub lookup-insert_all_nil :
    (es : List (Bytes × CachedEntry)) (k : Bytes)
    → Distinct es
    → lookup k (insert_all es []) ≡ lookup k es
unfolding lookup
lookup-insert_all_nil es k d = lookup-insert_all es [] k d (λ j. inr refl) ∙ or_none (lookup k es)
