-- ===== src/Planner/Compare.antt =====
-- The comparison of a source with a released asset, in buffers of a fixed length.
use hakutaku.Prelude.{
  ℕ, zero, suc, ◌+◌, ◌-◌, ◌≤◌, ◌<◌, ◌≡◌, refl, sym, ap, ◌∙◌, Bool, true, false, [], ◌∷◌, ◌&&◌,
  length, take, drop, min, arith, ◌==◌, if◌then◌else◌, length-drop, le→leb, Bool-cases, inl, inr,
}
use hakutaku.Wire.{Bytes, bytes_eq}
use hakutaku.PackErrors.{ok, PackResult}
use hakutaku.Source.{SourceFile}
use hakutaku.Planner.{compare, read_exact, asset_matches_source, compare_buffer_bytes}

bytes_eq-take :
    (k n : ℕ) (xs ys : Bytes)
    → k ≤ length xs
    → k ≤ length ys
    → bytes_eq (take (k + n) xs) (take (k + n) ys)
      ≡ (bytes_eq (take k xs) (take k ys) && bytes_eq (take n (drop k xs)) (take n (drop k ys)))
unfolding bytes_eq
bytes_eq-take zero n xs ys h h' = let e : 0 + n ≡ n = omega arith in rw e refl
bytes_eq-take (suc k) n [] ys h h' = absurd (omega arith)
bytes_eq-take (suc k) n (x ∷ xs) [] h h' = absurd (omega arith)
bytes_eq-take (suc k) n (x ∷ xs) (y ∷ ys) h h' =
    let e : suc k + n ≡ suc (k + n) = omega arith in
    let rest = bytes_eq-take k n xs ys (omega arith) (omega arith) in rw (e, rest) (ground arith)

read_exact_lem :
    (n : ℕ) (bytes : Bytes)
    → n ≤ length bytes
    → read_exact n bytes ≡ ok (take n bytes, drop n bytes)
unfolding read_exact
read_exact_lem n bytes h = rw (le→leb n (length bytes) h) refl

nothing_left : ok true ≡ ok (bytes_eq [] [])
unfolding bytes_eq
nothing_left = refl

and_lem : (a b : Bool) → (if a then ok b else ok false) ≡ ok (a && b)
and_lem true b = refl
and_lem false b = refl

-- With as many rounds as bytes, the loop compares all of them.
compare-eq :
    (rounds buffer remaining : ℕ) (source released : Bytes)
    → 0 < buffer
    → remaining ≤ rounds
    → remaining ≤ length source
    → remaining ≤ length released
    → compare rounds buffer remaining source released
      ≡ ok (bytes_eq (take remaining source) (take remaining released))
unfolding compare
compare-eq zero buffer remaining source released b h hs hr =
    let e : remaining ≡ 0 = omega arith in rw e nothing_left
compare-eq (suc rounds) buffer remaining source released b h hs hr =
    elim (Bool-cases (remaining == 0)) [
      | inl done ↦ let e : remaining ≡ 0 = ground arith in rw e nothing_left
      | inr more ↦
          let chunk = min remaining buffer in
          let positive : 0 < chunk = ground (arith, more) in
          let whole : chunk + (remaining - chunk) ≡ remaining = omega arith in
          let tail =
            compare-eq rounds buffer (remaining - chunk) (drop chunk source) (drop chunk released) b
              (omega arith) (omega (arith, length-drop chunk source))
              (omega (arith, length-drop chunk released)) in
          rw
            (
              more,
              read_exact_lem chunk source (omega arith),
              read_exact_lem chunk released (omega arith),
              tail,
            )
            (and_lem (bytes_eq (take chunk source) (take chunk released)) _
              ∙ ap ok (
                  sym (
                    bytes_eq-take chunk (remaining - chunk) source released (omega arith)
                      (omega arith))
                  ∙ ap (λ (n : ℕ). bytes_eq (take n source) (take n released)) whole))
    ]

take_all : (xs : Bytes) → take (length xs) xs ≡ xs
take_all [] = refl
take_all (x ∷ xs) = ap (λ l. x ∷ l) (take_all xs)

-- If both files have the length of the source, and the source is unchanged afterwards, the answer is
-- whether their bytes are the same.
pub asset_matches_source-eq :
    (open_verified : SourceFile → PackResult Bytes)
    (validate_open_file : SourceFile → PackResult (Unit {0}))
    (open_asset : Bytes → PackResult Bytes) (source : SourceFile) (left right : Bytes)
    → open_verified source ≡ ok left
    → open_asset source.logical_path ≡ ok right
    → validate_open_file source ≡ ok tt
    → length left ≡ source.len
    → length right ≡ source.len
    → asset_matches_source open_verified validate_open_file open_asset source
      ≡ ok (bytes_eq left right)
unfolding asset_matches_source
asset_matches_source-eq open_verified validate_open_file open_asset source left right e f g hl hr =
    let compared =
      compare-eq source.len compare_buffer_bytes source.len left right (omega arith) (omega arith)
        (omega arith) (omega arith) in
    let left_whole = ap (λ (n : ℕ). take n left) (sym hl) ∙ take_all left in
    let right_whole = ap (λ (n : ℕ). take n right) (sym hr) ∙ take_all right in
    rw (e, f, compared, left_whole, right_whole, g) (answer (bytes_eq left right))
  where
    answer : (b : Bool) → (if b then ok true else ok false) ≡ ok b
    answer true = refl
    answer false = refl
