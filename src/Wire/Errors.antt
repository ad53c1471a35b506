-- ===== src/Wire/Errors.antt =====
-- crates/core/src/error.rs: the failures of the reader, and `Result` with `?` as a `do` block.
-- An `io::Error` is known by its kind only, as far as the code looks at it.
use hakutaku.Prelude.{
  ℕ, ◌≡◌, refl, Bool, true, false, Option, none, some, String, List, ◌⊎◌, inl, inr,
}

pub data IoKind : Type 0 where
  unexpected_eof interrupted not_found other : IoKind

pub data Error : Type 0 where
  io : IoKind → Error
  invalid_format : String → Error
  unsupported_version : ℕ → ℕ → Error
  limit_exceeded : String → Error
  authentication : String → Error
  signature : Error
  release_rollback : ℕ → ℕ → Error
  project_mismatch : Error
  segment_unavailable : List ℕ → Error
  asset_not_found : Error
  invalid_path : Error
  invalid_range : Error
  compression : IoKind → Error

pub data Result {ℓ} (A : Type ℓ) : Type ℓ where
  ok : A → Result A
  err : Error → Result A

-- `Option::ok_or`
abbrev pub ok_or {ℓ} : {A : Type ℓ} → Option A → Error → Result A
ok_or none missing = err missing
ok_or (some found) missing = ok found

-- `if !test { return Err(failure) }`
abbrev pub guard : (test : Bool) (failure : Error) → Result (Unit {0})
guard false failure = err failure
guard true failure = ok tt

infixl 5 ◌>>◌ ◌>>=◌
-- `?` on a result, with and without its value
abbrev pub ◌>>=◌ {ℓ κ} : {B : Type κ} {A : Type ℓ} → Result A → (A → Result B) → Result B
err failure >>= next = err failure
ok value >>= next = next value

abbrev pub ◌>>◌ {κ} : {B : Type κ} (check : Result (Unit {0})) (next : Result B) → Result B
check >> next = check >>= λ done. next

pub >>=-eq-ok {ℓ κ} :
    {B : Type κ} {A : Type ℓ} (first : Result A) (next : A → Result B) {last : B}
    → (first >>= next) ≡ ok last
    → (value : A) × (first ≡ ok value) × (next value ≡ ok last)
>>=-eq-ok (err failure) next h = absurd (cc)
>>=-eq-ok (ok value) next h = (value, refl, h)

pub Result-cases {ℓ} :
    {A : Type ℓ} (r : Result A)
    → ((value : A) × (r ≡ ok value)) ⊎ ((failure : Error) × (r ≡ err failure))
Result-cases (ok value) = inl (value, refl)
Result-cases (err failure) = inr (failure, refl)
