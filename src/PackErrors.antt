-- ===== src/PackErrors.antt =====
-- crates/pack/src/error.rs: the failures of the packer, and `?` on its results as a do block.
use hakutaku.Prelude.{◌≡◌, refl, Bool, true, false, String}
use hakutaku.Wire.{IoKind, Error}

pub data PackError : Type 0 where
  io : IoKind → PackError
  core : Error → PackError
  invalid_input : String → PackError
  identity : String → PackError
  crypto : String → PackError

pub data PackResult {ℓ} (A : Type ℓ) : Type ℓ where
  ok : A → PackResult A
  err : PackError → PackResult A

infixl 5 ◌>>=◌ ◌>>◌
abbrev pub ◌>>=◌ {ℓ κ} :
    {B : Type κ} {A : Type ℓ} → PackResult A → (A → PackResult B) → PackResult B
err failure >>= next = err failure
ok value >>= next = next value

abbrev pub ◌>>◌ {κ} :
    {B : Type κ} (check : PackResult (Unit {0})) (next : PackResult B) → PackResult B
check >> next = check >>= λ done. next

-- `if !test { return Err(failure) }`
abbrev pub guard : (test : Bool) (failure : PackError) → PackResult (Unit {0})
guard false failure = err failure
guard true failure = ok tt

pub >>=-eq-ok {ℓ κ} :
    {B : Type κ} {A : Type ℓ} (first : PackResult A) (next : A → PackResult B) {last : B}
    → (first >>= next) ≡ ok last
    → (value : A) × (first ≡ ok value) × (next value ≡ ok last)
>>=-eq-ok (err failure) next h = absurd (cc)
>>=-eq-ok (ok value) next h = (value, refl, h)

pub guard-eq-ok : (test : Bool) (failure : PackError) → guard test failure ≡ ok tt → test ≡ true
guard-eq-ok false failure h = absurd (cc)
guard-eq-ok true failure h = refl

pub ok_inj : {A : Type 0} (a b : A) → PackResult.ok a ≡ ok b → a ≡ b
ok_inj a b h = cc
