-- ===== src/Prelude/Options.antt =====
-- `?` on an option, as a do block.
use mathlib.Core.Path.{◌≡◌, refl}
use mathlib.Core.Bool.{Bool, true, false}
use mathlib.Core.Option.{Option, none, some}

infixl 5 ◌>>◌ ◌>>=◌
-- `?` with and without its value
abbrev pub ◌>>=◌ {ℓ κ} : {B : Type κ} {A : Type ℓ} → Option A → (A → Option B) → Option B
none >>= next = none
some value >>= next = next value

abbrev pub ◌>>◌ {κ} : {B : Type κ} (check : Option (Unit {0})) (next : Option B) → Option B
check >> next = check >>= λ done. next

-- `if !test { return None }`
abbrev pub guard : (test : Bool) → Option (Unit {0})
guard false = none
guard true = some tt

-- What was bound, of a chain that has a value.
pub >>=-eq-some {ℓ κ} :
    {B : Type κ} {A : Type ℓ} (first : Option A) (next : A → Option B) {last : B}
    → (first >>= next) ≡ some last
    → (value : A) × (first ≡ some value) × (next value ≡ some last)
>>=-eq-some none next h = absurd (cc)
>>=-eq-some (some value) next h = (value, refl, h)

pub guard-eq-some : (test : Bool) → guard test ≡ some tt → test ≡ true
guard-eq-some false h = absurd (cc)
guard-eq-some true h = refl
