-- ===== src/Paths/Devices.antt =====
-- The names that Windows reserves for devices, and that no part of an accepted path has.
use hakutaku.Prelude.{
  ℕ, zero, suc, ◌≡◌, ◌≢◌, refl, ap, ap₂, ◌∙◌, sym, List, [], ◌∷◌, ◌++◌, map, if◌then◌else◌, All,
  arith, false, true, Bool, ◌==◌, ◌||◌, ◌&&◌, inl, inr, Bool-cases, Option, none, some, get_elem?,
}
use hakutaku.Wire.{Bytes}
use hakutaku.Paths.{
  first_part, to_ascii_lowercase, eq_ignore_ascii_case, split_at_checked, is_port_number, any,
  split, device_names, is_windows_reserved_component,
}

-- What stands before the first dot.
abbrev pub before_dot : Bytes → Bytes
before_dot [] = []
before_dot (x ∷ xs) = if x == b'.' then [] else x ∷ before_dot xs

-- The names of one to nine, in digits, and of one to three, in superscripts.
abbrev numbers : List Bytes
numbers =
    (b'1' ∷ [])
    ∷ (b'2' ∷ [])
    ∷ (b'3' ∷ [])
    ∷ (b'4' ∷ [])
    ∷ (b'5' ∷ [])
    ∷ (b'6' ∷ [])
    ∷ (b'7' ∷ [])
    ∷ (b'8' ∷ [])
    ∷ (b'9' ∷ [])
    ∷ (194 ∷ 185 ∷ [])
    ∷ (194 ∷ 178 ∷ [])
    ∷ (194 ∷ 179 ∷ [])
    ∷ []

abbrev com_name : Bytes
com_name = b'c' ∷ b'o' ∷ b'm' ∷ []

abbrev lpt_name : Bytes
lpt_name = b'l' ∷ b'p' ∷ b't' ∷ []

-- con, prn, aux, nul, com1 to com9, lpt1 to lpt9, and both with a superscript
abbrev pub reserved_names : List Bytes
reserved_names =
    (b'c' ∷ b'o' ∷ b'n' ∷ [])
    ∷ (b'p' ∷ b'r' ∷ b'n' ∷ [])
    ∷ (b'a' ∷ b'u' ∷ b'x' ∷ [])
    ∷ (b'n' ∷ b'u' ∷ b'l' ∷ [])
    ∷ (map (λ number. com_name ++ number) numbers ++ map (λ number. lpt_name ++ number) numbers)

pub split-cons : (c : ℕ) (xs : Bytes) → (p : Bytes) × (ps : List Bytes) × (split c xs ≡ p ∷ ps)
unfolding split
split-cons c [] = ([], [], refl)
split-cons c (x ∷ xs) =
    let (p, ps, e) = split-cons c xs in
    elim (Bool-cases (x == c)) [
      | inl eq ↦ ([], split c xs, ground arith)
      | inr ne ↦ (x ∷ p, ps, ground (arith, e))
    ]

first_part-before_dot : (part whole : Bytes) → first_part (split 46 part) whole ≡ before_dot part
unfolding split
first_part-before_dot [] whole = refl
first_part-before_dot (x ∷ xs) whole =
    let (p, ps, e) = split-cons 46 xs in
    elim (Bool-cases (x == 46)) [
      | inl dot ↦ rw dot refl
      | inr other ↦
          let rest : p ≡ before_dot xs =
            ap (λ l. first_part l whole) (sym e) ∙ first_part-before_dot xs whole in
          rw (other, e) (ap (λ l. x ∷ l) rest)
    ]

eq_ignore_ascii_case-map :
    (xs ys : Bytes)
    → map to_ascii_lowercase xs ≡ map to_ascii_lowercase ys
    → eq_ignore_ascii_case xs ys ≡ true
unfolding eq_ignore_ascii_case
eq_ignore_ascii_case-map [] [] e = refl
eq_ignore_ascii_case-map [] (y ∷ ys) e = absurd (cc)
eq_ignore_ascii_case-map (x ∷ xs) [] e = absurd (cc)
eq_ignore_ascii_case-map (x ∷ xs) (y ∷ ys) e =
    let (head, tail) = cons_inj _ _ _ _ e in
    let rest = eq_ignore_ascii_case-map xs ys tail in ground (arith, head, rest)
  where
    cons_inj : (a b : ℕ) (xs ys : Bytes) → a ∷ xs ≡ b ∷ ys → (a ≡ b) × (xs ≡ ys)
    cons_inj a b xs ys e = (cc, cc)

-- A letter or digit of a device number is not changed by the case.
port_number_fixed :
    (rest number : Bytes)
    → map to_ascii_lowercase rest ≡ number
    → is_port_number number ≡ true
    → rest ≡ number
unfolding is_port_number to_ascii_lowercase
port_number_fixed [] number e h = absurd (cc (e, h))
port_number_fixed (x ∷ []) number e h =
    let f = rw (← e) at h in
    let same : to_ascii_lowercase x ≡ x = ground (arith, f) in ap (λ (n : ℕ). n ∷ []) (sym same) ∙ e
port_number_fixed (x ∷ y ∷ []) number e h =
    let f = rw (← e) at h in
    let first : to_ascii_lowercase x ≡ x = ground (arith, f) in
    let second : to_ascii_lowercase y ≡ y = ground (arith, f) in
    ap₂ (λ (n m : ℕ). n ∷ m ∷ []) (sym first) (sym second) ∙ e
port_number_fixed (x ∷ y ∷ z ∷ rest) number e h = absurd (let f = rw (← e) at h in cc)

split_at_checked-port :
    (a b c : ℕ) (rest : Bytes)
    → is_port_number rest ≡ true
    → split_at_checked 3 (a ∷ b ∷ c ∷ rest) ≡ some (a ∷ b ∷ c ∷ [], rest)
unfolding split_at_checked is_port_number
split_at_checked-port a b c [] h = absurd (cc)
split_at_checked-port a b c (x ∷ []) h = ground (arith, h)
split_at_checked-port a b c (x ∷ y ∷ []) h = ground (arith, h)
split_at_checked-port a b c (x ∷ y ∷ z ∷ rest) h = absurd (cc)

any-true :
    {A : Type 0} (test : A → Bool) (xs : List A) (i : ℕ) (x : A)
    → get_elem? xs i ≡ some x
    → test x ≡ true
    → any test xs ≡ true
unfolding any
any-true test [] i x at h = absurd (cc)
any-true test (y ∷ xs) zero x at h = let e : y ≡ x = cc in rw (e, h) refl
any-true test (y ∷ xs) (suc i) x at h = ground (arith, any-true test xs i x at h)

-- A part that begins with one of the four names is reserved.
device_reserved :
    (part name : Bytes) (i : ℕ)
    → get_elem? device_names i ≡ some name
    → map to_ascii_lowercase (before_dot part) ≡ map to_ascii_lowercase name
    → is_windows_reserved_component part ≡ true
unfolding is_windows_reserved_component
device_reserved part name i at e =
    rw
      (
        first_part-before_dot part part,
        any-true (λ n. eq_ignore_ascii_case (before_dot part) n) device_names i name at
            (eq_ignore_ascii_case-map (before_dot part) name e),
      )
      refl

stem_split :
    (stem number : Bytes) (p q r : ℕ)
    → map to_ascii_lowercase stem ≡ map to_ascii_lowercase (p ∷ q ∷ r ∷ []) ++ number
    → is_port_number number ≡ true
    → (prefix : Bytes) × (split_at_checked 3 stem ≡ some (prefix, number))
      × (eq_ignore_ascii_case prefix (p ∷ q ∷ r ∷ []) ≡ true)
stem_split [] number p q r e h = absurd (cc)
stem_split (a ∷ []) number p q r e h = absurd (cc)
stem_split (a ∷ b ∷ []) number p q r e h = absurd (cc)
stem_split (a ∷ b ∷ c ∷ rest) number p q r e h =
    let fixed = port_number_fixed rest number (cc) h in
    let front : map to_ascii_lowercase (a ∷ b ∷ c ∷ []) ≡ map to_ascii_lowercase (p ∷ q ∷ r ∷ []) =
      cc in
    (
      a ∷ b ∷ c ∷ [],
      rw (← fixed) (split_at_checked-port a b c rest (rw (← fixed) at h)),
      eq_ignore_ascii_case-map (a ∷ b ∷ c ∷ []) (p ∷ q ∷ r ∷ []) front,
    )

-- The test of a stem that is cut behind its third byte.
abbrev is_port : Option (Bytes × Bytes) → Bool
is_port none = false
is_port (some (prefix, suffix)) =
    (eq_ignore_ascii_case prefix (67 ∷ 79 ∷ 77 ∷ [])
      || eq_ignore_ascii_case prefix (76 ∷ 80 ∷ 84 ∷ []))
    && is_port_number suffix

or_port :
    (listed : Bool) (cut : Option (Bytes × Bytes))
    → is_port cut ≡ true
    → (if listed then true else is_port cut) ≡ true
or_port true cut h = refl
or_port false cut h = h

abbrev is_device : Bytes → Bool
is_device stem =
    if any (λ n. eq_ignore_ascii_case stem n) device_names
    then true
    else is_port (split_at_checked 3 stem)

reserved_stem :
    (part : Bytes)
    → is_windows_reserved_component part ≡ is_device (first_part (split 46 part) part)
unfolding is_windows_reserved_component
reserved_stem part = refl

reserved_eq : (part : Bytes) → is_windows_reserved_component part ≡ is_device (before_dot part)
reserved_eq part = reserved_stem part ∙ ap is_device (first_part-before_dot part part)

-- A part that begins with a port and its number is reserved.
com_reserved :
    (part number : Bytes)
    → map to_ascii_lowercase (before_dot part)
      ≡ map to_ascii_lowercase (67 ∷ 79 ∷ 77 ∷ []) ++ number
    → is_port_number number ≡ true
    → is_windows_reserved_component part ≡ true
com_reserved part number e h =
    let (prefix, cut, same) = stem_split (before_dot part) number 67 79 77 e h in
    reserved_eq part ∙ or_port _ _ (rw (cut, same, h) (ground arith))

lpt_reserved :
    (part number : Bytes)
    → map to_ascii_lowercase (before_dot part)
      ≡ map to_ascii_lowercase (76 ∷ 80 ∷ 84 ∷ []) ++ number
    → is_port_number number ≡ true
    → is_windows_reserved_component part ≡ true
lpt_reserved part number e h =
    let (prefix, cut, same) = stem_split (before_dot part) number 76 80 84 e h in
    reserved_eq part ∙ or_port _ _ (rw (cut, same, h) (ground arith))

ports_ne :
    (part prefix : Bytes) (listed : List Bytes)
    → ((number : Bytes)
        → map to_ascii_lowercase (before_dot part) ≡ prefix ++ number
        → is_port_number number ≡ true
        → ⊥)
    → All (λ number. is_port_number number ≡ true) listed
    → All
        (λ name. map to_ascii_lowercase (before_dot part) ≢ name)
        (map (λ number. prefix ++ number) listed)
ports_ne part prefix [] none_of h = tt
ports_ne part prefix (number ∷ more) none_of (here, h) =
    ((λ e. none_of number e here), ports_ne part prefix more none_of h)

All-append : (P : Bytes → Type 0) (xs ys : List Bytes) → All P xs → All P ys → All P (xs ++ ys)
All-append P [] ys h g = g
All-append P (x ∷ xs) ys (hx, h) g = (hx, All-append P xs ys h g)

numbers_ports : All (λ number. is_port_number number ≡ true) numbers
unfolding is_port_number
numbers_ports = ground arith

contradiction : (b : Bool) → b ≡ true → b ≡ false → ⊥
contradiction true e f = cc
contradiction false e f = cc

device_ne :
    (part : Bytes)
    → is_windows_reserved_component part ≡ false
    → (name : Bytes) (i : ℕ) → get_elem? device_names i ≡ some name
    → map to_ascii_lowercase (before_dot part) ≢ map to_ascii_lowercase name
device_ne part good name i at e = contradiction _ (device_reserved part name i at e) good

-- A part that is not refused as reserved has none of the names before its first dot, in any case.
pub not_reserved_lem :
    (part : Bytes)
    → is_windows_reserved_component part ≡ false
    → All (λ name. map to_ascii_lowercase (before_dot part) ≢ name) reserved_names
unfolding to_ascii_lowercase
not_reserved_lem part good = (
  (λ e. device_ne part good (67 ∷ 79 ∷ 78 ∷ []) 0 refl e),
  (
    (λ e. device_ne part good (80 ∷ 82 ∷ 78 ∷ []) 1 refl e),
    (
      (λ e. device_ne part good (65 ∷ 85 ∷ 88 ∷ []) 2 refl e),
      (
        (λ e. device_ne part good (78 ∷ 85 ∷ 76 ∷ []) 3 refl e),
        All-append (λ name. map to_ascii_lowercase (before_dot part) ≢ name)
            (map (λ number. com_name ++ number) numbers)
            (map (λ number. lpt_name ++ number) numbers)
            (ports_ne part com_name numbers
              (λ number e h. contradiction _ (com_reserved part number e h) good) numbers_ports)
            (ports_ne part lpt_name numbers
              (λ number e h. contradiction _ (lpt_reserved part number e h) good) numbers_ports),
      ),
    ),
  ),
)
