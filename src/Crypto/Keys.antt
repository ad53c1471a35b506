-- ===== src/Crypto/Keys.antt =====
-- Key derivation, nonces and the signed bytes: what is hashed fixes what went into it.
use hakutaku.Prelude.{
  some, get_elem?, ℕ, ◌+◌, ◌-◌, ◌<◌, ◌^◌, ◌≡◌, ◌≢◌, refl, sym, ap, ◌∙◌, true, List, [], ◌∷◌, ◌++◌,
  length, replicate, All, arith, append_assoc, append-nil, ltb, if◌then◌else◌,
}
use hakutaku.Wire.{Bytes, u64_mod, to_le_bytes, copy_at}
use hakutaku.Wire.Words.{length-to_le_bytes}
use hakutaku.Crypto.{
  nonce, encode_aad, update_fields, derive_input, snapshot_domain, segment_domain, path_domain,
}
use hakutaku.Crypto.Parts.{append_inj, to_le_bytes_inj, encode_aad-concat}

nonce-append : (p : Bytes) (i : ℕ) → length p ≡ 8 → nonce p i ≡ p ++ to_le_bytes 4 i
unfolding nonce encode_aad
nonce-append p i h =
    let w = to_le_bytes 4 i in
    let place : 8 ≡ 0 + length p = omega (arith, h) in
    ap (λ (k : ℕ). copy_at k w (copy_at 0 p (replicate 12 0))) place
    ∙ encode_aad-concat 12 (p ∷ w ∷ []) (omega (arith, h, length-to_le_bytes 4 i))
    ∙ ap (λ l. p ++ l) (append-nil w)

-- Two nonces of a prefix of 8 bytes agree only if they agree in prefix and ordinal.
pub nonce_inj :
    (p q : Bytes) (i j : ℕ)
    → length p ≡ 8
    → length q ≡ 8
    → i < 2 ^ 32
    → j < 2 ^ 32
    → nonce p i ≡ nonce q j
    → (p ≡ q) × (i ≡ j)
nonce_inj p q i j hp hq hi hj e =
    let (same, rest) =
      append_inj p q (to_le_bytes 4 i) (to_le_bytes 4 j) (hp ∙ sym hq)
        (sym (nonce-append p i hp) ∙ e ∙ nonce-append q j hq) in
    (same, to_le_bytes_inj 4 i j hi hj rest)

-- The length of a field, saturated at 64 bits.
abbrev tag : Bytes → Bytes
tag field = to_le_bytes 8 (if ltb (length field) u64_mod then length field else (u64_mod - 1))

abbrev all_tagged : List Bytes → Bytes
all_tagged [] = []
all_tagged (field ∷ fields) = tag field ++ (field ++ all_tagged fields)

update_fields-append :
    (fields : List Bytes) (hashed : Bytes)
    → update_fields fields hashed ≡ hashed ++ all_tagged fields
unfolding update_fields
update_fields-append [] hashed = sym (append-nil hashed)
update_fields-append (field ∷ fields) hashed =
    update_fields-append fields (hashed ++ tag field ++ field)
    ∙ append_assoc (hashed ++ tag field) field (all_tagged fields)
    ∙ append_assoc hashed (tag field) (field ++ all_tagged fields)

abbrev IsShort : Bytes → Type 0
IsShort field = length field < u64_mod

tag_inj : (f g : Bytes) → IsShort f → IsShort g → tag f ≡ tag g → length f ≡ length g
tag_inj f g hf hg e =
    let f_small : ltb (length f) u64_mod ≡ true = ground (arith, hf) in
    let g_small : ltb (length g) u64_mod ≡ true = ground (arith, hg) in
    to_le_bytes_inj 8 (length f) (length g) hf hg (rw (f_small, g_small) at e)

all_tagged_inj :
    (fs gs : List Bytes) → All IsShort fs → All IsShort gs → all_tagged fs ≡ all_tagged gs → fs ≡ gs
unfolding to_le_bytes
all_tagged_inj [] [] hf hg e = refl
all_tagged_inj [] (g ∷ gs) hf hg e = absurd (omega (arith, ap length e))
all_tagged_inj (f ∷ fs) [] hf hg e = absurd (omega (arith, ap length e))
all_tagged_inj (f ∷ fs) (g ∷ gs) (hf, hfs) (hg, hgs) e =
    let (tags, rest) =
      append_inj (tag f) (tag g) (f ++ all_tagged fs) (g ++ all_tagged gs) refl e in
    let (same, more) =
      append_inj f g (all_tagged fs) (all_tagged gs) (tag_inj f g hf hg tags) rest in
    let tails = all_tagged_inj fs gs hfs hgs more in cc

-- What `derive` hashes for a domain fixes the fields: none can borrow bytes from its neighbours.
pub derive_input_inj :
    (domain : Bytes) (fs gs : List Bytes)
    → All IsShort fs
    → All IsShort gs
    → derive_input domain fs ≡ derive_input domain gs
    → fs ≡ gs
unfolding derive_input
derive_input_inj domain fs gs hf hg e =
    all_tagged_inj fs gs hf hg
      (append_inj domain domain (all_tagged fs) (all_tagged gs) refl
        (sym (update_fields-append fs domain) ∙ e ∙ update_fields-append gs domain)).1

some_ne : (a b : ℕ) → a ≢ b → some a ≢ some b
some_ne a b ne e = ne (cc)

-- The inputs for snapshot, segment and path keys are never the same.
pub derive_domains_ne :
    (salt uid salt' : Bytes)
    → (derive_input snapshot_domain (salt ∷ []) ≢ derive_input segment_domain (uid ∷ salt' ∷ []))
      × (derive_input snapshot_domain (salt ∷ []) ≢ derive_input path_domain [])
      × (derive_input segment_domain (uid ∷ salt' ∷ []) ≢ derive_input path_domain [])
unfolding derive_input update_fields
derive_domains_ne salt uid salt' = (
  λ e. some_ne 110 101 (λ h. omega (arith, h)) (ap (λ l. get_elem? l 1) e),
  λ e. some_ne 115 112 (λ h. omega (arith, h)) (ap (λ l. get_elem? l 0) e),
  λ e. some_ne 115 112 (λ h. omega (arith, h)) (ap (λ l. get_elem? l 0) e),
)
