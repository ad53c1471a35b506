-- ===== src/Wire/Writes.antt =====
-- A record is encoded by writes at fixed offsets into a buffer of zeros. The bytes of a write
-- stay if no later write touches them, and what no write touches stays zero.
use hakutaku.Prelude.{
  ℕ, zero, suc, ◌+◌, ◌≤◌, ◌≡◌, refl, sym, ap, ◌∙◌, ◌⊎◌, some, List, [], ◌∷◌, length, get_elem?,
  drop, replicate, arith,
}
use hakutaku.Wire.Buffers.{Bytes, copy_at}
use hakutaku.Wire.Slices.{slice, length-copy_at, slice-copy_at_self, slice-copy_at_ne}
use mathlib.Core.Path.{subst}

abbrev pub Write : Type 0
Write = ℕ × Bytes

abbrev pub write_all : List Write → Bytes → Bytes
write_all [] b = b
write_all ((o, s) ∷ ws) b = write_all ws (copy_at o s b)

-- Every write lies within the first `size` bytes.
abbrev pub Within : ℕ → List Write → Type 0
Within size [] = Unit
Within size ((o, s) ∷ ws) = (o + length s ≤ size) × Within size ws

-- No write touches the `n` bytes at `o`.
abbrev pub Spares : ℕ → ℕ → List Write → Type 0
Spares o n [] = Unit
Spares o n ((p, s) ∷ ws) = ((o + n ≤ p) ⊎ (p + length s ≤ o)) × Spares o n ws

pub length-write_all :
    (ws : List Write) (b : Bytes) → Within (length b) ws → length (write_all ws b) ≡ length b
length-write_all [] b h = refl
length-write_all ((o, s) ∷ ws) b (h, hs) =
    let e = length-copy_at o s b h in
    length-write_all ws (copy_at o s b) (subst (λ n. Within n ws) (sym e) hs) ∙ e

pub slice-write_all_ne :
    (ws : List Write) (b : Bytes) (o n : ℕ)
    → Within (length b) ws
    → Spares o n ws
    → slice (write_all ws b) o n ≡ slice b o n
slice-write_all_ne [] b o n h a = refl
slice-write_all_ne ((p, s) ∷ ws) b o n (h, hs) (a, as') =
    let e = length-copy_at p s b h in
    slice-write_all_ne ws (copy_at p s b) o n (subst (λ k. Within k ws) (sym e) hs) as'
    ∙ slice-copy_at_ne p s b o n h a

slice-write_all_first :
    (o : ℕ) (s : Bytes) (ws : List Write) (b : Bytes)
    → o + length s ≤ length b
    → Within (length b) ws
    → Spares o (length s) ws
    → slice (write_all ws (copy_at o s b)) o (length s) ≡ s
slice-write_all_first o s ws b h hs a =
    slice-write_all_ne ws (copy_at o s b) o (length s)
      (subst (λ k. Within k ws) (sym (length-copy_at o s b h)) hs) a
    ∙ slice-copy_at_self o s b h

-- The `k`-th write reads back if the later ones spare it.
pub slice-write_all :
    (ws : List Write) (b : Bytes) (k o : ℕ) (s : Bytes)
    → get_elem? ws k ≡ some (o, s)
    → Within (length b) ws
    → Spares o (length s) (drop (suc k) ws)
    → slice (write_all ws b) o (length s) ≡ s
slice-write_all [] b k o s e h a = absurd (cc)
slice-write_all ((p, r) ∷ ws) b zero o s e (h, hs) a =
    let q : p ≡ o = cc in
    let t : r ≡ s = cc in rw (← q, ← t) (slice-write_all_first p r ws b h hs (rw (q, t) a))
slice-write_all ((p, r) ∷ ws) b (suc k) o s e (h, hs) a =
    let e' = length-copy_at p r b h in
    slice-write_all ws (copy_at p r b) k o s e (subst (λ n. Within n ws) (sym e') hs) a

pub slice-replicate :
    {A : Type 0} (m : ℕ) (a : A) (o n : ℕ) → o + n ≤ m → slice (replicate m a) o n ≡ replicate n a
slice-replicate m a zero zero h = refl
slice-replicate zero a zero (suc n) h = absurd (omega arith)
slice-replicate (suc m) a zero (suc n) h =
    ap (λ l. a ∷ l) (slice-replicate m a zero n (omega arith))
slice-replicate zero a (suc o) n h = absurd (omega arith)
slice-replicate (suc m) a (suc o) n h = slice-replicate m a o n (omega arith)
