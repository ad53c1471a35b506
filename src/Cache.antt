-- ===== src/Cache.antt =====
-- `ClockCache` of crates/core/src/cache.rs: a cache of byte buffers within a budget, with the clock
-- (second chance) rule for eviction. The index is a hash map, and `vacant` a stack with its top first.
pub mod Consistent
mod Marks
pub mod Evict
pub mod Liveness
pub mod Insert
mod Store
pub mod Laws
pub mod Insertion
pub mod Run
mod Tests
use hakutaku.Prelude.{
  ℕ, zero, suc, ◌+◌, ◌-◌, ◌*◌, ◌%◌, ◌≤◌, ◌<◌, ◌≡◌, ◌||◌, Bool, true, false, Option, none, some,
  List, [], ◌∷◌, ◌++◌, length, get_elem?, set, ltb, leb, ◌==◌, if◌then◌else◌,
}
use hakutaku.Prelude.Keys
use hakutaku.Prelude.Keys.{Eq}
use hakutaku.Wire.{Bytes, usize_mod}

pub record Entry (K : Type 0) : Type 0 where
  pub key : K
  pub value : Bytes
  pub referenced : Bool

pub record ClockCache (K : Type 0) : Type 0 where
  pub budget : ℕ
  pub used : ℕ
  pub hand : ℕ
  pub entries : List (Option (Entry K))
  pub index : List (K × ℕ)
  pub vacant : List ℕ

-- `usize::saturating_add` and `saturating_mul`; `saturating_sub` is `-` on ℕ.
unfoldable pub saturating : ℕ → ℕ
saturating n = if ltb n usize_mod then n else (usize_mod - 1)

unfoldable pub is_empty {ℓ} : {A : Type ℓ} → List A → Bool
is_empty [] = true
is_empty (x ∷ xs) = false

unfoldable pub is_some {ℓ} : {A : Type ℓ} → Option A → Bool
is_some none = false
is_some (some a) = true

module _ {K : Type 0} where
  unfoldable pub new : ℕ → ClockCache K
  new budget = record { budget = budget; used = 0; hand = 0; entries = []; index = []; vacant = [] }

  unfoldable pub clear : ClockCache K → ClockCache K
  clear c = record c { used = 0; hand = 0; entries = []; index = []; vacant = [] }

module _ {K : Type 0} ⦃e : Eq K⦄ where
  -- The slot that the index named, if it is there and occupied.
  pub touch : ℕ → Option (Option (Entry K)) → ClockCache K → Option Bytes × ClockCache K
  touch i none c = (none, c)
  touch i (some none) c = (none, c)
  touch i (some (some entry)) c = (
    some entry.value,
    record c { entries = set c.entries i (some (record entry { referenced = true })) },
  )

  pub get_at : Option ℕ → ClockCache K → Option Bytes × ClockCache K
  unfolding touch
  get_at none c = (none, c)
  get_at (some i) c = touch i (get_elem? c.entries i) c

  unfoldable pub get : K → ClockCache K → Option Bytes × ClockCache K
  unfolding get_at
  get key c = get_at (Keys.lookup key c.index) c

  -- `self.hand = (self.hand + 1) % self.entries.len()`
  pub advance : ClockCache K → ClockCache K
  advance c = record c { hand = (c.hand + 1) % length c.entries }

  -- The slot under the hand: an unreferenced entry is taken out, a referenced one loses its mark.
  pub visit : Option (Option (Entry K)) → ClockCache K → Option ℕ × ClockCache K
  unfolding advance
  visit none c = (none, advance c)
  visit (some none) c = (none, advance c)
  visit (some (some entry)) c =
      if entry.referenced
      then (
        none,
        advance (record c {
          entries = set c.entries c.hand (some (record entry { referenced = false }));
        }),
      )
      else (
        some c.hand,
        advance (record c {
          entries = set c.entries c.hand none;
          used = c.used - length entry.value;
          index = Keys.remove entry.key c.index;
        }),
      )

  -- One round of the scan: `self.hand %= self.entries.len()` and the visit.
  pub round : ClockCache K → Option ℕ × ClockCache K
  unfolding visit
  round c =
      let c' = record c { hand = c.hand % length c.entries } in
      visit (get_elem? c.entries c'.hand) c'

  -- The loop `for _ in 0..scan_limit`.
  pub scan : ℕ → ClockCache K → Option ℕ × ClockCache K
  unfolding round
  scan zero c = (none, c)
  scan (suc rounds) c =
      let (found, c') = round c in
      let rest = scan rounds c' in if is_some found then (found, c') else rest

  unfoldable pub evict_one : ClockCache K → Option ℕ × ClockCache K
  unfolding scan is_empty is_some saturating
  evict_one c =
      if is_empty c.index || is_empty c.entries
      then (none, c)
      else (let limit = saturating (length c.entries * 2) in
          scan (if ltb limit 1 then 1 else limit) c)

  -- `while used + len > budget`, on fuel. `false` is the early return, with no entry left to evict.
  -- An eviction empties an occupied slot, so one round more than there are slots is enough.
  pub make_room : ℕ → ℕ → ClockCache K → Bool × ClockCache K
  unfolding evict_one
  make_room zero len c = (false, c)
  make_room (suc fuel) len c =
      let (found, c') = evict_one c in
      let rest : Bool × ClockCache K = elim found [
        | none ↦ (false, c')
        | some slot ↦ make_room fuel len (record c' { vacant = slot ∷ c'.vacant })
      ] in
      if ltb c.budget (saturating (c.used + len)) then rest else (true, c)

  -- `self.vacant.pop()`, or a new slot at the end.
  pub take_slot : List ℕ → ClockCache K → ℕ × ClockCache K
  take_slot (slot ∷ vacant) c = (slot, record c { vacant = vacant })
  take_slot [] c = (length c.entries, record c { entries = c.entries ++ (none ∷ []) })

  pub store : K → Bytes → ClockCache K → ClockCache K
  unfolding take_slot
  store key value c =
      let (slot, c') = take_slot c.vacant c in
      record c' {
        used = c'.used + length value;
        index = Keys.insert key slot c'.index;
        entries =
            set c'.entries slot (some (record { key = key; value = value; referenced = true }));
      }

  unfoldable pub insert : K → Bytes → ClockCache K → ClockCache K
  unfolding make_room store is_some saturating
  insert key value c =
      if c.budget == 0 || ltb c.budget (length value) || is_some (Keys.lookup key c.index)
      then c
      else (let (done, c') = make_room (suc (length c.entries)) (length value) c in
          if done then store key value c' else c')
