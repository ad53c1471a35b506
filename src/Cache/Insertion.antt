-- ===== src/Cache/Insertion.antt =====
-- What `insert` does to what the cache holds, whether it declines, gives up or stores.
use hakutaku.Prelude.{
  suc, ◌+◌, ◌*◌, ◌≤◌, ◌<◌, ◌≡◌, refl, ap, sym, ◌∙◌, Bool, true, false, none, some, length,
  get_elem?, arith, if◌then◌else◌, ◌⊎◌, inl, inr, ◌==◌, Bool-cases, Option-cases, ltb, ◌||◌,
}
use hakutaku.Prelude.Keys
use hakutaku.Prelude.Keys.{Eq}
use hakutaku.Wire.{Bytes, usize_mod}
use hakutaku.Cache.{Entry, ClockCache, new, make_room, store, insert, is_some, saturating}
use hakutaku.Cache.Insert.{IsRoom, make_room-IsRoom, make_room_total}
use hakutaku.Cache.Store.{IsStored, store-IsStored}
use hakutaku.Cache.Consistent.{IsConsistent, occupied-le-length}
use hakutaku.Cache.Laws.{
  slot-of_contents, contents-of_slot, contents-IsPart, lookup-IsPart, contents,
}

module _ {K : Type 0} ⦃e : Eq K⦄ where
  abbrev declines : K → Bytes → ClockCache K → Bool
  declines key value c =
      c.budget == 0 || ltb c.budget (length value) || is_some (Keys.lookup key c.index)

  stored_others :
      (key : K) (value : Bytes) (c d d' : ClockCache K)
      → IsConsistent c
      → IsRoom c (length value) true d
      → IsStored key value d d'
      → (j : K) (w : Bytes) → contents d' j ≡ some w
      → ((j ≡ key) × (w ≡ value)) ⊎ (contents c j ≡ some w)
  stored_others key value c d d' v r s j w h =
      let (i, y, at, k, val) = slot-of_contents d' j w s.consistent h in
      elim (s.others i y at) [
        | inl here ↦
            let same : y ≡ s.entry = cc (s.at, at, ap (get_elem? d'.entries) here) in
            inl (
              sym k ∙ ap (λ (x : Entry K). x.key) same ∙ s.at_key,
              sym val ∙ ap (λ (x : Entry K). x.value) same ∙ s.at_value,
            )
        | inr (x, at', key', value') ↦
            let before : contents d j ≡ some w =
              rw (← (key' ∙ k), ← (value' ∙ val)) (contents-of_slot d i x r.consistent at') in
            inr (contents-IsPart d c j w r.consistent v r.part before)
      ]

  -- Room was made for the value, and the entry is written.
  store_after :
      (key : K) (value : Bytes) (c d : ClockCache K)
      → IsConsistent c
      → c.budget + 1 < usize_mod
      → Keys.lookup key c.index ≡ none
      → IsRoom c (length value) true d
      → IsStored key value d (store key value d)
  store_after key value c d v big new r =
      store-IsStored key value d r.consistent (lookup-IsPart d c key r.consistent v r.part new)
        (unfold saturating in ground (arith, r.room refl, r.budget))

  pub data Insertion (key : K) (value : Bytes) (c : ClockCache K) : ClockCache K → Type 0 where
    declined : declines key value c ≡ true → Insertion key value c c
    gave_up : (d : ClockCache K) → IsRoom c (length value) false d → Insertion key value c d
    stored :
        (d : ClockCache K)
        → IsRoom c (length value) true d
        → Keys.lookup key c.index ≡ none
        → IsStored key value d (store key value d)
        → Insertion key value c (store key value d)

  new_key :
      (key : K) (value : Bytes) (c : ClockCache K)
      → declines key value c ≡ false
      → Keys.lookup key c.index ≡ none
  unfolding is_some
  new_key key value c h = ground arith

  pub insert-Insertion :
      (key : K) (value : Bytes) (c : ClockCache K)
      → IsConsistent c
      → c.budget + 1 < usize_mod
      → Insertion key value c (insert key value c)
  unfolding insert
  insert-Insertion key value c v big = elim (Bool-cases (declines key value c)) [
    | inl no_room ↦ rw no_room (declined no_room)
    | inr goes ↦ rw goes (
        pick (make_room (suc (length c.entries)) (length value) c).0
          (make_room (suc (length c.entries)) (length value) c).1
          (make_room-IsRoom (suc (length c.entries)) (length value) c v) (new_key key value c goes))
  ]
    where
      pick :
          (done : Bool) (d : ClockCache K)
          → IsRoom c (length value) done d
          → Keys.lookup key c.index ≡ none
          → Insertion key value c (if done then store key value d else d)
      pick true d r new = stored d r new (store_after key value c d v big new r)
      pick false d r new = gave_up d r

  Insertion-IsConsistent :
      (key : K) (value : Bytes) (c c' : ClockCache K)
      → IsConsistent c
      → Insertion key value c c'
      → IsConsistent c'
  Insertion-IsConsistent key value c c' v (declined h) = v
  Insertion-IsConsistent key value c c' v (gave_up d r) = r.consistent
  Insertion-IsConsistent key value c c' v (stored d r new s) = s.consistent

  -- `insert` keeps the bookkeeping, the byte budget among it.
  pub insert-IsConsistent :
      (key : K) (value : Bytes) (c : ClockCache K)
      → IsConsistent c
      → c.budget + 1 < usize_mod
      → IsConsistent (insert key value c)
  insert-IsConsistent key value c v big =
      Insertion-IsConsistent key value c (insert key value c) v (insert-Insertion key value c v big)

  Insertion-contents :
      (key : K) (value : Bytes) (c c' : ClockCache K) (j : K) (w : Bytes)
      → IsConsistent c
      → Insertion key value c c'
      → contents c' j ≡ some w
      → ((j ≡ key) × (w ≡ value)) ⊎ (contents c j ≡ some w)
  Insertion-contents key value c c' j w v (declined _) h = inr h
  Insertion-contents key value c c' j w v (gave_up d r) h =
      inr (contents-IsPart d c j w r.consistent v r.part h)
  Insertion-contents key value c c' j w v (stored d r new s) h =
      stored_others key value c d (store key value d) v r s j w h

  -- What the cache holds after an insertion is the new value under its key, or was there before.
  pub contents-insert :
      (key j : K) (value w : Bytes) (c : ClockCache K)
      → IsConsistent c
      → c.budget + 1 < usize_mod
      → contents (insert key value c) j ≡ some w
      → ((j ≡ key) × (w ≡ value)) ⊎ (contents c j ≡ some w)
  contents-insert key j value w c v big h =
      Insertion-contents key value c (insert key value c) j w v (insert-Insertion key value c v big)
        h

  not_indexed :
      (k : K) (c : ClockCache K)
      → IsConsistent c
      → contents c k ≡ none
      → Keys.lookup k c.index ≡ none
  not_indexed k c v absent = elim (Option-cases (Keys.lookup k c.index)) [
    | inl missing ↦ missing
    | inr (i, named) ↦
        let (x, at, key) = v.found k i named in
        absurd (cc (absent, contents-of_slot c i x v at, ap (contents c) key))
  ]

  contents_stored :
      (key : K) (value : Bytes) (c c' : ClockCache K)
      → IsStored key value c c'
      → contents c' key ≡ some value
  contents_stored key value c c' s =
      ap (contents c') (sym s.at_key)
      ∙ contents-of_slot c' s.slot s.entry s.consistent s.at
      ∙ ap some s.at_value

  -- A new value within a positive budget is there after its insertion, whatever had to be evicted.
  pub contents-insert_self :
      (key : K) (value : Bytes) (c : ClockCache K)
      → IsConsistent c
      → c.budget + 1 < usize_mod
      → length c.entries * 2 < usize_mod
      → 0 < c.budget
      → length value ≤ c.budget
      → contents c key ≡ none
      → contents (insert key value c) key ≡ some value
  unfolding insert
  contents-insert_self key value c v big slots pos small absent =
      let new = not_indexed key c v absent in
      let goes : declines key value c ≡ false = rw new (unfold is_some in ground arith) in
      let room =
        make_room_total (suc (length c.entries)) (length value) c v small big slots
          (omega (arith, occupied-le-length c.entries)) in
      let r = make_room-IsRoom (suc (length c.entries)) (length value) c v in
      rw (goes, room)
        (contents_stored key value (make_room (suc (length c.entries)) (length value) c).1 _
          (store_after key value c _ v big new (rw room at r)))
