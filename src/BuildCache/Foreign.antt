-- ===== src/BuildCache/Foreign.antt =====
-- A build cache of another project or release is not taken.
use hakutaku.Prelude.{ℕ, ◌^◌, ◌<◌, ◌≡◌, ap, sym, ◌∙◌, List, length, some, inr, leb, ◌==◌, arith}
use hakutaku.Prelude.Options.{guard, >>=-eq-some, guard-eq-some}
use hakutaku.Wire.{Bytes, get_range, bytes_eq}
use hakutaku.Wire.Inverse.{bytes_eq-eq}
use hakutaku.BuildCache.{BuildCache, CachedEntry, parse, encode, read_u16, read_u64, magic}
use hakutaku.BuildCache.Header.{whole, project_back, release_back}
use hakutaku.BuildCache.RoundTrip.{IsInventory, saved_split, encode-saved, behind}

parse-Matches :
    (hash : Bytes → Bytes) (bytes project_id : Bytes) (release_sequence : ℕ) (c : BuildCache)
    → parse hash bytes project_id release_sequence ≡ some c
    → (get_range bytes 12 28 ≡ some project_id) × (read_u64 bytes 28 ≡ some release_sequence)
unfolding parse
parse-Matches hash bytes project_id release_sequence c e =
    let (d1, e1, r1) = >>=-eq-some (guard (leb 80 (length bytes))) _ e in
    let (m, e2, r2) = >>=-eq-some (get_range bytes 0 8) _ r1 in
    let (d3, e3, r3) = >>=-eq-some (guard (bytes_eq m magic)) _ r2 in
    let (version, e4, r4) = >>=-eq-some (read_u16 bytes 8) _ r3 in
    let (d5, e5, r5) = >>=-eq-some (guard (version == 2)) _ r4 in
    let (size, e6, r6) = >>=-eq-some (read_u16 bytes 10) _ r5 in
    let (d7, e7, r7) = >>=-eq-some (guard (size == 48)) _ r6 in
    let (project, e8, r8) = >>=-eq-some (get_range bytes 12 28) _ r7 in
    let (d9, e9, r9) = >>=-eq-some (guard (bytes_eq project project_id)) _ r8 in
    let (release, e10, r10) = >>=-eq-some (read_u64 bytes 28) _ r9 in
    let (d11, e11, r11) = >>=-eq-some (guard (release == release_sequence)) _ r10 in
    let same_release : release ≡ release_sequence =
      ground (arith, guard-eq-some (release == release_sequence) e11) in
    (
      e8
          ∙ ap some
              (bytes_eq-eq project project_id (guard-eq-some (bytes_eq project project_id) e9)),
      e10 ∙ ap some same_release,
    )

some_inj : {A : Type 0} (a b : A) → some a ≡ some b → a ≡ b
some_inj a b e = cc

-- What `save` wrote for one project and release is read for that project and release only.
pub parse-encode_same :
    (hash : Bytes → Bytes) (hash_len : (bytes : Bytes) → length (hash bytes) ≡ 32)
    (project_id other_id : Bytes) (release_sequence other_sequence : ℕ)
    (es : List (Bytes × CachedEntry)) (bytes : Bytes) (c : BuildCache)
    → length project_id ≡ 16
    → release_sequence < 2 ^ 64
    → IsInventory es
    → encode hash project_id release_sequence es ≡ inr bytes
    → parse hash bytes other_id other_sequence ≡ some c
    → (project_id ≡ other_id) × (release_sequence ≡ other_sequence)
parse-encode_same hash hash_len p q r s es bytes c p_len r_small v e f =
    let file : bytes ≡ whole p r (length es) (behind hash hash_len p r es p_len r_small v) =
      cc (encode-saved hash hash_len p r es p_len r_small v)
      ∙ saved_split hash hash_len p r es p_len r_small v in
    let (project, release) = parse-Matches hash bytes q s c f in
    let rest = behind hash hash_len p r es p_len r_small v in
    (
      some_inj p q (
          sym (project_back p r (length es) rest p_len)
          ∙ ap (λ l. get_range l 12 28) (sym file)
          ∙ project),
      some_inj r s (
          sym (release_back p r (length es) rest p_len r_small)
          ∙ ap (λ l. read_u64 l 28) (sym file)
          ∙ release),
    )
