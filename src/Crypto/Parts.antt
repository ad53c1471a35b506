-- ===== src/Crypto/Parts.antt =====
-- Byte strings that are put together from parts: what `encode_aad` writes is the parts one after the
-- other, and parts of known lengths can be told from the whole.
use hakutaku.Prelude.{
  ℕ, zero, suc, ◌+◌, ◌<◌, ◌^◌, ◌≡◌, refl, sym, ap, ◌∙◌, List, [], ◌∷◌, ◌++◌, length, replicate,
  drop, arith, append_assoc, length-append,
}
use hakutaku.Wire.{Bytes, copy_at, to_le_bytes, from_le_bytes}
use hakutaku.Wire.Fronts.{take_front, drop_front}
use hakutaku.Wire.Words.{from_le_bytes-to_le_bytes}
use hakutaku.Format.Enums.{
  Codec, codec_code, codec_parse, codec_parse-codec_code, PageKind, page_kind_code, page_kind_parse,
  page_kind_parse-page_kind_code,
}
use hakutaku.Crypto.{encode_parts, encode_aad}

abbrev pub concat : List Bytes → Bytes
concat [] = []
concat (part ∷ parts) = part ++ concat parts

abbrev pub total : List Bytes → ℕ
total [] = 0
total (part ∷ parts) = length part + total parts

pub length-concat : (parts : List Bytes) → length (concat parts) ≡ total parts
length-concat [] = refl
length-concat (part ∷ parts) = omega (arith, length-append part (concat parts), length-concat parts)

drop-replicate : (n m : ℕ) → drop n (replicate {A = ℕ} (n + m) 0) ≡ replicate m 0
drop-replicate zero m = let e : 0 + m ≡ m = omega arith in rw e refl
drop-replicate (suc n) m =
    let e : suc n + m ≡ suc (n + m) = omega arith in rw e (drop-replicate n m)

-- A write of the next part into the zeros that are left.
copy_at-zeros :
    (front part : Bytes) (k m : ℕ)
    → k ≡ length part + m
    → copy_at (length front) part (front ++ replicate k 0) ≡ (front ++ part) ++ replicate m 0
unfolding copy_at
copy_at-zeros front part k m e =
    rw
      (
        take_front front (replicate k 0),
        drop_front front (replicate k 0) (length part),
        e,
        drop-replicate (length part) m,
        append_assoc front part (replicate m 0),
      )
      refl

encode_parts-concat :
    (parts : List Bytes) (front : Bytes) (k offset : ℕ)
    → offset ≡ length front
    → length (concat parts) ≡ k
    → encode_parts parts offset (front ++ replicate k 0) ≡ front ++ concat parts
unfolding encode_parts
encode_parts-concat [] front k offset o e = rw (← e) refl
encode_parts-concat (part ∷ parts) front k offset o e =
    rw
      (
        o,
        copy_at-zeros front part k (length (concat parts))
            (omega (arith, e, length-append part (concat parts))),
      )
      (encode_parts-concat parts (front ++ part) (length (concat parts))
          (length front + length part) (sym (length-append front part)) refl
        ∙ append_assoc front part (concat parts))

-- `encode_aad` writes the parts one after the other, if they fill the array.
pub encode_aad-concat :
    (n : ℕ) (parts : List Bytes) → total parts ≡ n → encode_aad n parts ≡ concat parts
unfolding encode_aad
encode_aad-concat n parts e = encode_parts-concat parts [] n 0 refl (length-concat parts ∙ e)

pub append_inj :
    (xs xs' ys ys' : Bytes)
    → length xs ≡ length xs'
    → xs ++ ys ≡ xs' ++ ys'
    → (xs ≡ xs') × (ys ≡ ys')
append_inj [] [] ys ys' l e = (refl, e)
append_inj [] (x ∷ xs') ys ys' l e = absurd (omega (arith, l))
append_inj (x ∷ xs) [] ys ys' l e = absurd (omega (arith, l))
append_inj (x ∷ xs) (x' ∷ xs') ys ys' l e =
    let (same, rest) = append_inj xs xs' ys ys' (omega (arith, l)) (cc) in (cc, rest)

-- Lists of parts that agree in their lengths.
abbrev pub SameLengths : List Bytes → List Bytes → Type 0
SameLengths [] [] = Unit {0}
SameLengths [] (q ∷ qs) = ⊥
SameLengths (p ∷ ps) [] = ⊥
SameLengths (p ∷ ps) (q ∷ qs) = (length p ≡ length q) × SameLengths ps qs

pub concat_inj : (ps qs : List Bytes) → SameLengths ps qs → concat ps ≡ concat qs → ps ≡ qs
concat_inj [] [] s e = refl
concat_inj [] (q ∷ qs) s e = absurd s
concat_inj (p ∷ ps) [] s e = absurd s
concat_inj (p ∷ ps) (q ∷ qs) (s, rest) e =
    let (same, more) = append_inj p q (concat ps) (concat qs) s e in
    let tails = concat_inj ps qs rest more in cc

pub to_le_bytes_inj :
    (n v w : ℕ) → v < 256 ^ n → w < 256 ^ n → to_le_bytes n v ≡ to_le_bytes n w → v ≡ w
to_le_bytes_inj n v w hv hw e =
    sym (from_le_bytes-to_le_bytes n v hv) ∙ ap from_le_bytes e ∙ from_le_bytes-to_le_bytes n w hw

pub codec_code_inj : (c d : Codec) → codec_code c ≡ codec_code d → c ≡ d
codec_code_inj c d e = cc (codec_parse-codec_code c, codec_parse-codec_code d, ap codec_parse e)

pub page_kind_code_inj : (c d : PageKind) → page_kind_code c ≡ page_kind_code d → c ≡ d
page_kind_code_inj c d e =
    cc (page_kind_parse-page_kind_code c, page_kind_parse-page_kind_code d, ap page_kind_parse e)
