-- ===== src/Format/Enums.antt =====
-- The one-byte enumerations of crates/core/src/format.rs and their `parse`.
use hakutaku.Prelude.{ℕ, ◌≡◌, refl, ◌==◌, if◌then◌else◌, arith}
use hakutaku.Wire.{Result, ok, err, invalid_format}

pub data Codec : Type 0 where
  raw zstd : Codec

pub data Availability : Type 0 where
  required deferred : Availability

pub data LayoutKind : Type 0 where
  fixed content_defined : LayoutKind

pub data AccessClass : Type 0 where
  hot normal streaming transient : AccessClass

pub data PageKind : Type 0 where
  block_map reuse : PageKind

-- `self as u8`
unfoldable pub codec_code : Codec → ℕ
codec_code raw = 0
codec_code zstd = 1

unfoldable pub availability_code : Availability → ℕ
availability_code required = 0
availability_code deferred = 1

unfoldable pub layout_code : LayoutKind → ℕ
layout_code fixed = 0
layout_code content_defined = 1

unfoldable pub access_code : AccessClass → ℕ
access_code hot = 0
access_code normal = 1
access_code streaming = 2
access_code transient = 3

unfoldable pub page_kind_code : PageKind → ℕ
page_kind_code block_map = 1
page_kind_code reuse = 2

unfoldable pub codec_parse : ℕ → Result Codec
codec_parse value =
    if value == 0
    then ok raw
    else if value == 1
    then ok zstd
    else err (invalid_format "unknown codec")

unfoldable pub availability_parse : ℕ → Result Availability
availability_parse value =
    if value == 0
    then ok required
    else if value == 1
    then ok deferred
    else err (invalid_format "unknown segment availability")

unfoldable pub layout_parse : ℕ → Result LayoutKind
layout_parse value =
    if value == 0
    then ok fixed
    else if value == 1
    then ok content_defined
    else err (invalid_format "unknown file layout")

unfoldable pub access_parse : ℕ → Result AccessClass
access_parse value =
    if value == 0
    then ok hot
    else if value == 1
    then ok normal
    else if value == 2
    then ok streaming
    else if value == 3
    then ok transient
    else err (invalid_format "unknown access class")

unfoldable pub page_kind_parse : ℕ → Result PageKind
page_kind_parse value =
    if value == 1
    then ok block_map
    else if value == 2
    then ok reuse
    else err (invalid_format "unknown page kind")

-- Each code parses to its value, and a parsed byte is the code of its value.
pub codec_parse-codec_code : (c : Codec) → codec_parse (codec_code c) ≡ ok c
unfolding codec_parse codec_code
codec_parse-codec_code raw = refl
codec_parse-codec_code zstd = refl

pub codec_code-of_parse : (v : ℕ) (c : Codec) → codec_parse v ≡ ok c → codec_code c ≡ v
unfolding codec_parse codec_code
codec_code-of_parse v c e = ground arith

pub availability_parse-availability_code :
    (a : Availability) → availability_parse (availability_code a) ≡ ok a
unfolding availability_parse availability_code
availability_parse-availability_code required = refl
availability_parse-availability_code deferred = refl

pub availability_code-of_parse :
    (v : ℕ) (a : Availability) → availability_parse v ≡ ok a → availability_code a ≡ v
unfolding availability_parse availability_code
availability_code-of_parse v a e = ground arith

pub layout_parse-layout_code : (l : LayoutKind) → layout_parse (layout_code l) ≡ ok l
unfolding layout_parse layout_code
layout_parse-layout_code fixed = refl
layout_parse-layout_code content_defined = refl

pub layout_code-of_parse : (v : ℕ) (l : LayoutKind) → layout_parse v ≡ ok l → layout_code l ≡ v
unfolding layout_parse layout_code
layout_code-of_parse v l e = ground arith

pub access_parse-access_code : (a : AccessClass) → access_parse (access_code a) ≡ ok a
unfolding access_parse access_code
access_parse-access_code hot = refl
access_parse-access_code normal = refl
access_parse-access_code streaming = refl
access_parse-access_code transient = refl

pub access_code-of_parse : (v : ℕ) (a : AccessClass) → access_parse v ≡ ok a → access_code a ≡ v
unfolding access_parse access_code
access_code-of_parse v a e = ground arith

pub page_kind_parse-page_kind_code : (k : PageKind) → page_kind_parse (page_kind_code k) ≡ ok k
unfolding page_kind_parse page_kind_code
page_kind_parse-page_kind_code block_map = refl
page_kind_parse-page_kind_code reuse = refl

pub page_kind_code-of_parse :
    (v : ℕ) (k : PageKind) → page_kind_parse v ≡ ok k → page_kind_code k ≡ v
unfolding page_kind_parse page_kind_code
page_kind_code-of_parse v k e = ground arith
