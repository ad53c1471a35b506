-- ===== src/Source.antt =====
-- crates/pack/src/source.rs: how a source file is classified by its name and length. The walk over
-- the directory is file-system access.
pub mod Classes
mod Tests
use hakutaku.Prelude.{
  ℕ, ◌+◌, Bool, true, false, ◌||◌, not, Option, none, some, List, [], ◌∷◌, map, ltb, leb, ◌==◌,
  if◌then◌else◌,
}
use hakutaku.Wire.{Bytes, bytes_eq, u32_mod}
use hakutaku.Format.Enums.{
  LayoutKind, fixed, content_defined, AccessClass, hot, normal, streaming, transient,
}
use hakutaku.Paths.{any, split, to_ascii_lowercase, eq_ignore_ascii_case}
use hakutaku.BuildCache.{CompressionPolicy, auto, raw, SourceStamp}

abbrev pub stream_block : ℕ
stream_block = 262144

abbrev pub audio_block : ℕ
audio_block = 65536

abbrev pub short_audio_limit : ℕ
short_audio_limit = 1048576

abbrev pub bulk_block : ℕ
bulk_block = 1048576

abbrev pub hot_file_limit : ℕ
hot_file_limit = 32768

abbrev pub content_defined_limit : ℕ
content_defined_limit = 67108864

pub record SourceClass : Type 0 where
  pub layout : LayoutKind
  pub fixed_block_len : ℕ
  pub access : AccessClass
  pub compression : CompressionPolicy

pub record SourceFile : Type 0 where
  pub host_path : Bytes
  pub logical_path : Bytes
  pub len : ℕ
  pub stamp : SourceStamp

-- `str::rsplit_once` at an ASCII character
unfoldable pub rsplit_once : ℕ → Bytes → Option (Bytes × Bytes)
rsplit_once c [] = none
rsplit_once c (x ∷ xs) = elim (rsplit_once c xs) [
  | none ↦ if x == c then some ([], xs) else none
  | some (before, after) ↦ some (x ∷ before, after)
]

unfoldable pub after_dot : Option (Bytes × Bytes) → Bytes
after_dot none = []
after_dot (some (before, after)) = after

unfoldable pub is_one_of : Bytes → List Bytes → Bool
unfolding any bytes_eq
is_one_of name names = any (bytes_eq name) names

abbrev mp3 : Bytes
mp3 = b'm' ∷ b'p' ∷ b'3' ∷ []

abbrev ogg : Bytes
ogg = b'o' ∷ b'g' ∷ b'g' ∷ []

abbrev opus : Bytes
opus = b'o' ∷ b'p' ∷ b'u' ∷ b's' ∷ []

abbrev flac : Bytes
flac = b'f' ∷ b'l' ∷ b'a' ∷ b'c' ∷ []

abbrev wav : Bytes
wav = b'w' ∷ b'a' ∷ b'v' ∷ []

abbrev mp4 : Bytes
mp4 = b'm' ∷ b'p' ∷ b'4' ∷ []

abbrev webm : Bytes
webm = b'w' ∷ b'e' ∷ b'b' ∷ b'm' ∷ []

abbrev mkv : Bytes
mkv = b'm' ∷ b'k' ∷ b'v' ∷ []

abbrev mov : Bytes
mov = b'm' ∷ b'o' ∷ b'v' ∷ []

abbrev m4v : Bytes
m4v = b'm' ∷ b'4' ∷ b'v' ∷ []

abbrev webp : Bytes
webp = b'w' ∷ b'e' ∷ b'b' ∷ b'p' ∷ []

abbrev png : Bytes
png = b'p' ∷ b'n' ∷ b'g' ∷ []

abbrev jpg : Bytes
jpg = b'j' ∷ b'p' ∷ b'g' ∷ []

abbrev jpeg : Bytes
jpeg = b'j' ∷ b'p' ∷ b'e' ∷ b'g' ∷ []

abbrev avif : Bytes
avif = b'a' ∷ b'v' ∷ b'i' ∷ b'f' ∷ []

abbrev bgm : Bytes
bgm = b'b' ∷ b'g' ∷ b'm' ∷ []

abbrev music : Bytes
music = b'm' ∷ b'u' ∷ b's' ∷ b'i' ∷ b'c' ∷ []

unfoldable pub extension_of : Bytes → Bytes
unfolding rsplit_once after_dot to_ascii_lowercase
extension_of path = map to_ascii_lowercase (after_dot (rsplit_once b'.' path))

unfoldable pub is_audio : Bytes → Bool
unfolding is_one_of
is_audio extension = is_one_of extension (mp3 ∷ ogg ∷ opus ∷ flac ∷ wav ∷ [])

unfoldable pub is_video : Bytes → Bool
unfolding is_one_of
is_video extension = is_one_of extension (mp4 ∷ webm ∷ mkv ∷ mov ∷ m4v ∷ [])

unfoldable pub is_compressed : Bytes → Bool
unfolding is_one_of
is_compressed extension =
    is_one_of extension
      (webp ∷ png ∷ jpg ∷ jpeg ∷ avif ∷ opus ∷ mp3 ∷ ogg ∷ flac ∷ mp4 ∷ webm ∷ mkv ∷ mov ∷ m4v ∷ [])

unfoldable pub is_long_lived_audio : Bytes → Bool
unfolding any split eq_ignore_ascii_case
is_long_lived_audio path =
    any (λ component. eq_ignore_ascii_case component bgm || eq_ignore_ascii_case component music)
      (split b'/' path)

-- `u32::try_from(len.max(1)).unwrap_or(1)`
unfoldable pub hot_block_len : ℕ → ℕ
hot_block_len len =
    let positive = (if ltb len 1 then 1 else len) in if ltb positive u32_mod then positive else 1

unfoldable pub classify : SourceFile → SourceClass
unfolding extension_of is_audio is_video is_compressed is_long_lived_audio hot_block_len
classify source =
    let extension = extension_of source.logical_path in
    let audio = is_audio extension in
    let video = is_video extension in
    let policy = (if is_compressed extension then raw else auto) in
    if video || audio
    then record {
      layout = fixed;
      fixed_block_len = if audio then audio_block else stream_block;
      access =
          if video || is_long_lived_audio source.logical_path || ltb short_audio_limit source.len
          then streaming
          else transient;
      compression = policy;
    }
    else if leb source.len hot_file_limit
    then record {
      layout = fixed;
      fixed_block_len = hot_block_len source.len;
      access = hot;
      compression = policy;
    }
    else if leb source.len content_defined_limit
    then record {
      layout = content_defined;
      fixed_block_len = 0;
      access = normal;
      compression = policy;
    }
    else record {
      layout = fixed;
      fixed_block_len = bulk_block;
      access = normal;
      compression = policy;
    }
