-- ===== src/Source/Tests.antt =====
-- Classes of sample files.
use hakutaku.Prelude.{◌≡◌, refl, [], ◌∷◌, none}
use hakutaku.Format.Enums.{fixed, streaming}
use hakutaku.BuildCache.{raw}
use hakutaku.Source.{
  SourceFile, classify, extension_of, is_audio, is_video, is_compressed, is_long_lived_audio,
}
use hakutaku.Source.Classes.{IsClass, classify-IsClass}

-- "BGM/a.b.Ogg"
abbrev a_song : SourceFile
a_song = record {
  host_path = [];
  logical_path = b'B' ∷ b'G' ∷ b'M' ∷ b'/' ∷ b'a' ∷ b'.' ∷ b'b' ∷ b'.' ∷ b'O' ∷ b'g' ∷ b'g' ∷ [];
  len = 1000;
  stamp = record { len = 1000; modified = none; device = 1; inode = 2 };
}

a_song_class :
    classify a_song
    ≡ record { layout = fixed; fixed_block_len = 65536; access = streaming; compression = raw }
unfolding classify extension_of is_audio is_video is_compressed is_long_lived_audio
a_song_class = refl

classify-IsClass_example : IsClass 1000 (classify a_song)
classify-IsClass_example = classify-IsClass a_song
