-- ===== src/Crypto/Tests.antt =====
-- The associated data of a concrete chunk.
use televault.Prelude.{◌≡◌, refl, arith, length, text}
use televault.Crypto.Aad.{ChunkAad, new_aad, as_bytes, to_aad_bytes}
use televault.Crypto.Aad.Binding.{IsWellFormed, to_aad_bytes_injective}

abbrev aad : ChunkAad
aad = new_aad (text "file-1") 2 3

aad-IsWellFormed : IsWellFormed aad
aad-IsWellFormed = record {
  identifier = ground arith;
  short = ground arith;
  index_word = ground arith;
  total_word = ground arith;
  version_word = ground arith;
}

to_aad_bytes_injective_example : aad ≡ aad
to_aad_bytes_injective_example =
    to_aad_bytes_injective aad aad aad-IsWellFormed aad-IsWellFormed refl

-- Nineteen bytes of prefix, two of length, six of the identifier, and three numbers.
thirty_nine_bytes : length (to_aad_bytes aad) ≡ 39
unfolding to_aad_bytes as_bytes
thirty_nine_bytes = refl
