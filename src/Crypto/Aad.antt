-- ===== src/Crypto/Aad.antt =====
-- crates/televault-crypto/src/aad.rs: the associated data of an encrypted chunk.
pub mod Binding
use televault.Prelude.{
  ℕ, ◌/◌, ◌%◌, ◌^◌, ◌+◌, ltb, if◌then◌else◌, List, [], ◌∷◌, ◌++◌, Text, text, length,
}

pub record ChunkAad : Type 0 where
  pub file_id : Text
  pub chunk_index : ℕ  -- u32
  pub total_chunks : ℕ  -- u32
  pub format_version : ℕ  -- u32

-- `ChunkAad::new`
abbrev pub new_aad : Text → ℕ → ℕ → ChunkAad
new_aad file_id chunk_index total_chunks = record {
  file_id = file_id;
  chunk_index = chunk_index;
  total_chunks = total_chunks;
  format_version = 1;
}

-- The bytes of a character in UTF-8.
abbrev pub char_bytes : ℕ → List ℕ
char_bytes c =
    if ltb c 0x80
    then c ∷ []
    else if ltb c 0x800
    then (0xc0 + c / 64) ∷ (0x80 + c % 64) ∷ []
    else if ltb c 0x10000
    then (0xe0 + c / 4096) ∷ (0x80 + c / 64 % 64) ∷ (0x80 + c % 64) ∷ []
    else (0xf0 + c / 262144) ∷ (0x80 + c / 4096 % 64) ∷ (0x80 + c / 64 % 64) ∷ (0x80 + c % 64) ∷ []

-- `str::as_bytes`
unfoldable pub as_bytes : Text → List ℕ
as_bytes [] = []
as_bytes (c ∷ s) = char_bytes c ++ as_bytes s

-- `to_le_bytes` of a `u16` and of a `u32`.
abbrev pub u16_le_bytes : ℕ → List ℕ
u16_le_bytes n = n % 256 ∷ n / 256 % 256 ∷ []

abbrev pub u32_le_bytes : ℕ → List ℕ
u32_le_bytes n = n % 256 ∷ n / 256 % 256 ∷ n / 65536 % 256 ∷ n / 16777216 % 256 ∷ []

abbrev pub magic : List ℕ
magic = text "TELEVAULT-CHUNK-v1" ++ 0 ∷ []

-- `ChunkAad::to_aad_bytes`
unfoldable pub to_aad_bytes : ChunkAad → List ℕ
to_aad_bytes a =
    let file_id_bytes = as_bytes a.file_id in
    let file_id_len = length file_id_bytes % 2 ^ 16 in
    magic
    ++ (u16_le_bytes file_id_len
        ++ (file_id_bytes
            ++ (u32_le_bytes a.chunk_index
                ++ (u32_le_bytes a.total_chunks ++ u32_le_bytes a.format_version))))
