-- ===== src/Crypto/Aad/Binding.antt =====
-- The associated data determines what it binds (crates/televault-crypto/src/aad.rs).
use televault.Prelude.{
  ℕ, ◌%◌, ◌^◌, ◌≤◌, ◌<◌, ◌≡◌, refl, sym, ◌∙◌, true, List, [], ◌∷◌, ◌++◌, arith, length, All, Text,
}
use televault.Core.Validation.{is_identifier_char}
use televault.Crypto.Aad.{ChunkAad, as_bytes, u16_le_bytes, u32_le_bytes, magic, to_aad_bytes}

as_bytes_id : (s : Text) → All (λ c. is_identifier_char c ≡ true) s → as_bytes s ≡ s
unfolding as_bytes
as_bytes_id [] h = refl
as_bytes_id (c ∷ s) h = ground (arith, as_bytes_id s h.1)

-- Lists of one length are told apart by what follows a common split.
append_split :
    (xs ys us vs : List ℕ) → length xs ≡ length ys → xs ++ us ≡ ys ++ vs → (xs ≡ ys) × (us ≡ vs)
append_split [] [] us vs h e = (refl, e)
append_split [] (y ∷ ys) us vs h e = ground arith
append_split (x ∷ xs) [] us vs h e = ground arith
append_split (x ∷ xs) (y ∷ ys) us vs h e = ground (arith, append_split xs ys us vs)

-- A file identifier and numbers as the program makes them.
pub record IsWellFormed (a : ChunkAad) : Type 0 where
  pub identifier : All (λ c. is_identifier_char c ≡ true) a.file_id
  pub short : length a.file_id ≤ 64
  pub index_word : a.chunk_index < 2 ^ 32
  pub total_word : a.total_chunks < 2 ^ 32
  pub version_word : a.format_version < 2 ^ 32

tail_injective :
    (i t v i' t' v' : ℕ)
    → i < 2 ^ 32
    → t < 2 ^ 32
    → v < 2 ^ 32
    → i' < 2 ^ 32
    → t' < 2 ^ 32
    → v' < 2 ^ 32
    → u32_le_bytes i ++ (u32_le_bytes t ++ u32_le_bytes v)
      ≡ u32_le_bytes i' ++ (u32_le_bytes t' ++ u32_le_bytes v')
    → (i ≡ i') × (t ≡ t') × (v ≡ v')
tail_injective i t v i' t' v' h1 h2 h3 h4 h5 h6 e = ground arith

abbrev numbers : ChunkAad → List ℕ
numbers a =
    u32_le_bytes a.chunk_index ++ (u32_le_bytes a.total_chunks ++ u32_le_bytes a.format_version)

-- The bytes of a well-formed context, whose identifier is its own bytes.
plain :
    (a : ChunkAad)
    → IsWellFormed a
    → to_aad_bytes a ≡ magic ++ (u16_le_bytes (length a.file_id) ++ (a.file_id ++ numbers a))
unfolding to_aad_bytes
plain a w =
    let small : length a.file_id % 2 ^ 16 ≡ length a.file_id = omega (arith, w.short) in
    rw (as_bytes_id a.file_id w.identifier, small)

after_magic :
    (n k : ℕ) (us vs : List ℕ)
    → n ≤ 64
    → k ≤ 64
    → magic ++ (u16_le_bytes n ++ us) ≡ magic ++ (u16_le_bytes k ++ vs)
    → (n ≡ k) × (us ≡ vs)
after_magic n k us vs h h' e = ground arith

-- Two contexts with well-formed parts and the same bytes are the same: no chunk can stand in for one
-- of another file, place, number of chunks or version.
pub to_aad_bytes_injective :
    (a b : ChunkAad) → IsWellFormed a → IsWellFormed b → to_aad_bytes a ≡ to_aad_bytes b → a ≡ b
to_aad_bytes_injective a b v w e =
    let (lengths, rest) =
      after_magic (length a.file_id) (length b.file_id) (a.file_id ++ numbers a)
        (b.file_id ++ numbers b) v.short w.short (sym (plain a v) ∙ e ∙ plain b w) in
    let (ids, tails) = append_split a.file_id b.file_id (numbers a) (numbers b) lengths rest in
    let (is, ts, vs) =
      tail_injective a.chunk_index a.total_chunks a.format_version b.chunk_index b.total_chunks
        b.format_version v.index_word v.total_word v.version_word w.index_word w.total_word
        w.version_word tails in
    cc (ids, is, ts, vs)
